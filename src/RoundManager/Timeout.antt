-- ===== src/RoundManager/Timeout.antt =====
-- Timeouts of a round manager (consensus-core/src/round_manager/mod.rs) over the two-chain rules.
use aptosbft.Common.{
  ap, ◌∙◌, ℕ, ◌+◌, ◌≤◌, ◌<◌, ◌≡◌, ◌≢◌, refl, u64_max, ok, List, [], ◌∷◌, map, arith, inl, ◌⊎◌, inr,
}
use aptosbft.Traits.{Traits}
use aptosbft.Types.{TimeoutReason}
use aptosbft.Safety.Interface.{two_chain}
use aptosbft.Safety.Rules.{safe_to_timeout, record_timeout}
use aptosbft.RoundManager.{RoundManager, process_timeout}
use aptosbft.RoundManager.History.{times_out, run}

module _ {T : Traits} where
  abbrev pub one_chain : RoundManager (two_chain T) → ℕ
  one_chain m = m.safety_rules.state.one_chain_round

  -- Where the round and the one-chain round are below the greatest u64, a timeout is accepted
  -- exactly if the two are equal. The manager over the two-chain rules then goes to the next round
  -- with the same one-chain round; otherwise nothing changes.
  pub process_timeout_cases :
      (m : RoundManager (two_chain T)) (reason : TimeoutReason)
      → m.round_state.round < u64_max
      → one_chain m < u64_max
      → let (m', result) = process_timeout m reason in
        ((m.round_state.round ≡ one_chain m)
          × (result ≡ ok tt)
          × (m'.round_state.round ≡ m.round_state.round + 1)
          × (one_chain m' ≡ one_chain m))
        ⊎ ((m.round_state.round ≢ one_chain m) × (result ≢ ok tt) × (m' ≡ m))
  unfolding process_timeout safe_to_timeout record_timeout
  process_timeout_cases m reason b c = ground arith

  process_timeout-stuck :
      (m : RoundManager (two_chain T)) (reason : TimeoutReason)
      → m.round_state.round ≤ u64_max
      → one_chain m < u64_max
      → m.round_state.round ≢ one_chain m
      → (process_timeout m reason).0 ≡ m
  unfolding process_timeout safe_to_timeout
  process_timeout-stuck m reason b c ne = ground arith

  run-stuck :
      (m : RoundManager (two_chain T)) (reasons : List TimeoutReason)
      → m.round_state.round ≤ u64_max
      → one_chain m < u64_max
      → m.round_state.round ≢ one_chain m
      → run m (map times_out reasons) ≡ m
  run-stuck m [] b c ne = refl
  run-stuck m (reason ∷ reasons) b c ne =
      ap (λ q. run q (map times_out reasons)) (process_timeout-stuck m reason b c ne)
      ∙ run-stuck m reasons b c ne

  -- Where the round and the one-chain round are below the greatest u64, after an accepted timeout
  -- no number of further timeouts moves the manager.
  pub timeouts_stall :
      (m : RoundManager (two_chain T)) (reason : TimeoutReason) (reasons : List TimeoutReason)
      → m.round_state.round < u64_max
      → one_chain m < u64_max
      → (process_timeout m reason).1 ≡ ok tt
      → run (process_timeout m reason).0 (map times_out reasons) ≡ (process_timeout m reason).0
  timeouts_stall m reason reasons b c h = elim (process_timeout_cases m reason b c) [
    | inl (at_chain, _, advanced, same) ↦
        run-stuck (process_timeout m reason).0 reasons (omega arith) (omega arith) (omega arith)
    | inr (_, refused, _) ↦ absurd (refused h)
  ]
