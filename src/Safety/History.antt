-- ===== src/Safety/History.antt =====
-- Histories of the rules (consensus-core/src/safety_rules/two_chain.rs) and the safety state.
use aptosbft.Common.{ℕ, ◌≤◌, ◌≡◌, ◌↔◌, refl, true, ◌∙◌, max, List, [], ◌∷◌, is_ok, arith, highest}
use aptosbft.Traits.{Traits}
use aptosbft.Timeout.{TwoChainTimeoutCertificate}
use aptosbft.Safety.Rules.{
  TwoChainSafetyRules, new, observe_qc, observe_tc, record_vote, record_timeout,
}

-- What the rules are told; a refused vote leaves them as they are.
pub data Input (T : Traits) : Type 0 where
  certified : T.QuorumCert → Input T
  timeout_certified : TwoChainTimeoutCertificate T → Input T
  voted : ℕ → Input T
  timed_out : ℕ → Input T

module _ (T : Traits) where
  abbrev pub apply : TwoChainSafetyRules → Input T → TwoChainSafetyRules
  apply r (certified qc) = (observe_qc T r qc).0
  apply r (timeout_certified tc) = (observe_tc T r tc).0
  apply r (voted round) = (record_vote r round).0
  apply r (timed_out round) = record_timeout r round

  abbrev pub run : TwoChainSafetyRules → List (Input T) → TwoChainSafetyRules
  run r [] = r
  run r (i ∷ is) = run (apply r i) is

  -- What an input adds to each register.
  abbrev pub qc_round_of : Input T → ℕ
  qc_round_of (certified qc) = T.qc_round qc
  qc_round_of (timeout_certified tc) = tc.hqc_round
  qc_round_of (voted round) = 0
  qc_round_of (timed_out round) = 0

  abbrev pub vote_round_of : Input T → ℕ
  vote_round_of (certified qc) = 0
  vote_round_of (timeout_certified tc) = 0
  vote_round_of (voted round) = round
  vote_round_of (timed_out round) = 0

  abbrev pub timeout_round_of : Input T → ℕ
  timeout_round_of (certified qc) = 0
  timeout_round_of (timeout_certified tc) = tc.round
  timeout_round_of (voted round) = 0
  timeout_round_of (timed_out round) = round

  -- One input raises each register to the maximum, and keeps the epoch.
  Raises : TwoChainSafetyRules → Input T → TwoChainSafetyRules → Type 0
  Raises r i q =
      (q.state.one_chain_round ≡ max r.state.one_chain_round (qc_round_of i))
      × (q.state.last_voted_round ≡ max r.state.last_voted_round (vote_round_of i))
      × (q.state.highest_timeout_round ≡ max r.state.highest_timeout_round (timeout_round_of i))
      × (q.state.epoch ≡ r.state.epoch)

  apply-Raises : (r : TwoChainSafetyRules) (i : Input T) → Raises r i (apply r i)
  unfolding Raises observe_qc observe_tc record_vote record_timeout
  apply-Raises r (certified qc) = ground arith
  apply-Raises r (timeout_certified tc) = ground arith
  apply-Raises r (voted round) = ground arith
  apply-Raises r (timed_out round) = ground arith

  -- After any history the one-chain, last-voted and timeout rounds are the greatest rounds that the
  -- history named, and the epoch is unchanged.
  pub run-highest :
      (r : TwoChainSafetyRules) (is : List (Input T))
      → ((run r is).state.one_chain_round ≡ highest qc_round_of r.state.one_chain_round is)
        × ((run r is).state.last_voted_round ≡ highest vote_round_of r.state.last_voted_round is)
        × ((run r is).state.highest_timeout_round
            ≡ highest timeout_round_of r.state.highest_timeout_round is)
        × ((run r is).state.epoch ≡ r.state.epoch)
  unfolding Raises
  run-highest r [] = (refl, refl, refl, refl)
  run-highest r (i ∷ is) =
      let (a, b, c, e) = apply-Raises r i in
      let (a', b', c', e') = run-highest (apply r i) is in
      (rw (← a) a', rw (← b) b', rw (← c) c', e' ∙ e)

  -- From a fresh start, a vote is recorded exactly if no earlier vote of the history was for a
  -- later round; a second vote for the same round is accepted.
  pub record_vote_iff :
      (epoch : ℕ) (is : List (Input T)) (round : ℕ)
      → (is_ok (record_vote (run (new epoch) is) round).1 ≡ true)
        ↔ (highest vote_round_of 0 is ≤ round)
  unfolding record_vote new
  record_vote_iff epoch is round =
      let last = (run-highest (new epoch) is).1 in
      (λ h. ground (arith, last), λ h. ground (arith, last))

  apply-preferred_le :
      (r : TwoChainSafetyRules) (i : Input T)
      → r.state.preferred_round ≤ r.state.one_chain_round
      → (apply r i).state.preferred_round ≤ (apply r i).state.one_chain_round
  unfolding observe_qc observe_tc record_vote record_timeout
  apply-preferred_le r (certified qc) h = ground arith
  apply-preferred_le r (timeout_certified tc) h = ground arith
  apply-preferred_le r (voted round) h = ground arith
  apply-preferred_le r (timed_out round) h = ground arith

  -- No history lets the preferred round pass the one-chain round.
  pub run-preferred_le :
      (r : TwoChainSafetyRules) (is : List (Input T))
      → r.state.preferred_round ≤ r.state.one_chain_round
      → (run r is).state.preferred_round ≤ (run r is).state.one_chain_round
  run-preferred_le r [] h = h
  run-preferred_le r (i ∷ is) h = run-preferred_le (apply r i) is (apply-preferred_le r i h)
