-- ===== src/Safety/Recovery/Laws.antt =====
-- The safety state across a crash (consensus-core/src/safety_rules/recovery.rs).
use aptosbft.Common.{ℕ, ◌+◌, ◌-◌, ◌≤◌, ◌≡◌, ◌↔◌, u64, u64_max, List, some, ok, arith}
use aptosbft.Traits.{Traits}
use aptosbft.Safety.State.{SafetyStateData}
use aptosbft.Safety.Rules.{new, with_state}
use aptosbft.Safety.History.{Input, run, run-preferred_le, run-highest}
use aptosbft.Safety.Recovery.{
  SafetyStorage, IsDurable, validate_safety_state, recover, load_safety_rules, persist_safety_state,
}

-- The bounds that the validation checks.
abbrev pub Valid : SafetyStateData → Type 0
Valid s =
    (s.epoch ≤ u64_max - 1000)
    × (s.one_chain_round ≤ s.preferred_round)
    × (s.preferred_round ≤ u64 (s.last_voted_round + 100))

recover_iff :
    (s : SafetyStateData) (epoch : ℕ) → (recover (ok (some s)) epoch ≡ ok (with_state s)) ↔ Valid s
unfolding recover validate_safety_state
recover_iff s epoch = (λ h. ground arith, λ h. ground arith)

module _ (S : SafetyStorage) (durable : IsDurable S) where
  -- With a durable storage, a persisted state is restored, unchanged, exactly if it meets the
  -- bounds of the validation.
  pub load-persist :
      (store : S.Store) (s : SafetyStateData) (epoch : ℕ)
      → (persist_safety_state S store s).1 ≡ ok tt
      → (load_safety_rules S (persist_safety_state S store s).0 epoch ≡ ok (with_state s)) ↔ Valid s
  unfolding persist_safety_state load_safety_rules
  load-persist store s epoch saved =
      let back = durable.get-save store s (ground arith) in rw back (recover_iff s epoch)

  -- With a durable storage and an epoch that the validation allows, the persisted rules that a
  -- history built up from a fresh start are restored after a crash exactly if the one-chain round
  -- is the preferred round and that is at most 100 (modulo 2^64) above the last vote.
  pub load-run_iff :
      (T : Traits) (store : S.Store) (epoch : ℕ) (is : List (Input T))
      → epoch ≤ u64_max - 1000
      → (persist_safety_state S store (run T (new epoch) is).state).1 ≡ ok tt
      → let s = (run T (new epoch) is).state in
        (load_safety_rules S (persist_safety_state S store s).0 epoch ≡ ok (with_state s)) ↔ (
          (s.one_chain_round ≡ s.preferred_round)
          × (s.preferred_round ≤ u64 (s.last_voted_round + 100)))
  unfolding new
  load-run_iff T store epoch is low saved =
      let s = (run T (new epoch) is).state in
      let (there, back) = load-persist store s epoch saved in
      let below = run-preferred_le T (new epoch) is (omega arith) in
      let same = (run-highest T (new epoch) is).3 in
      (λ h. let v = there h in (omega arith, v.2), λ h. back (omega arith))
