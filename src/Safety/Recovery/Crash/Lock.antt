-- ===== src/Safety/Recovery/Crash/Lock.antt =====
-- The lock of a validator that crashes (consensus-core/src/safety_rules/recovery.rs and
-- two_chain.rs).
use Prim.Native.String.{String}
use aptosbft.Common.{
  ℕ, ◌≤◌, ◌≡◌, refl, Bool, true, false, Option, none, some, List, [], ◌∷◌, Result, ok, err, panic,
  is_ok, arith, ap,
}
use aptosbft.Traits.{Traits}
use aptosbft.Timeout.{TwoChainTimeoutCertificate}
use aptosbft.Safety.State.{SafetyStateData}
use aptosbft.Safety.Rules.{
  TwoChainSafetyRules, with_state, record_vote, safe_to_timeout, observe_qc,
}
use aptosbft.Safety.History.{Input, run-highest, certified}
use aptosbft.Safety.Lock.{safe_to_timeout-above}
use aptosbft.Safety.Recovery.{
  SafetyStorage, IsDurable, load_safety_rules, persist_safety_state, recover, validate_safety_state,
}
use aptosbft.Safety.Recovery.Crash.{
  IsAtomic, Event, told, votes, persists, restarts, Validator, tell, vote, persist, restart, live,
  outcome, loaded, told_rules, vote_with, persist_rules,
}
use aptosbft.Safety.Recovery.Crash.Votes.{persisted}

module _ (lock : ℕ) where
  -- A lock that the rules keep, and one that is stored.
  abbrev pub RulesKeep : Option TwoChainSafetyRules → Type 0
  RulesKeep none = Unit {0}
  RulesKeep (some r) = lock ≤ r.state.one_chain_round

  abbrev pub Stored : Result String (Option SafetyStateData) → Type 0
  Stored (ok (some s)) = lock ≤ s.one_chain_round
  Stored (ok none) = ⊥
  Stored (err e) = Unit {0}
  Stored panic = Unit {0}

  loaded-RulesKeep :
      (stored : Result String (Option SafetyStateData)) (epoch : ℕ)
      → Stored stored
      → RulesKeep (loaded (recover stored epoch))
  unfolding recover validate_safety_state with_state
  loaded-RulesKeep (ok (some s)) epoch h = ground arith
  loaded-RulesKeep (ok none) epoch h = elim h [ ]
  loaded-RulesKeep (err e) epoch h = tt
  loaded-RulesKeep panic epoch h = tt

  told_rules-RulesKeep :
      {T : Traits} (rules : Option TwoChainSafetyRules) (i : Input T)
      → RulesKeep rules
      → RulesKeep (told_rules rules i)
  told_rules-RulesKeep none i h = tt
  told_rules-RulesKeep {T} (some r) i h = omega (arith, h, (run-highest T r (i ∷ [])).0)

  recorded-lock :
      (r : TwoChainSafetyRules) (round : ℕ)
      → lock ≤ r.state.one_chain_round
      → lock ≤ (record_vote r round).0.state.one_chain_round
  unfolding record_vote
  recorded-lock r round h = ground arith

  -- A state that is saved is stored, one that is not leaves what was stored.
  saved-Stored :
      (before now : Result String (Option SafetyStateData)) (s : SafetyStateData) (is_saved : Bool)
      → lock ≤ s.one_chain_round
      → Stored before
      → (is_saved ≡ true → now ≡ ok (some s))
      → (is_saved ≡ false → now ≡ before)
      → Stored now
  saved-Stored before now s true h k saved kept = rw (saved refl) h
  saved-Stored before now s false h k saved kept = rw (kept refl) k

  module _ {S : SafetyStorage} where
    abbrev pub KeepsLock : Validator S → Type 0
    KeepsLock v = RulesKeep v.rules × Stored (S.get_safety_state v.store)

module _ (S : SafetyStorage) (T : Traits) (durable : IsDurable S) (atomic : IsAtomic S)
    (lock : ℕ) where
  persist-Stored :
      (store : S.Store) (s : SafetyStateData)
      → lock ≤ s.one_chain_round
      → Stored lock (S.get_safety_state store)
      → Stored lock (S.get_safety_state (persist_safety_state S store s).0)
  persist-Stored store s h k =
      let (saved, kept) = persisted S T durable atomic store s in
      saved-Stored lock (S.get_safety_state store)
        (S.get_safety_state (persist_safety_state S store s).0) s
        (is_ok (persist_safety_state S store s).1) h k saved kept

  outcome-KeepsLock :
      (store store' : S.Store) (r : TwoChainSafetyRules) (is_recorded is_saved : Bool)
      → lock ≤ r.state.one_chain_round
      → Stored lock (S.get_safety_state store)
      → Stored lock (S.get_safety_state store')
      → KeepsLock lock (outcome {S = S} store store' r is_recorded is_saved).0
  outcome-KeepsLock store store' r true is_saved h k k' = (h, k')
  outcome-KeepsLock store store' r false is_saved h k k' = (h, k)

  vote_with-KeepsLock :
      (store : S.Store) (rules : Option TwoChainSafetyRules) (round : ℕ)
      → RulesKeep lock rules
      → Stored lock (S.get_safety_state store)
      → KeepsLock lock (vote_with {S = S} store rules round).0
  vote_with-KeepsLock store none round h k = (tt, k)
  vote_with-KeepsLock store (some r) round h k =
      let (r', result) = record_vote r round in
      let (store', saved) = persist_safety_state S store r'.state in
      let h' = recorded-lock lock r round h in
      outcome-KeepsLock store store' r' (is_ok result) (is_ok saved) h' k
        (persist-Stored store r'.state h' k)

  persist_rules-KeepsLock :
      (store : S.Store) (rules : Option TwoChainSafetyRules)
      → RulesKeep lock rules
      → Stored lock (S.get_safety_state store)
      → KeepsLock lock (persist_rules {S = S} store rules)
  persist_rules-KeepsLock store none h k = (tt, k)
  persist_rules-KeepsLock store (some r) h k = (h, persist-Stored store r.state h k)

  live-KeepsLock :
      (v : Validator S) (es : List (Event T)) → KeepsLock lock v → KeepsLock lock (live v es)
  unfolding load_safety_rules
  live-KeepsLock v [] h = h
  live-KeepsLock v (told i ∷ es) h =
      live-KeepsLock (tell v i) es (told_rules-RulesKeep lock v.rules i h.0, h.1)
  live-KeepsLock v (votes round ∷ es) h =
      live-KeepsLock (vote v round).0 es (vote_with-KeepsLock v.store v.rules round h.0 h.1)
  live-KeepsLock v (persists ∷ es) h =
      live-KeepsLock (persist v) es (persist_rules-KeepsLock v.store v.rules h.0 h.1)
  live-KeepsLock v (restarts epoch ∷ es) h =
      live-KeepsLock (restart v epoch) es
        (loaded-RulesKeep lock (S.get_safety_state v.store) epoch h.1, h.1)

  rules-above :
      (rules : Option TwoChainSafetyRules) (r : TwoChainSafetyRules)
      → RulesKeep lock rules
      → rules ≡ some r
      → lock ≤ r.state.one_chain_round
  rules-above none r h e = ground (arith, e)
  rules-above (some q) r h e = ground (arith, e, h)

-- With a durable storage that persists atomically, where rules observed a certificate and their
-- state was saved: whatever the validator is told, however it votes and crashes, rules that it then
-- runs allow no timeout with a certificate of a lower round.
pub live-timeout :
    (S : SafetyStorage) (T : Traits)
    → IsDurable S
    → IsAtomic S
    → (store : S.Store) (r : TwoChainSafetyRules) (qc : T.QuorumCert) (es : List (Event T))
      (later : TwoChainSafetyRules) (round hqc : ℕ) (tc : Option (TwoChainTimeoutCertificate T))
    → let told_qc = (observe_qc T r qc).0 in
      let (store', saved) = persist_safety_state S store told_qc.state in
      saved ≡ ok tt
      → (live {S = S} {T = T} (record { store = store'; rules = some told_qc }) es).rules
        ≡ some later
      → safe_to_timeout T later round hqc tc ≡ ok tt
      → T.qc_round qc ≤ hqc
live-timeout S T durable atomic store r qc es later round hqc tc saved alive allowed =
    let told_qc = (observe_qc T r qc).0 in
    let store' = (persist_safety_state S store told_qc.state).0 in
    let chain : T.qc_round qc ≤ told_qc.state.one_chain_round =
      omega (arith, (run-highest T r (certified qc ∷ [])).0) in
    let stored = (persisted S T durable atomic store told_qc.state).0 (ap is_ok saved) in
    let kept =
      live-KeepsLock S T durable atomic (T.qc_round qc)
        (record { store = store'; rules = some told_qc }) es (chain, rw stored chain) in
    omega (
      arith,
      rules-above S T durable atomic (T.qc_round qc)
          (live {S = S} {T = T} (record { store = store'; rules = some told_qc }) es).rules later
          kept.0 alive,
      safe_to_timeout-above T later round hqc tc allowed,
    )
