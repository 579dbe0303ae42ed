-- ===== src/Safety/Recovery/Crash/Votes.antt =====
-- The votes of a validator that crashes (consensus-core/src/safety_rules/recovery.rs).
use Prim.Native.String.{String}
use aptosbft.Common.{
  Ascends, ℕ, ◌≤◌, ◌≡◌, refl, Bool, true, false, Option, none, some, List, [], ◌∷◌, Result, ok, err,
  panic, is_ok, arith,
}
use aptosbft.Traits.{Traits}
use aptosbft.Safety.State.{SafetyStateData}
use aptosbft.Safety.Rules.{TwoChainSafetyRules, new, with_state, record_vote}
use aptosbft.Safety.History.{Input, apply, run-highest}
use aptosbft.Safety.Recovery.{
  SafetyStorage, IsDurable, load_safety_rules, persist_safety_state, recover, validate_safety_state,
}
use aptosbft.Safety.Recovery.Crash.{
  IsAtomic, Event, told, votes, persists, restarts, Validator, tell, vote, persist, restart,
  votes_sent, outcome, loaded, sent, told_rules, vote_with, persist_rules,
}

module _ (S : SafetyStorage) (T : Traits) where
  -- The rules and the stored state do not fall below the last vote sent.
  abbrev RulesFrom : ℕ → Option TwoChainSafetyRules → Type 0
  RulesFrom last none = Unit {0}
  RulesFrom last (some r) = last ≤ r.state.last_voted_round

  abbrev StoredFrom : ℕ → Result String (Option SafetyStateData) → Type 0
  StoredFrom last (ok (some s)) = last ≤ s.last_voted_round
  StoredFrom last (ok none) = last ≡ 0
  StoredFrom last (err e) = Unit {0}
  StoredFrom last panic = Unit {0}

  abbrev Remembers : ℕ → Validator S → Type 0
  Remembers last v = RulesFrom last v.rules × StoredFrom last (S.get_safety_state v.store)

  apply-last :
      (r : TwoChainSafetyRules) (i : Input T)
      → r.state.last_voted_round ≤ (apply T r i).state.last_voted_round
  apply-last r i = omega (arith, (run-highest T r (i ∷ [])).1)

  told_rules-RulesFrom :
      (last : ℕ) (rules : Option TwoChainSafetyRules) (i : Input T)
      → RulesFrom last rules
      → RulesFrom last (told_rules rules i)
  told_rules-RulesFrom last none i h = tt
  told_rules-RulesFrom last (some r) i h = omega (arith, apply-last r i, h)

  loaded-RulesFrom :
      (last : ℕ) (stored : Result String (Option SafetyStateData)) (epoch : ℕ)
      → StoredFrom last stored
      → RulesFrom last (loaded (recover stored epoch))
  unfolding recover validate_safety_state with_state new
  loaded-RulesFrom last (ok (some s)) epoch h = ground arith
  loaded-RulesFrom last (ok none) epoch h = omega arith
  loaded-RulesFrom last (err e) epoch h = tt
  loaded-RulesFrom last panic epoch h = tt

  restart-Remembers :
      (last : ℕ) (v : Validator S) (epoch : ℕ) → Remembers last v → Remembers last (restart v epoch)
  unfolding load_safety_rules
  restart-Remembers last v epoch h =
      (loaded-RulesFrom last (S.get_safety_state v.store) epoch h.1, h.1)

  recorded :
      (r : TwoChainSafetyRules) (round : ℕ)
      → (r.state.last_voted_round ≤ (record_vote r round).0.state.last_voted_round)
        × (is_ok (record_vote r round).1 ≡ true
            → (r.state.last_voted_round ≤ round)
              × ((record_vote r round).0.state.last_voted_round ≡ round))
  unfolding record_vote
  recorded r round = ground arith

  pub persisted :
      IsDurable S
      → IsAtomic S
      → (store : S.Store) (s : SafetyStateData)
      → (is_ok (persist_safety_state S store s).1 ≡ true
          → S.get_safety_state (persist_safety_state S store s).0 ≡ ok (some s))
        × (is_ok (persist_safety_state S store s).1 ≡ false
            → S.get_safety_state (persist_safety_state S store s).0 ≡ S.get_safety_state store)
  unfolding persist_safety_state
  persisted durable atomic store s = (
    λ h. durable.get-save store s (ground (arith, h)),
    λ h. atomic.get-failed store s (ground (arith, h)),
  )

  outcome-Remembers :
      (last round : ℕ) (store store' : S.Store) (r : TwoChainSafetyRules)
      (is_recorded is_saved : Bool)
      → last ≤ r.state.last_voted_round
      → (is_recorded ≡ true → (last ≤ round) × (r.state.last_voted_round ≡ round))
      → StoredFrom last (S.get_safety_state store)
      → (is_saved ≡ true → S.get_safety_state store' ≡ ok (some r.state))
      → (is_saved ≡ false → S.get_safety_state store' ≡ S.get_safety_state store)
      → let (v, is_sent) = outcome store store' r is_recorded is_saved in
        Remembers last v × (is_sent ≡ true → (last ≤ round) × Remembers round v)
  outcome-Remembers last round store store' r false is_saved a at k stored kept =
      ((a, k), λ e. ground (arith, e))
  outcome-Remembers last round store store' r true false a at k stored kept =
      ((a, rw (kept refl) k), λ e. ground (arith, e))
  outcome-Remembers last round store store' r true true a at k stored kept =
      let (later, here) = at refl in
      (
        (a, rw (stored refl) a),
        λ e. (later, (omega (arith, here), rw (stored refl) (omega (arith, here)))),
      )

  vote_with-Remembers :
      IsDurable S
      → IsAtomic S
      → (last : ℕ) (store : S.Store) (rules : Option TwoChainSafetyRules) (round : ℕ)
      → RulesFrom last rules
      → StoredFrom last (S.get_safety_state store)
      → Remembers last (vote_with {S = S} store rules round).0
        × ((vote_with {S = S} store rules round).1 ≡ true
            → (last ≤ round) × Remembers round (vote_with {S = S} store rules round).0)
  vote_with-Remembers durable atomic last store none round h k = ((tt, k), λ e. ground (arith, e))
  vote_with-Remembers durable atomic last store (some r) round h k =
      let (risen, at_round) = recorded r round in
      let (r', result) = record_vote r round in
      let (store', saved) = persist_safety_state S store r'.state in
      let (stored, kept) = persisted durable atomic store r'.state in
      outcome-Remembers last round store store' r' (is_ok result) (is_ok saved)
        (omega (arith, h, risen)) (λ e. (omega (arith, h, (at_round e).0), (at_round e).1)) k stored
        kept

  persist_rules-Remembers :
      IsDurable S
      → IsAtomic S
      → (last : ℕ) (store : S.Store) (rules : Option TwoChainSafetyRules) → RulesFrom last rules
      → StoredFrom last (S.get_safety_state store)
      → Remembers last (persist_rules store rules)
  persist_rules-Remembers durable atomic last store none h k = (tt, k)
  persist_rules-Remembers durable atomic last store (some r) h k =
      let (store', saved) = persist_safety_state S store r.state in
      let (stored, kept) = persisted durable atomic store r.state in
      (outcome-Remembers last r.state.last_voted_round store store' r true (is_ok saved) h
        (λ e. (h, refl)) k stored kept).0

  sent-Ascends :
      (is_sent : Bool) (last round : ℕ) (rest : List ℕ) (v : Validator S)
      → Remembers last v × (is_sent ≡ true → (last ≤ round) × Remembers round v)
      → ((n : ℕ) → Remembers n v → Ascends n rest)
      → Ascends last (sent is_sent round rest)
  sent-Ascends true last round rest v h later = let (up, now) = h.1 refl in (up, later round now)
  sent-Ascends false last round rest v h later = later last h.0

  votes_sent-Ascends_from :
      IsDurable S
      → IsAtomic S
      → (last : ℕ) (v : Validator S) (es : List (Event T)) → Remembers last v
      → Ascends last (votes_sent v es)
  votes_sent-Ascends_from durable atomic last v [] h = tt
  votes_sent-Ascends_from durable atomic last v (told i ∷ es) h =
      votes_sent-Ascends_from durable atomic last (tell v i) es
        (told_rules-RulesFrom last v.rules i h.0, h.1)
  votes_sent-Ascends_from durable atomic last v (votes round ∷ es) h =
      let (v', is_sent) = vote v round in
      sent-Ascends is_sent last round (votes_sent v' es) v'
        (vote_with-Remembers durable atomic last v.store v.rules round h.0 h.1)
        (λ n now. votes_sent-Ascends_from durable atomic n v' es now)
  votes_sent-Ascends_from durable atomic last v (persists ∷ es) h =
      votes_sent-Ascends_from durable atomic last (persist v) es
        (persist_rules-Remembers durable atomic last v.store v.rules h.0 h.1)
  votes_sent-Ascends_from durable atomic last v (restarts epoch ∷ es) h =
      votes_sent-Ascends_from durable atomic last (restart v epoch) es
        (restart-Remembers last v epoch h)

  from_no_rules : (rules : Option TwoChainSafetyRules) → RulesFrom 0 rules
  from_no_rules none = tt
  from_no_rules (some r) = omega arith

  from_stored : (stored : Result String (Option SafetyStateData)) → StoredFrom 0 stored
  from_stored (ok none) = refl
  from_stored (ok (some s)) = omega arith
  from_stored (err e) = tt
  from_stored panic = tt

  -- With a durable storage that persists atomically, the rounds of the votes that a validator sends
  -- never fall, across all its crashes and restarts, where it sends a vote only after recording it
  -- and persisting the state.
  pub votes_sent-Ascends :
      IsDurable S
      → IsAtomic S
      → (v : Validator S) (es : List (Event T)) → Ascends 0 (votes_sent v es)
  votes_sent-Ascends durable atomic v es =
      votes_sent-Ascends_from durable atomic 0 v es
        (from_no_rules v.rules, from_stored (S.get_safety_state v.store))
