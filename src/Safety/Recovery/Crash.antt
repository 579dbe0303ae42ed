-- ===== src/Safety/Recovery/Crash.antt =====
-- A validator that crashes and restarts (consensus-core/src/safety_rules/recovery.rs). It votes in
-- the order that `persist_safety_state` documents: the vote is recorded, then the state is
-- persisted, then the vote is sent.
pub mod Votes
pub mod Lock
use Prim.Native.String.{String}
use aptosbft.Common.{
  Ascends, Ascends-mono, ℕ, ◌≤◌, ◌≡◌, refl, Bool, true, false, Option, none, some, List, [], ◌∷◌,
  Result, ok, err, panic, is_ok, arith, if◌then◌else◌,
}
use aptosbft.Traits.{Traits}
use aptosbft.Safety.State.{SafetyStateData}
use aptosbft.Safety.Rules.{TwoChainSafetyRules, new, with_state, record_vote}
use aptosbft.Safety.History.{Input, apply, run-highest}
use aptosbft.Safety.Recovery.{
  SafetyStorage, IsDurable, load_safety_rules, persist_safety_state, recover, RecoveryError,
  validate_safety_state,
}

-- A storage documents that it persists atomically: a state that it did not save changes nothing.
pub record IsAtomic (S : SafetyStorage) : Type 0 where
  pub get-failed :
      (store : S.Store) (s : SafetyStateData)
      → is_ok (S.save_safety_state store s).1 ≡ false
      → S.get_safety_state (S.save_safety_state store s).0 ≡ S.get_safety_state store

-- What befalls a validator; a crash is followed by a restart in an epoch.
pub data Event (T : Traits) : Type 0 where
  told : Input T → Event T
  votes : ℕ → Event T
  persists : Event T
  restarts : ℕ → Event T

-- A validator with its storage. It has no rules before the first start and after a failed restart.
pub record Validator (S : SafetyStorage) : Type 0 where
  pub store : S.Store
  pub rules : Option TwoChainSafetyRules

abbrev pub loaded : Result RecoveryError TwoChainSafetyRules → Option TwoChainSafetyRules
loaded (ok r) = some r
loaded (err e) = none
loaded panic = none

abbrev pub sent : Bool → ℕ → List ℕ → List ℕ
sent true round rest = round ∷ rest
sent false round rest = rest

module _ {T : Traits} where
  abbrev pub told_rules : Option TwoChainSafetyRules → Input T → Option TwoChainSafetyRules
  told_rules none i = none
  told_rules (some r) i = some (apply T r i)

module _ {S : SafetyStorage} where
  -- A vote that was not recorded leaves the old store.
  abbrev pub outcome : S.Store → S.Store → TwoChainSafetyRules → Bool → Bool → Validator S × Bool
  outcome store store' r is_recorded is_saved =
      if is_recorded
      then (record { store = store'; rules = some r }, is_saved)
      else (record { store = store; rules = some r }, false)

  -- Whether the vote is sent stands beside the new state.
  abbrev pub vote_with : S.Store → Option TwoChainSafetyRules → ℕ → Validator S × Bool
  vote_with store none round = (record { store = store; rules = none }, false)
  vote_with store (some r) round =
      let (r', recorded) = record_vote r round in
      let (store', saved) = persist_safety_state S store r'.state in
      outcome store store' r' (is_ok recorded) (is_ok saved)

  abbrev pub vote : Validator S → ℕ → Validator S × Bool
  vote v round = vote_with v.store v.rules round

  abbrev pub persist_rules : S.Store → Option TwoChainSafetyRules → Validator S
  persist_rules store none = record { store = store; rules = none }
  persist_rules store (some r) = record {
    store = (persist_safety_state S store r.state).0;
    rules = some r;
  }

  abbrev pub persist : Validator S → Validator S
  persist v = persist_rules v.store v.rules

  abbrev pub restart : Validator S → ℕ → Validator S
  restart v epoch = record v { rules = loaded (load_safety_rules S v.store epoch) }

module _ {S : SafetyStorage} {T : Traits} where
  abbrev pub tell : Validator S → Input T → Validator S
  tell v i = record v { rules = told_rules v.rules i }

  -- The rounds of the votes that a validator sends in its life.
  abbrev pub votes_sent : Validator S → List (Event T) → List ℕ
  votes_sent v [] = []
  votes_sent v (told i ∷ es) = votes_sent (tell v i) es
  votes_sent v (votes round ∷ es) =
      let (v', is_sent) = vote v round in let rest = votes_sent v' es in sent is_sent round rest
  votes_sent v (persists ∷ es) = votes_sent (persist v) es
  votes_sent v (restarts epoch ∷ es) = votes_sent (restart v epoch) es

  -- The validator after what befell it.
  abbrev pub live : Validator S → List (Event T) → Validator S
  live v [] = v
  live v (told i ∷ es) = live (tell v i) es
  live v (votes round ∷ es) = live (vote v round).0 es
  live v (persists ∷ es) = live (persist v) es
  live v (restarts epoch ∷ es) = live (restart v epoch) es
