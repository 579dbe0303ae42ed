-- ===== src/Reconfig/Queries.antt =====
-- The tests and getters of a reconfiguration (consensus-core/src/consensus/reconfig.rs).
use aptosbft.Common.{ℕ, Bool, true, false, Option, some, List, [], ◌∷◌, length}
use aptosbft.Common.Map.{get, contains_key, keys}
use aptosbft.Reconfig.{
  ReconfigStatus, completed, failed, ValidatorSet, ReconfigHandler, epoch_of, validator_set,
}

abbrev pub is_completed : ReconfigStatus → Bool
is_completed (completed epoch count) = true
is_completed _ = false

abbrev pub is_failed : ReconfigStatus → Bool
is_failed (failed reason) = true
is_failed _ = false

module _ {A : Type 0} where
  abbrev pub len : ValidatorSet A → ℕ
  len s = length s.validators

  abbrev pub is_empty : ValidatorSet A → Bool
  is_empty s = elim s.validators [ [] ↦ true | v ∷ vs ↦ false ]

  unfoldable pub get_voting_power : Discrete A → ValidatorSet A → A → Option ℕ
  get_voting_power d s validator = get d validator s.validators

  unfoldable pub contains : Discrete A → ValidatorSet A → A → Bool
  contains d s validator = contains_key d validator s.validators

  abbrev pub validator_ids : ValidatorSet A → List A
  validator_ids s = keys s.validators

module _ {A PE : Type 0} where
  unfoldable pub current_validator_set : ReconfigHandler A PE → Option (ValidatorSet A)
  unfolding validator_set
  current_validator_set h = validator_set h (epoch_of h)

  abbrev pub epoch_quorum_cert : ReconfigHandler A PE → Option ℕ
  epoch_quorum_cert h = some (epoch_of h)

  abbrev pub pending_event_count : ReconfigHandler A PE → ℕ
  pending_event_count h = length h.pending_events
