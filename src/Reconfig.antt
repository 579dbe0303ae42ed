-- ===== src/Reconfig.antt =====
-- Reconfiguration: consensus-core/src/consensus/reconfig.rs.
pub mod Transitions
pub mod Queries
pub mod Quorum
use Prim.Native.String.{String}
use aptosbft.Common.{
  ℕ, ◌+◌, ◌-◌, ◌*◌, ◌/◌, Bool, true, false, not, ltb, leb, ◌==◌, u64, if◌then◌else◌, Option, none,
  some, List, [], ◌∷◌, ◌++◌, length, sum, Result, ok, err, panic, ◌>>=◌, ensure, map_err,
  ℕ_discrete,
}
use aptosbft.Common.Map.{Map, get, insert, contains_key, values}
use aptosbft.Epoch.{EpochManager, EpochTransitionError, start_new_epoch}

pub record ReconfigConfig : Type 0 where
  pub preparation_window : ℕ
  pub verify_signatures : Bool
  pub reconfig_timeout_ms : ℕ

unfoldable pub default_config : ReconfigConfig
default_config = record {
  preparation_window = 5;
  verify_signatures = true;
  reconfig_timeout_ms = 30000;
}

-- `Preparing` holds the current and the next epoch, `InProgress` the new epoch and the numbers of
-- processed and of all validators, `Completed` the epoch and the number of validators.
pub data ReconfigStatus : Type 0 where
  idle : ReconfigStatus
  preparing : ℕ → ℕ → ReconfigStatus
  in_progress : ℕ → ℕ → ℕ → ReconfigStatus
  completed : ℕ → ℕ → ReconfigStatus
  failed : String → ReconfigStatus

abbrev pub is_in_progress : ReconfigStatus → Bool
is_in_progress (preparing _ _) = true
is_in_progress (in_progress _ _ _) = true
is_in_progress _ = false

-- `new_epoch - 1` wraps at 0.
abbrev pub current_epoch : ReconfigStatus → Option ℕ
current_epoch (preparing current next) = some current
current_epoch (in_progress new_epoch processed total) =
    some (u64 (new_epoch + 18446744073709551615))
current_epoch (completed epoch count) = some epoch
current_epoch _ = none

abbrev pub new_epoch : ReconfigStatus → Option ℕ
new_epoch (preparing current next) = some next
new_epoch (in_progress epoch processed total) = some epoch
new_epoch (completed epoch count) = some epoch
new_epoch _ = none

pub record ValidatorSet (A : Type 0) : Type 0 where
  pub epoch : ℕ
  pub validators : Map A ℕ
  pub total_voting_power : ℕ  -- u128

pub data ReconfigEvent (A : Type 0) : Type 0 where
  new_epoch_event : ℕ → ℕ → ReconfigEvent A
  validator_set_changed : ValidatorSet A → ReconfigEvent A
  policy_changed : String → ReconfigEvent A

pub data ReconfigError : Type 0 where
  already_in_progress not_next_epoch not_preparing empty_validator_set not_in_progress :
      ReconfigError
  not_all_processed : ℕ → ℕ → ReconfigError
  transition : EpochTransitionError → ReconfigError

abbrev pub progressed : ReconfigStatus → ℕ → ReconfigStatus
progressed (in_progress epoch _ total) processed = in_progress epoch processed total
progressed status processed = status

module _ {A : Type 0} where
  unfoldable pub new_set : ℕ → Map A ℕ → ValidatorSet A
  new_set epoch validators = record {
    epoch = epoch;
    validators = validators;
    total_voting_power = sum (λ power. power) (values validators);
  }

  unfoldable pub quorum_threshold : ValidatorSet A → ℕ
  quorum_threshold s = s.total_voting_power * 2 / 3 + 1

  -- A voter that stands twice counts twice.
  unfoldable pub has_quorum : Discrete A → ValidatorSet A → List A → Bool
  unfolding quorum_threshold
  has_quorum d s voters =
      leb (quorum_threshold s)
        (sum (λ v. elim (get d v s.validators) [ none ↦ 0 | some power ↦ power ]) voters)

-- The proposer election of the handler, of a type `PE`, is stored and never used.
pub record ReconfigHandler (A PE : Type 0) : Type 0 where
  pub config : ReconfigConfig
  pub status : ReconfigStatus
  pub epoch_manager : EpochManager
  pub validator_sets : Map ℕ (ValidatorSet A)
  pub pending_events : List (ReconfigEvent A)
  pub proposer_election : Option PE

module _ {A PE : Type 0} where
  unfoldable pub new : ReconfigConfig → EpochManager → ReconfigHandler A PE
  new config epoch_manager = record {
    config = config;
    status = idle;
    epoch_manager = epoch_manager;
    validator_sets = [];
    pending_events = [];
    proposer_election = none;
  }

  abbrev pub epoch_of : ReconfigHandler A PE → ℕ
  epoch_of h = h.epoch_manager.epoch_state.epoch

  unfoldable pub validator_set : ReconfigHandler A PE → ℕ → Option (ValidatorSet A)
  validator_set h epoch = get ℕ_discrete epoch h.validator_sets

  unfoldable pub set_proposer_election : ReconfigHandler A PE → PE → ReconfigHandler A PE
  set_proposer_election h election = record h { proposer_election = some election }

  unfoldable pub prepare_reconfig :
      ReconfigHandler A PE → ℕ → ReconfigHandler A PE × Result ReconfigError (Unit {0})
  prepare_reconfig h epoch =
      if is_in_progress h.status
      then (h, err already_in_progress)
      else if not (epoch == u64 (epoch_of h + 1))
      then (h, err not_next_epoch)
      else (record h { status = preparing (epoch_of h) epoch }, ok tt)

  unfoldable pub set_validator_set :
      ReconfigHandler A PE → ℕ → ValidatorSet A → ReconfigHandler A PE
  set_validator_set h epoch s = record h {
    validator_sets = insert ℕ_discrete epoch s h.validator_sets;
  }

  abbrev pub begin_from :
      ReconfigStatus
      → ReconfigHandler A PE
      → ValidatorSet A
      → ReconfigHandler A PE × Result ReconfigError (Unit {0})
  begin_from (preparing current next) h s =
      if length s.validators == 0 then (h, err empty_validator_set) else (
        record h {
          status = in_progress next 0 (length s.validators);
          validator_sets = insert ℕ_discrete next s h.validator_sets;
        },
        ok tt,
      )
  begin_from _ h s = (h, err not_preparing)

  unfoldable pub begin_reconfig :
      ReconfigHandler A PE → ValidatorSet A → ReconfigHandler A PE × Result ReconfigError (Unit {0})
  begin_reconfig h s = begin_from h.status h s

  -- After an error of the epoch manager the status stays in progress. The clock is an argument.
  abbrev pub complete_from :
      ReconfigStatus
      → ReconfigHandler A PE
      → ℕ
      → ReconfigHandler A PE × Result ReconfigError (Unit {0})
  complete_from (in_progress epoch processed total) h now =
      let (manager, started) = start_new_epoch h.epoch_manager epoch now in
      if not (processed == total)
      then (h, err (not_all_processed processed total))
      else elim started [
        | ok _ ↦ (record h { epoch_manager = manager; status = idle }, ok tt)
        | err e ↦ (record h { epoch_manager = manager }, err (transition e))
        | panic ↦ (record h { epoch_manager = manager }, panic)
      ]
  complete_from _ h now = (h, err not_in_progress)

  unfoldable pub complete_reconfig :
      ReconfigHandler A PE → ℕ → ReconfigHandler A PE × Result ReconfigError (Unit {0})
  complete_reconfig h now = complete_from h.status h now

  unfoldable pub add_event : ReconfigHandler A PE → ReconfigEvent A → ReconfigHandler A PE
  add_event h event = record h { pending_events = h.pending_events ++ event ∷ [] }

  unfoldable pub take_pending_events :
      ReconfigHandler A PE → ReconfigHandler A PE × List (ReconfigEvent A)
  take_pending_events h = (record h { pending_events = [] }, h.pending_events)

  unfoldable pub cancel : ReconfigHandler A PE → ReconfigHandler A PE
  cancel h = record h { status = idle; pending_events = [] }

  unfoldable pub should_reconfigure : ReconfigHandler A PE → ℕ → ℕ → Bool
  should_reconfigure h round epoch_end_round =
      leb (epoch_end_round - h.config.preparation_window) round

  -- The epoch and the round of the block.
  unfoldable pub process_block : ReconfigHandler A PE → ℕ → ℕ → Option (ReconfigEvent A)
  process_block h epoch round =
      if ltb (epoch_of h) epoch then some (new_epoch_event epoch round) else none

  unfoldable pub update_progress : ReconfigHandler A PE → ℕ → ReconfigHandler A PE
  update_progress h processed = record h { status = progressed h.status processed }
