-- ===== src/Reconfig/Transitions.antt =====
-- The transitions of a reconfiguration (consensus-core/src/consensus/reconfig.rs).
use aptosbft.Common.{ℕ, ◌+◌, ◌≡◌, u64, List, [], ◌∷◌}
use aptosbft.Reconfig.{
  ReconfigHandler, ReconfigStatus, idle, preparing, in_progress, completed, failed, ValidatorSet,
  ReconfigEvent, prepare_reconfig, set_validator_set, begin_reconfig, complete_reconfig, add_event,
  take_pending_events, cancel, update_progress, set_proposer_election,
}

pub data Call (A PE : Type 0) : Type 0 where
  prepares : ℕ → Call A PE
  sets : ℕ → ValidatorSet A → Call A PE
  begins : ValidatorSet A → Call A PE
  progresses : ℕ → Call A PE
  completes : ℕ → Call A PE
  adds : ReconfigEvent A → Call A PE
  takes cancels : Call A PE
  elects : PE → Call A PE

-- A status that is about an epoch is about the one after the current epoch.
abbrev pub IsNext : ℕ → ReconfigStatus → Type 0
IsNext epoch (preparing current next) = (current ≡ epoch) × (next ≡ u64 (epoch + 1))
IsNext epoch (in_progress next processed total) = next ≡ u64 (epoch + 1)
IsNext epoch idle = Unit {0}
IsNext epoch (completed _ _) = Unit {0}
IsNext epoch (failed _) = Unit {0}

module _ {A PE : Type 0} where
  abbrev pub step : ReconfigHandler A PE → Call A PE → ReconfigHandler A PE
  step h (prepares epoch) = (prepare_reconfig h epoch).0
  step h (sets epoch s) = set_validator_set h epoch s
  step h (begins s) = (begin_reconfig h s).0
  step h (progresses processed) = update_progress h processed
  step h (completes now) = (complete_reconfig h now).0
  step h (adds event) = add_event h event
  step h takes = (take_pending_events h).0
  step h cancels = cancel h
  step h (elects election) = set_proposer_election h election

  abbrev pub run : ReconfigHandler A PE → List (Call A PE) → ReconfigHandler A PE
  run h [] = h
  run h (c ∷ cs) = run (step h c) cs
