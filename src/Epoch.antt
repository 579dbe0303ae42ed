-- ===== src/Epoch.antt =====
-- Epoch transitions: consensus-core/src/epoch_manager/mod.rs. The clock is an argument, in seconds.
pub mod Transitions
use Prim.Native.String.{String}
use aptosbft.Common.{
  ℕ, ◌+◌, ◌≤◌, ◌<◌, ◌≡◌, ◌↔◌, refl, Bool, true, false, leb, not, ◌==◌, u64, u64_max, if◌then◌else◌,
  Result, ok, err, panic, List, [], ◌∷◌, arith, ◌⊎◌, ◌≢◌,
}

pub record EpochManagerConfig : Type 0 where
  pub initial_epoch : ℕ
  pub auto_transition : Bool

-- `EpochManagerConfig::default`.
abbrev pub default_config : EpochManagerConfig
default_config = record { initial_epoch = 0; auto_transition = false }

pub record EpochState : Type 0 where
  pub epoch : ℕ
  pub start_time : ℕ

pub record EpochManager : Type 0 where
  pub epoch_state : EpochState
  pub config : EpochManagerConfig

pub data EpochTransitionError : Type 0 where
  old_epoch : ℕ → ℕ → EpochTransitionError
  skipped_epoch : ℕ → ℕ → EpochTransitionError
  invalid_transition : String → EpochTransitionError

unfoldable pub new : EpochManagerConfig → EpochManager
new config = record {
  epoch_state = record { epoch = config.initial_epoch; start_time = 0 };
  config = config;
}

abbrev pub epoch : EpochManager → ℕ
epoch m = m.epoch_state.epoch

unfoldable pub start_new_epoch :
    EpochManager → ℕ → ℕ → EpochManager × Result EpochTransitionError (Unit {0})
start_new_epoch m epoch now =
    let current = m.epoch_state.epoch in
    if leb epoch current
    then (m, err (old_epoch current epoch))
    else if not (epoch == u64 (current + 1))
    then (m, err (skipped_epoch current epoch))
    else (record m { epoch_state = record { epoch = epoch; start_time = now } }, ok tt)

-- Both branches return `false`.
unfoldable pub check_epoch_transition : EpochManager → Bool
check_epoch_transition m = if not m.config.auto_transition then false else false

unfoldable pub force_next_epoch :
    EpochManager → ℕ → EpochManager × Result EpochTransitionError (Unit {0})
unfolding start_new_epoch
force_next_epoch m now = start_new_epoch m (u64 (m.epoch_state.epoch + 1)) now
