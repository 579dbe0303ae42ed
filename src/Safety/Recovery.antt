-- ===== src/Safety/Recovery.antt =====
-- Crash recovery: consensus-core/src/safety_rules/recovery.rs. Logging is left out, and an `async`
-- call of the storage is a plain call.
mod Storage
pub use Storage.{SafetyStorage, IsDurable}
pub mod Laws
pub mod Crash
use Prim.Native.String.{String}
use aptosbft.Common.{
  ℕ, ◌+◌, ◌-◌, Bool, true, ltb, u64, u64_max, if◌then◌else◌, Option, none, some, Result, ok, err,
  panic, ◌>>=◌, ◌>>◌, map_err,
}
use aptosbft.Safety.State.{SafetyStateData}
use aptosbft.Safety.Rules.{TwoChainSafetyRules, new, with_state}

-- The messages of `RecoveryError::Validation`.
pub data Invalid : Type 0 where
  invalid_epoch : ℕ → Invalid
  one_chain_above_preferred : ℕ → ℕ → Invalid
  preferred_far_ahead : ℕ → ℕ → Invalid

pub data RecoveryError : Type 0 where
  no_state : RecoveryError
  storage : String → RecoveryError
  deserialization : String → RecoveryError
  validation : Invalid → RecoveryError

unfoldable pub validate_safety_state : SafetyStateData → Result RecoveryError (Unit {0})
validate_safety_state s =
    if ltb (u64_max - 1000) s.epoch
    then err (validation (invalid_epoch s.epoch))
    else if ltb s.preferred_round s.one_chain_round
    then err (validation (one_chain_above_preferred s.one_chain_round s.preferred_round))
    else if ltb (u64 (s.last_voted_round + 100)) s.preferred_round
    then err (validation (preferred_far_ahead s.preferred_round s.last_voted_round))
    else ok tt

-- The `match` on what the storage returned.
unfoldable pub recover :
    Result String (Option SafetyStateData) → ℕ → Result RecoveryError TwoChainSafetyRules
recover (ok (some s)) epoch = do validate_safety_state s; ok (with_state s)
recover (ok none) epoch = ok (new epoch)
recover (err e) epoch = err (storage e)
recover panic epoch = panic

module _ (S : SafetyStorage) where
  unfoldable pub load_safety_rules : S.Store → ℕ → Result RecoveryError TwoChainSafetyRules
  unfolding recover
  load_safety_rules store epoch = recover (S.get_safety_state store) epoch

  unfoldable pub persist_safety_state :
      S.Store → SafetyStateData → S.Store × Result RecoveryError (Unit {0})
  persist_safety_state store s =
      let (store', result) = S.save_safety_state store s in (store', map_err storage result)
