-- ===== src/Safety/Recovery/Storage.antt =====
-- The part of `ConsensusStorage` (consensus-traits/src/storage.rs) that holds the safety state.
use Prim.Native.String.{String}
use aptosbft.Common.{◌≡◌, Option, some, Result, ok}
use aptosbft.Safety.State.{SafetyStateData}

pub record SafetyStorage : Type 1 where
  pub Store : Type 0
  pub save_safety_state : Store → SafetyStateData → Store × Result String (Unit {0})
  pub get_safety_state : Store → Result String (Option SafetyStateData)

-- What a storage documents: a state that it reports as saved is the state that it returns.
pub record IsDurable (S : SafetyStorage) : Type 0 where
  pub get-save :
      (store : S.Store) (s : SafetyStateData)
      → (S.save_safety_state store s).1 ≡ ok tt
      → S.get_safety_state (S.save_safety_state store s).0 ≡ ok (some s)
