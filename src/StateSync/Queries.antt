-- ===== src/StateSync/Queries.antt =====
-- The tests and getters of state synchronization (consensus-core/src/consensus/state_sync.rs).
use aptosbft.Common.{ℕ, Bool, true, false, Option, none, some, List, [], ◌∷◌, length}
use aptosbft.Traits.{Traits}
use aptosbft.StateSync.{SyncStatus, in_progress, completed, failed, SyncResponse}

abbrev pub is_completed : SyncStatus → Bool
is_completed (completed count) = true
is_completed _ = false

abbrev pub is_failed : SyncStatus → Bool
is_failed (failed reason) = true
is_failed _ = false

abbrev pub current_round : SyncStatus → Option ℕ
current_round (in_progress target current received) = some current
current_round _ = none

-- `last` and `first` of a list.
abbrev pub last_of {ℓ} : {A : Type ℓ} → List A → Option A
last_of [] = none
last_of (b ∷ []) = some b
last_of (b ∷ c ∷ bs) = last_of (c ∷ bs)

abbrev pub first_of {ℓ} : {A : Type ℓ} → List A → Option A
first_of [] = none
first_of (b ∷ bs) = some b

abbrev pub map_option {ℓ κ} : {A : Type ℓ} {B : Type κ} → (A → B) → Option A → Option B
map_option f none = none
map_option f (some a) = some (f a)

module _ {T : Traits} where
  abbrev pub is_empty : SyncResponse T → Bool
  is_empty r = elim r.blocks [ [] ↦ true | b ∷ bs ↦ false ]

  abbrev pub len : SyncResponse T → ℕ
  len r = length r.blocks

  unfoldable pub highest_round : SyncResponse T → Option ℕ
  highest_round r = map_option T.block_round (last_of r.blocks)

  unfoldable pub lowest_round : SyncResponse T → Option ℕ
  lowest_round r = map_option T.block_round (first_of r.blocks)
