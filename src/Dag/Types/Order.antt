-- ===== src/Dag/Types/Order.antt =====
-- The order of the ids of DAG nodes (consensus-core/src/dag/types.rs).
use aptosbft.Common.{◌<◌, ◌≡◌, ◌≢◌, ◌↔◌, true, false, some, arith}
use aptosbft.Dag.Types.{DagNodeId, less, equal, greater, cmp, partial_cmp, id_eq}

module _ {ℓ} {A : Type ℓ} (d : Discrete A) where
  -- The comparison is that of the rounds, both times, and equal ids compare as equal.
  pub cmp_cases :
      (a b : DagNodeId A)
      → (partial_cmp a b ≡ some (cmp a b))
        × ((cmp a b ≡ less) ↔ (a.round < b.round))
        × ((cmp a b ≡ greater) ↔ (b.round < a.round))
        × ((cmp a b ≡ equal) ↔ (a.round ≡ b.round))
        × (id_eq d a b ≡ true → cmp a b ≡ equal)
  unfolding cmp partial_cmp id_eq
  cmp_cases a b = ground arith

  -- Ids of two authors in one round compare as equal and are not equal.
  pub cmp_unequal :
      (a b : DagNodeId A)
      → a.round ≡ b.round
      → a.author ≢ b.author
      → (cmp a b ≡ equal) × (id_eq d a b ≡ false)
  unfolding cmp id_eq
  cmp_unequal a b h n = ground arith
