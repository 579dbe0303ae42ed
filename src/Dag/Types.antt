-- ===== src/Dag/Types.antt =====
-- The types of the DAG: consensus-core/src/dag/types.rs. `Arc` is left out: the values are immutable.
pub mod Order
use aptosbft.Common.{
  ℕ, Bool, true, false, List, [], ◌∷◌, ◌++◌, length, Option, some, ltb, ◌==◌, if◌then◌else◌, ◌&&◌,
  ite,
}
use aptosbft.Dag.{Nodes}

pub data Ordering : Type 0 where
  less equal greater : Ordering

-- Epochs and rounds are `u64` numbers.
pub record DagNodeId {ℓ} (A : Type ℓ) : Type ℓ where
  pub epoch : ℕ
  pub round : ℕ
  pub author : A

pub record DagNodeMetadata {ℓ} (ID H : Type ℓ) : Type ℓ where
  pub node_id : ID
  pub timestamp : ℕ
  pub digest : H

pub record DagPayload {ℓ} (H : Type ℓ) : Type ℓ where
  pub data_bytes : List ℕ
  pub hash : H

pub record ParentCertificates {ℓ} (M : Type ℓ) : Type ℓ where
  pub parents : List M

pub record DagNode {ℓ} (M P Parents : Type ℓ) : Type ℓ where
  pub metadata : M
  pub payload : P
  pub parents : Parents

pub record NodeCertificate {ℓ} (M Sig : Type ℓ) : Type ℓ where
  pub metadata : M
  pub signatures : Sig

pub record CertifiedNode {ℓ} (N C : Type ℓ) : Type ℓ where
  pub node : N
  pub certificate : C

pub record DagVote {ℓ} (M S : Type ℓ) : Type ℓ where
  pub metadata : M
  pub signature : S

-- The order of `u64`.
abbrev pub compare_rounds : ℕ → ℕ → Ordering
compare_rounds a b = if ltb a b then less else if a == b then equal else greater

module _ {ℓ} {A : Type ℓ} where
  -- `Ord` and `PartialOrd` of an id, which read the rounds alone.
  unfoldable pub cmp : DagNodeId A → DagNodeId A → Ordering
  cmp a b = compare_rounds a.round b.round

  unfoldable pub partial_cmp : DagNodeId A → DagNodeId A → Option Ordering
  partial_cmp a b = elim (compare_rounds a.round b.round) [
    | equal ↦ some equal
    | less ↦ some less
    | greater ↦ some greater
  ]

  -- The derived equality.
  unfoldable pub id_eq : Discrete A → DagNodeId A → DagNodeId A → Bool
  id_eq d a b = (a.epoch == b.epoch) && (a.round == b.round) && ite (d a.author b.author) true false

module _ {ℓ} {A H : Type ℓ} where
  abbrev pub metadata_epoch : DagNodeMetadata (DagNodeId A) H → ℕ
  metadata_epoch m = m.node_id.epoch

  abbrev pub metadata_round : DagNodeMetadata (DagNodeId A) H → ℕ
  metadata_round m = m.node_id.round

  abbrev pub metadata_author : DagNodeMetadata (DagNodeId A) H → A
  metadata_author m = m.node_id.author

module _ {ℓ} {H : Type ℓ} where
  -- With `H::zero()`.
  unfoldable pub empty_payload : H → DagPayload H
  empty_payload zero_hash = record { data_bytes = []; hash = zero_hash }

  unfoldable pub is_empty_payload : DagPayload H → Bool
  is_empty_payload p = elim p.data_bytes [ [] ↦ true | b ∷ bs ↦ false ]

  unfoldable pub size : DagPayload H → ℕ
  size p = length p.data_bytes

module _ {ℓ} {M : Type ℓ} where
  unfoldable pub no_parents : ParentCertificates M
  no_parents = record { parents = [] }

  unfoldable pub add : ParentCertificates M → M → ParentCertificates M
  add p certificate = record { parents = p.parents ++ (certificate ∷ []) }

  unfoldable pub parents_len : ParentCertificates M → ℕ
  parents_len p = length p.parents

  unfoldable pub has_no_parents : ParentCertificates M → Bool
  has_no_parents p = elim p.parents [ [] ↦ true | m ∷ ms ↦ false ]

-- What the store uses of a certified node of these types.
unfoldable pub certified_nodes : {A : Type 0} (H P Sig : Type 0) → Discrete A → Nodes
certified_nodes {A} H P Sig d = record {
  Author = A;
  author_eq = d;
  Node =
      CertifiedNode
        (DagNode (DagNodeMetadata (DagNodeId A) H) P
          (ParentCertificates (DagNodeMetadata (DagNodeId A) H)))
        (NodeCertificate (DagNodeMetadata (DagNodeId A) H) Sig);
  node_round = λ n. n.node.metadata.node_id.round;
  node_author = λ n. n.node.metadata.node_id.author;
}
