-- ===== src/Traits/Ledger.antt =====
-- The traits of a block's contents and of the ledger that a vote names: consensus-traits/src/block.rs.
-- An associated type is a parameter, and the trait's methods on `Self` are the fields.
use aptosbft.Common.{ℕ, Result}
use aptosbft.Traits.{Error}

pub record Transaction (Hash Self : Type 0) : Type 0 where
  pub hash : Self → Hash
  pub size : Self → ℕ

pub record BlockMetadata (NodeId Hash Self : Type 0) : Type 0 where
  pub epoch : Self → ℕ
  pub round : Self → ℕ
  pub author : Self → NodeId
  pub parent_id : Self → Hash
  pub timestamp : Self → ℕ

pub record VoteData (Metadata Self : Type 0) : Type 0 where
  pub proposed_block : Self → Metadata
  pub parent_block : Self → Metadata
  pub verify : Self → Result Error (Unit {0})

pub record LedgerInfo (Hash Info Self : Type 0) : Type 0 where
  pub commit_info : Self → Info
  pub epoch : Self → ℕ
  pub round : Self → ℕ
  pub accumulated_state : Self → Hash

pub record CommitInfo (Hash Self : Type 0) : Type 0 where
  pub block_id : Self → Hash
  pub round : Self → ℕ
  pub epoch : Self → ℕ
  pub version : Self → ℕ
  pub timestamp : Self → ℕ

-- The methods that `QuorumCertificate` provides from its certified block.
module _ {NodeId Hash M Qc : Type 0} (metadata : BlockMetadata NodeId Hash M)
    (certified_block : Qc → M) where
  abbrev pub qc_epoch : Qc → ℕ
  qc_epoch qc = metadata.epoch (certified_block qc)

  abbrev pub qc_round : Qc → ℕ
  qc_round qc = metadata.round (certified_block qc)
