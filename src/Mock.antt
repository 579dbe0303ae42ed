-- ===== src/Mock.antt =====
-- The mock implementation of the traits: consensus-core/src/testing/. A `MockHash` or
-- `MockSignature` is its byte. `MockVoteData` and `MockLedgerInfo` are units, which a vote leaves out.
pub mod ValidatorSet
pub mod Bytes
pub mod Ledger
use aptosbft.Common.{ℕ, ◌≡◌, List, [], Result, ok, ℕ_discrete, Bool, false, ◌==◌, ◌&&◌}
use aptosbft.Traits.{Traits, Error}

pub record MockBlockMetadata : Type 0 where
  pub epoch : ℕ
  pub round : ℕ
  pub author : ℕ
  pub parent_id : ℕ
  pub timestamp : ℕ

abbrev pub genesis : MockBlockMetadata
genesis = record { epoch = 0; round = 0; author = 0; parent_id = 0; timestamp = 0 }

abbrev pub new_metadata : ℕ → ℕ → ℕ → ℕ → ℕ → MockBlockMetadata
new_metadata epoch round author parent_id timestamp = record {
  epoch = epoch;
  round = round;
  author = author;
  parent_id = parent_id;
  timestamp = timestamp;
}

pub data MockTransaction : Type 0 where
  mock_transaction : MockTransaction

pub record MockBlock : Type 0 where
  pub metadata : MockBlockMetadata
  pub transactions : List MockTransaction

pub record MockQuorumCert : Type 0 where
  pub metadata : MockBlockMetadata
  pub block_id : ℕ

pub record MockVote : Type 0 where
  pub author : ℕ
  pub block_id : ℕ
  pub round : ℕ
  pub signature : ℕ

abbrev pub genesis_block : MockBlock
genesis_block = record { metadata = genesis; transactions = [] }

abbrev pub new_block : List MockTransaction → MockBlockMetadata → MockBlock
new_block transactions metadata = record { metadata = metadata; transactions = transactions }

abbrev pub is_genesis : MockBlock → Bool
is_genesis b = (b.metadata.epoch == 0) && (b.metadata.round == 0)

abbrev pub is_nil : MockBlock → Bool
is_nil b = false

-- `MockQuorumCert::new` and `with_metadata`.
abbrev pub new_qc : ℕ → MockQuorumCert
new_qc block_id = record { metadata = genesis; block_id = block_id }

abbrev pub with_metadata : MockBlockMetadata → ℕ → MockQuorumCert
with_metadata metadata block_id = record { metadata = metadata; block_id = block_id }

-- `MockVote::new` and `MockVote::with_signature`.
abbrev pub new_vote : ℕ → ℕ → ℕ → MockVote
new_vote author block_id round = record {
  author = author;
  block_id = block_id;
  round = round;
  signature = author;
}

abbrev pub with_signature : ℕ → ℕ → ℕ → ℕ → MockVote
with_signature author block_id round sig_byte = record {
  author = author;
  block_id = block_id;
  round = round;
  signature = sig_byte;
}

-- `MockQuorumCert::from_votes` returns the default certificate, that of the genesis block.
abbrev pub default_qc : MockQuorumCert
default_qc = record { metadata = genesis; block_id = 0 }

abbrev pub mock : Traits
mock = record {
  Hash = ℕ;
  hash_eq = ℕ_discrete;
  NodeId = ℕ;
  node_id_eq = ℕ_discrete;
  Signature = ℕ;
  signature_eq = ℕ_discrete;
  Aggregated = Unit {0};
  BlockSignature = ℕ;
  Block = MockBlock;
  Vote = MockVote;
  QuorumCert = MockQuorumCert;
  block_round = λ b. b.metadata.round;
  parent_id = λ b. b.metadata.parent_id;
  verify_signature = λ b. ok tt;
  vote_round = λ v. v.round;
  vote_block_id = λ v. v.block_id;
  vote_author = λ v. v.author;
  vote_signature = λ v. v.signature;
  vote_epoch = λ v. 0;
  proposed_round = λ v. genesis.round;
  qc_round = λ qc. qc.metadata.round;
  from_votes = λ votes signature. ok default_qc;
}
