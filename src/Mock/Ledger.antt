-- ===== src/Mock/Ledger.antt =====
-- What the mock votes, blocks and ledger answer, read through the interfaces of the ledger
-- (consensus-core/src/testing/mock_block.rs and mock_vote.rs). A byte is a number below 256.
use Prim.Native.Nat.{bit_xor}
use aptosbft.Common.{ℕ, ◌%◌, Option, none, ok}
use aptosbft.Traits.Ledger.{Transaction, VoteData, CommitInfo, LedgerInfo, BlockMetadata}
use aptosbft.Mock.{MockBlockMetadata, MockBlock, MockTransaction, genesis}

pub data MockVoteData : Type 0 where
  mock_vote_data : MockVoteData

pub data MockLedgerInfo : Type 0 where
  mock_ledger_info : MockLedgerInfo

pub data MockCommitInfo : Type 0 where
  mock_commit_info : MockCommitInfo

abbrev pub transaction : Transaction ℕ MockTransaction
transaction = record { hash = λ t. 0; size = λ t. 100 }

abbrev pub block_metadata : BlockMetadata ℕ ℕ MockBlockMetadata
block_metadata = record {
  epoch = λ m. m.epoch;
  round = λ m. m.round;
  author = λ m. m.author;
  parent_id = λ m. m.parent_id;
  timestamp = λ m. m.timestamp;
}

abbrev pub vote_data : VoteData MockBlockMetadata MockVoteData
vote_data = record {
  proposed_block = λ d. genesis;
  parent_block = λ d. genesis;
  verify = λ d. ok tt;
}

abbrev pub ledger_info : LedgerInfo ℕ MockCommitInfo MockLedgerInfo
ledger_info = record {
  commit_info = λ l. mock_commit_info;
  epoch = λ l. 0;
  round = λ l. 0;
  accumulated_state = λ l. 0;
}

abbrev pub commit_info : CommitInfo ℕ MockCommitInfo
commit_info = record {
  block_id = λ c. 0;
  round = λ c. 0;
  epoch = λ c. 0;
  version = λ c. 0;
  timestamp = λ c. 0;
}

-- The id of a block, whose round is cut to its low byte.
unfoldable pub block_id : MockBlock → ℕ
block_id b = bit_xor (b.metadata.round % 256) b.metadata.author

abbrev pub block_signature : MockBlock → Option ℕ
block_signature b = none
