-- ===== src/Types.antt =====
-- Common types: consensus-core/src/types.rs. `Round` and `Epoch` are `u64`, plain numbers here.
use aptosbft.Common.{ℕ}

abbrev pub genesis_round : ℕ
genesis_round = 0

abbrev pub genesis_epoch : ℕ
genesis_epoch = 0

pub data TimeoutReason : Type 0 where
  no_quorum slow_leader network_delay resource_constraints : TimeoutReason

pub data VoteStatus : Type 0 where
  accepted rejected quorum_completed old_round future_round : VoteStatus
