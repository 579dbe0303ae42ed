-- ===== src/Tests/StateSync.antt =====
-- The theorems on the synchronization at test data.
use aptosbft.Common.{
  ◌≡◌, refl, true, [], ◌∷◌, List, arith, ℕ_discrete, none, if◌then◌else◌, ◌==◌, u64,
}
use aptosbft.Common.Map.{insert}
use aptosbft.Mock.{mock}
use aptosbft.StateSync.{
  take_next_request, start_sync, verify_sequential, StateSync, StateSyncConfig, completed,
  in_progress, new, add_sync_response, ready_blocks,
}
use aptosbft.StateSync.Ready.{IsReady}
use aptosbft.StateSync.Status.{
  Call, starts, responds, takes_request, run, run-IsReady, completed_with_gap,
}
use aptosbft.Tests.{block}

abbrev config : StateSyncConfig
config = record {
  max_batch_size = 2;
  sync_timeout_ms = 5000;
  max_retries = 3;
  verify_from_multiple_peers = true;
}

-- A synchronization to round 3, and the blocks of the first batch.
abbrev calls : List (Call mock)
calls =
    starts 3 0
    ∷ takes_request
    ∷ responds (record { blocks = block 1 ∷ block 2 ∷ []; epoch = 0; is_final = true })
    ∷ []

run-IsReady_example : IsReady (run (new config 0) calls) (ready_blocks (run (new config 0) calls))
unfolding new add_sync_response take_next_request start_sync verify_sequential insert ℕ_discrete
run-IsReady_example = run-IsReady config 0 calls (omega arith)

-- Only the block of round 3 of a synchronization to that round.
abbrev waiting : StateSync mock
waiting = record {
  config = config;
  status = in_progress 3 0 0;
  pending_requests = [];
  received_blocks = [];
  highest_known_round = none;
  current_round = 0;
}

completed_with_gap_example :
    let s' =
      (add_sync_response waiting
        (record { blocks = block 3 ∷ []; epoch = 0; is_final = true })).0 in
    (s'.status ≡ completed 1)
    × ((ready_blocks s').1 ≡ (if mock.block_round (block 3) == u64 1 then block 3 ∷ [] else []))
completed_with_gap_example = completed_with_gap waiting (block 3) 0 true refl refl (omega arith)
