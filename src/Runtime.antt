-- ===== src/Runtime.antt =====
-- The runtime: consensus-core/src/consensus/runtime.rs. It owns a consensus instance and a queue of
-- messages from the network. A failure keeps the error, not its text.
pub mod Queue
pub mod History
pub mod Lifecycle
pub mod Reach
pub mod Display
use aptosbft.Common.{
  ℕ, Bool, true, false, if◌then◌else◌, not, List, [], ◌∷◌, ◌++◌, ◌>>=◌, map_err, Result, ok, err,
  panic, length,
}
use aptosbft.Traits.{Traits}
use aptosbft.Pacemaker.{Floats}
use aptosbft.Consensus.{
  Consensus, ProposerElection, ConsensusState, ConsensusError, process_qc, process_timeout,
}
use aptosbft.Consensus

pub record RuntimeConfig : Type 0 where
  pub process_interval_ms : ℕ
  pub max_concurrent_tasks : ℕ
  pub network_timeout_ms : ℕ
  pub network_buffer_size : ℕ

-- `RuntimeConfig::default`.
abbrev pub default_config : RuntimeConfig
default_config = record {
  process_interval_ms = 100;
  max_concurrent_tasks = 10;
  network_timeout_ms = 5000;
  network_buffer_size = 1048576;
}

-- The reason of a skipped message.
pub data Skipped : Type 0 where
  state_sync_not_implemented : Skipped

pub data ExecutionResult : Type 0 where
  success : ExecutionResult
  failed : ConsensusError → ExecutionResult
  timeout : ExecutionResult
  skipped : Skipped → ExecutionResult

abbrev pub is_success : ExecutionResult → Bool
is_success success = true
is_success other = false

pub data NetworkMessage (T : Traits) : Type 0 where
  proposal : T.Block → NetworkMessage T
  vote : T.Vote → NetworkMessage T
  quorum_certificate : T.QuorumCert → NetworkMessage T
  round_timeout : ℕ → NetworkMessage T
  sync_request : ℕ → NetworkMessage T
  sync_response : List T.Block → NetworkMessage T

pub record ConsensusRuntime (T : Traits) (F : Floats) (PE : ProposerElection) : Type 0 where
  pub consensus : Consensus T F PE
  pub config : RuntimeConfig
  pub pending_messages : List (NetworkMessage T)
  pub active_tasks : List ℕ
  pub next_task_id : ℕ
  pub is_running : Bool

pub data RuntimeError : Type 0 where
  already_running runtime_not_running : RuntimeError
  in_consensus : ConsensusError → RuntimeError

-- A panic of the consensus stays one.
abbrev pub execution_of : Result ConsensusError (Unit {0}) → Result ConsensusError ExecutionResult
execution_of (ok done) = ok success
execution_of (err e) = ok (failed e)
execution_of panic = panic

module _ {T : Traits} {F : Floats} {PE : ProposerElection} where
  unfoldable pub new : Consensus T F PE → RuntimeConfig → ConsensusRuntime T F PE
  new consensus config = record {
    consensus = consensus;
    config = config;
    pending_messages = [];
    active_tasks = [];
    next_task_id = 0;
    is_running = false;
  }

  unfoldable pub add_network_message :
      ConsensusRuntime T F PE → NetworkMessage T → ConsensusRuntime T F PE
  add_network_message r message = record r {
    pending_messages = r.pending_messages ++ (message ∷ []);
  }

  abbrev pub pending_message_count : ConsensusRuntime T F PE → ℕ
  pending_message_count r = length r.pending_messages

  -- The body of the loop below.
  abbrev pub process_message :
      Consensus T F PE → NetworkMessage T → Consensus T F PE × Result ConsensusError ExecutionResult
  process_message c (proposal block) = (c, ok success)
  process_message c (vote v) = (c, ok success)
  process_message c (quorum_certificate qc) =
      let (c', result) = process_qc c qc in (c', execution_of result)
  process_message c (round_timeout round) =
      let (c', result) = process_timeout c round in (c', execution_of result)
  process_message c (sync_request target_round) = (c, ok (skipped state_sync_not_implemented))
  process_message c (sync_response blocks) = (c, ok (skipped state_sync_not_implemented))

  -- The loop over the queue, with the messages beside their results.
  unfoldable pub process_queue :
      Consensus T F PE
      → List (NetworkMessage T)
      → Consensus T F PE × Result ConsensusError (List (NetworkMessage T × ExecutionResult))
  process_queue c [] = (c, ok [])
  process_queue c (message ∷ queue) =
      let (c', result) = process_message c message in
      let (c'', results) = process_queue c' queue in
      (c'', do r ← result; rs ← results; ok ((message, r) ∷ rs))

  unfoldable pub process_pending_messages :
      ConsensusRuntime T F PE
      → ConsensusRuntime T F PE × Result ConsensusError (List (NetworkMessage T × ExecutionResult))
  process_pending_messages r =
      let (consensus, results) = process_queue r.consensus r.pending_messages in
      (record r { consensus = consensus; pending_messages = [] }, results)

  abbrev pub execute_block :
      ConsensusRuntime T F PE → T.Block → ConsensusRuntime T F PE × ExecutionResult
  execute_block r block = (r, success)

  abbrev pub broadcast_proposal : ConsensusRuntime T F PE → T.Block → ExecutionResult
  broadcast_proposal r block = success

  abbrev pub broadcast_vote : ConsensusRuntime T F PE → T.Vote → ExecutionResult
  broadcast_vote r v = success

  -- A failed start of the consensus leaves the flag set.
  unfoldable pub start :
      ConsensusRuntime T F PE → ConsensusRuntime T F PE × Result RuntimeError (Unit {0})
  start r =
      let (consensus, started) = Consensus.start r.consensus in
      if r.is_running
      then (r, err already_running)
      else (record r { is_running = true; consensus = consensus }, map_err in_consensus started)

  -- A failed stop of the consensus leaves the messages and the tasks.
  unfoldable pub shutdown :
      ConsensusRuntime T F PE → ConsensusRuntime T F PE × Result RuntimeError (Unit {0})
  shutdown r =
      let (consensus, stopped) = Consensus.stop r.consensus in
      let r' = record r { is_running = false; consensus = consensus } in
      if not r.is_running then (r, err runtime_not_running) else elim stopped [
        | ok done ↦ (record r' { pending_messages = []; active_tasks = [] }, ok tt)
        | err e ↦ (r', err (in_consensus e))
        | panic ↦ (r', panic)
      ]

  unfoldable pub handle_network_message :
      ConsensusRuntime T F PE
      → NetworkMessage T
      → ConsensusRuntime T F PE × Result ConsensusError ExecutionResult
  handle_network_message r (proposal block) = (r, ok success)
  handle_network_message r (vote v) = (r, ok success)
  handle_network_message r (quorum_certificate qc) =
      let (consensus, result) = process_qc r.consensus qc in
      (record r { consensus = consensus }, execution_of result)
  handle_network_message r (round_timeout round) =
      let (consensus, result) = process_timeout r.consensus round in
      (record r { consensus = consensus }, execution_of result)
  handle_network_message r (sync_request target_round) =
      (r, ok (skipped state_sync_not_implemented))
  handle_network_message r (sync_response blocks) = (r, ok (skipped state_sync_not_implemented))

  abbrev pub epoch : ConsensusRuntime T F PE → ℕ
  epoch r = r.consensus.epoch_manager.epoch_state.epoch

  abbrev pub round : ConsensusRuntime T F PE → ℕ
  round r = r.consensus.round_manager.round_state.round

  abbrev pub state : ConsensusRuntime T F PE → ConsensusState
  state r = r.consensus.state
