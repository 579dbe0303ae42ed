-- ===== src/Runtime/History.antt =====
-- Histories of calls of a runtime (consensus-core/src/consensus/runtime.rs).
use aptosbft.Common.{List, [], ◌∷◌}
use aptosbft.Traits.{Traits}
use aptosbft.Pacemaker.{Floats}
use aptosbft.Consensus.{ProposerElection}
use aptosbft.Runtime.{
  ConsensusRuntime, NetworkMessage, add_network_message, process_pending_messages, start, shutdown,
  handle_network_message, execute_block,
}

-- The methods that take the runtime mutably, `consensus_mut` aside.
pub data Call (T : Traits) : Type 0 where
  starts : Call T
  shuts_down : Call T
  adds : NetworkMessage T → Call T
  processes_pending : Call T
  handles : NetworkMessage T → Call T
  executes : T.Block → Call T

module _ {T : Traits} {F : Floats} {PE : ProposerElection} where
  abbrev pub step : ConsensusRuntime T F PE → Call T → ConsensusRuntime T F PE
  step r starts = (start r).0
  step r shuts_down = (shutdown r).0
  step r (adds m) = add_network_message r m
  step r processes_pending = (process_pending_messages r).0
  step r (handles m) = (handle_network_message r m).0
  step r (executes b) = (execute_block r b).0

  abbrev pub run : ConsensusRuntime T F PE → List (Call T) → ConsensusRuntime T F PE
  run r [] = r
  run r (call ∷ calls) = run (step r call) calls
