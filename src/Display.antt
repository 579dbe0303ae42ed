-- ===== src/Display.antt =====
-- How the enumerations and the safety state print: the `Display` of consensus-core/src/types.rs,
-- consensus/mod.rs, pipeline/mod.rs, liveness/pacemaker.rs, epoch_manager/mod.rs,
-- safety_rules/state.rs and dag/types.rs, and of consensus-traits/src/dag.rs.
use Prim.Native.String.{String, ◌++◌}
use aptosbft.Common.Decimal.{show}
use aptosbft.Types.{TimeoutReason, no_quorum, slow_leader, network_delay, resource_constraints}
use aptosbft.Consensus.{ConsensusState, bootstrapping, running, catching_up, stopping, stopped}
use aptosbft.Pipeline.{Stage, receiving, validation, processing, commit}
use aptosbft.Pacemaker.{NewRoundReason, quorum_certificate, timeout}
use aptosbft.Epoch.{EpochTransitionError, old_epoch, skipped_epoch, invalid_transition}
use aptosbft.Safety.State.{SafetyStateData}
use aptosbft.Dag.Types.{DagNodeId}

unfoldable pub show_timeout_reason : TimeoutReason → String
show_timeout_reason no_quorum = "no_quorum"
show_timeout_reason slow_leader = "slow_leader"
show_timeout_reason network_delay = "network_delay"
show_timeout_reason resource_constraints = "resource_constraints"

unfoldable pub show_consensus_state : ConsensusState → String
show_consensus_state bootstrapping = "bootstrapping"
show_consensus_state running = "running"
show_consensus_state catching_up = "catching_up"
show_consensus_state stopping = "stopping"
show_consensus_state stopped = "stopped"

unfoldable pub stage_name : Stage → String
stage_name receiving = "receiving"
stage_name validation = "validation"
stage_name processing = "processing"
stage_name commit = "commit"

unfoldable pub show_stage : Stage → String
unfolding stage_name
show_stage s = stage_name s

unfoldable pub show_new_round_reason : NewRoundReason → String
show_new_round_reason quorum_certificate = "QCReady"
show_new_round_reason (timeout rounds_since_ordered) =
    "Timeout(rounds_since_ordered=" ++ (show rounds_since_ordered ++ ")")

unfoldable pub show_epoch_transition_error : EpochTransitionError → String
show_epoch_transition_error (old_epoch current proposed) =
    "Cannot transition to epoch " ++ (show proposed ++ (": already at epoch " ++ show current))
show_epoch_transition_error (skipped_epoch current proposed) =
    "Cannot skip epochs: current=" ++ (show current ++ (", proposed=" ++ show proposed))
show_epoch_transition_error (invalid_transition msg) = "Invalid epoch transition: " ++ msg

unfoldable pub show_safety_state : SafetyStateData → String
show_safety_state s =
    "SafetyStateData: [\n\tepoch = "
    ++ (show s.epoch
        ++ (",\n\tlast_voted_round = "
            ++ (show s.last_voted_round
                ++ (",\n\tpreferred_round = "
                    ++ (show s.preferred_round
                        ++ (",\n\tone_chain_round = "
                            ++ (show s.one_chain_round
                                ++ (",\n\thighest_timeout_round = "
                                    ++ (show s.highest_timeout_round ++ "\n]")))))))))

-- Over how an author prints.
unfoldable pub show_dag_node_id {ℓ} : {A : Type ℓ} → (A → String) → DagNodeId A → String
show_dag_node_id show_author id =
    "DagNodeId[epoch="
    ++ (show id.epoch
        ++ (", round=" ++ (show id.round ++ (", author=" ++ (show_author id.author ++ "]")))))
