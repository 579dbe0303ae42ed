-- ===== src/Traits/Dag.antt =====
-- What the traits of the DAG answer with: consensus-traits/src/dag.rs.
use Prim.Native.String.{String}

pub data NodeStatus : Type 0 where
  unordered ordered committed : NodeStatus

pub data OrderDecision {ℓ} (N : Type ℓ) : Type ℓ where
  ordered : N → OrderDecision N
  pending : OrderDecision N
  invalid : String → OrderDecision N

pub data DagError : Type 0 where
  node_not_found invalid_node_structure invalid_parents certificate_verification_failed : DagError
  insufficient_voting_power invalid_round node_already_exists : DagError

unfoldable pub show_dag_error : DagError → String
show_dag_error node_not_found = "Node not found in DAG"
show_dag_error invalid_node_structure = "Invalid node structure"
show_dag_error invalid_parents = "Invalid parent certificates"
show_dag_error certificate_verification_failed = "Certificate verification failed"
show_dag_error insufficient_voting_power = "Insufficient voting power for quorum"
show_dag_error invalid_round = "Invalid round number"
show_dag_error node_already_exists = "Node already exists"
