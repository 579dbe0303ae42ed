-- ===== src/Dag/Driver.antt =====
-- The driver of the DAG: consensus-core/src/dag/driver.rs. Rounds are `u64` numbers; what it prints
-- is left out.
pub mod History
use aptosbft.Common.{
  ℕ, Bool, true, false, ltb, if◌then◌else◌, List, [], ◌∷◌, ◌++◌, length, Result, ok, err, panic,
  ◌>>◌,
}
use aptosbft.Dag.{Nodes, InMemDag, DagStoreConfig, get_round}
use aptosbft.Dag
use aptosbft.Dag.Ordering.{AnchorElection, OrderRule, OrderingConfig, OrderingResult}
use aptosbft.Dag.Ordering

pub record DagDriverConfig : Type 0 where
  pub window_size : ℕ
  pub anchor_interval : ℕ
  pub max_concurrent_rounds : ℕ

-- `DagDriverConfig::default`.
abbrev pub default_config : DagDriverConfig
default_config = record { window_size = 100; anchor_interval = 2; max_concurrent_rounds = 10 }

-- The store and the order rule are shared by `Arc` and immutable.
pub record DagDriver (N : Nodes) : Type 0 where
  pub dag : InMemDag N
  pub order_rule : OrderRule N
  pub config : DagDriverConfig
  pub current_round : ℕ
  pub pending_nodes : List N.Node
  pub is_processing : Bool

pub data DriverError : Type 0 where
  cannot_move : ℕ → ℕ → DriverError

module _ {N : Nodes} where
  unfoldable pub new : List N.Author → AnchorElection N.Author → ℕ → DagDriverConfig → DagDriver N
  unfolding Dag.new Ordering.new
  new authors anchor_election start_round config =
      let store_config : DagStoreConfig = record {
        start_round = 0;
        window_size = config.window_size;
      } in
      let dag = Dag.new authors store_config in
      let ordering_config : OrderingConfig = record {
        window_size = config.window_size;
        anchor_interval = config.anchor_interval;
      } in
      record {
        dag = dag;
        order_rule = Ordering.new dag anchor_election start_round ordering_config;
        config = config;
        current_round = start_round;
        pending_nodes = [];
        is_processing = false;
      }

  -- Only the result is acknowledged.
  unfoldable pub handle_ordered_nodes :
      DagDriver N → OrderingResult N → DagDriver N × Result DriverError (Unit {0})
  handle_ordered_nodes d result = (d, ok tt)

  -- The loop over the ordered results, up to the first error.
  unfoldable pub handle_all :
      DagDriver N → List (OrderingResult N) → DagDriver N × Result DriverError (Unit {0})
  unfolding handle_ordered_nodes
  handle_all d [] = (d, ok tt)
  handle_all d (result ∷ results) =
      let (d', handled) = handle_ordered_nodes d result in
      let (d'', rest) = handle_all d' results in
      elim handled [ ok done ↦ (d'', rest) | err e ↦ (d', err e) | panic ↦ (d', panic) ]

  -- The results of a turn of the loop are the empty vector, which ends it at the first turn.
  unfoldable pub check_ordering : DagDriver N → DagDriver N × Result DriverError (Unit {0})
  unfolding handle_all
  check_ordering d = let ordered_results = [] in handle_all d ordered_results

  unfoldable pub process_certified_node :
      DagDriver N → N.Node → DagDriver N × Result DriverError (Unit {0})
  unfolding check_ordering
  process_certified_node d node = let (d', checked) = check_ordering d in (d', checked >> ok tt)

  unfoldable pub enter_new_round : DagDriver N → ℕ → DagDriver N × Result DriverError (Unit {0})
  enter_new_round d new_round =
      if ltb new_round d.current_round
      then (d, err (cannot_move new_round d.current_round))
      else (record d { current_round = new_round }, ok tt)

  unfoldable pub get_strong_links : DagDriver N → ℕ → List N.Node
  unfolding get_round
  get_strong_links d round = get_round d.dag round

  unfoldable pub create_proposal : DagDriver N → Result DriverError (Unit {0})
  create_proposal d = ok tt

  -- The loop over the pending nodes; an error is printed.
  unfoldable pub process_nodes : DagDriver N → List N.Node → DagDriver N
  unfolding process_certified_node
  process_nodes d [] = d
  process_nodes d (node ∷ nodes) =
      process_nodes (process_certified_node (record d { pending_nodes = nodes }) node).0 nodes

  unfoldable pub process_pending : DagDriver N → DagDriver N × Result DriverError (Unit {0})
  unfolding process_nodes
  process_pending d =
      let d' = process_nodes (record d { is_processing = true }) d.pending_nodes in
      if d.is_processing then (d, ok tt) else (record d' { is_processing = false }, ok tt)

  unfoldable pub add_pending : DagDriver N → N.Node → DagDriver N
  add_pending d node = record d { pending_nodes = d.pending_nodes ++ (node ∷ []) }

  abbrev pub pending_count : DagDriver N → ℕ
  pending_count d = length d.pending_nodes

  -- The store is not pruned.
  unfoldable pub prune : DagDriver N → DagDriver N × Result DriverError (Unit {0})
  prune d = (d, ok tt)
