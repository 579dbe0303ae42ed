-- ===== src/Tests/Dag.antt =====
-- The theorems on the store of the DAG at test data.
use aptosbft.Common.{ℕ, ◌≡◌, none, some, List, [], ◌∷◌, ℕ_discrete}
use aptosbft.Dag.{Nodes, InMemDag, unordered, get_node_status, new, default_config}
use aptosbft.Dag.Driver as Driver
use aptosbft.Dag.Driver.{get_strong_links}
use aptosbft.Dag.Driver.History.{run-new}
use aptosbft.Dag.Ordering.{AnchorElection, anchor_election, RoundRobinAnchorElection}
use aptosbft.Dag.History.{Call, adds, marks, prunes, run}
use aptosbft.Dag.View.{view_run}
use aptosbft.Dag.View.Run.{is_listed, view-run}

-- A node is its round, its author and its content.
abbrev nodes : Nodes
nodes = record {
  Author = ℕ;
  author_eq = ℕ_discrete;
  Node = ℕ × ℕ × ℕ;
  node_round = λ node. node.0;
  node_author = λ node. node.1;
}

-- The authors 20 and 21; a node of the author 21 in the round 3.
abbrev dag : InMemDag nodes
dag = record {
  nodes_by_round = (3, none ∷ some (unordered (3, 21, 100) 0) ∷ []) ∷ [];
  author_to_index = (20, 0) ∷ (21, 1) ∷ [];
  config = record { start_round = 0; window_size = 100 };
}

abbrev calls : List (Call nodes)
calls = adds (3, 21, 102) ∷ marks 3 21 ∷ prunes 2 ∷ adds (4, 20, 101) ∷ []

abbrev driver_calls : List (Driver.History.Call nodes)
driver_calls =
    Driver.History.adds (3, 21, 100)
    ∷ Driver.History.processes_pending
    ∷ Driver.History.enters 6
    ∷ Driver.History.enters 4
    ∷ []

abbrev anchors : AnchorElection ℕ
anchors = anchor_election (record { authors = 20 ∷ 21 ∷ [] })

abbrev two_authors : RoundRobinAnchorElection ℕ
two_authors = record { authors = 20 ∷ 21 ∷ [] }

abbrev view_calls : List (Call nodes)
view_calls = adds (3, 21, 102) ∷ adds (3, 22, 103) ∷ marks 3 21 ∷ prunes 2 ∷ adds (1, 20, 101) ∷ []

view-run_example :
    get_node_status (run (new (20 ∷ 21 ∷ []) default_config) view_calls)
    ≡ view_run (is_listed nodes (20 ∷ 21 ∷ [])) (λ round author. none) view_calls
view-run_example = view-run {N = nodes} (20 ∷ 21 ∷ []) default_config view_calls
