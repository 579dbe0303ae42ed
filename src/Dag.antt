-- ===== src/Dag.antt =====
-- The in-memory store of the DAG: consensus-core/src/dag/store.rs. Rounds are `u64` numbers.
pub mod Slots
pub mod Store
pub mod History
pub mod View
pub mod Size
pub mod Types
pub mod Ordering
pub mod Driver
pub mod Testing
use aptosbft.Common.{
  ℕ, zero, suc, ◌+◌, Bool, true, false, leb, if◌then◌else◌, Option, none, some, List, [], ◌∷◌, ◌++◌,
  length, sum, Result, ok, err, ok_or, ◌>>=◌,
}
use aptosbft.Common.Map.{Map, get, insert, keys, values}
use aptosbft.Dag.Slots.{lookup, put, split_off, empty_slots, resize, set_slot, slot}

-- What the store uses of a certified node: the round and the author of `node().metadata()`.
pub record Nodes : Type 1 where
  pub Author : Type 0
  pub author_eq : Discrete Author
  pub Node : Type 0
  pub node_round : Node → ℕ
  pub node_author : Node → Author

pub data StoredNodeStatus (N : Nodes) : Type 0 where
  unordered : N.Node → ℕ → StoredNodeStatus N
  ordered : N.Node → StoredNodeStatus N

pub record DagStoreConfig : Type 0 where
  pub start_round : ℕ
  pub window_size : ℕ

unfoldable pub default_config : DagStoreConfig
default_config = record { start_round = 0; window_size = 100 }

pub record InMemDag (N : Nodes) : Type 0 where
  pub nodes_by_round : List (ℕ × List (Option (StoredNodeStatus N)))
  pub author_to_index : Map N.Author ℕ
  pub config : DagStoreConfig

-- The messages of the errors.
pub data DagError (N : Nodes) : Type 0 where
  unknown_author : N.Author → DagError N
  node_exists : ℕ → N.Author → DagError N
  round_not_found : ℕ → DagError N
  index_out_of_bounds : DagError N
  node_not_found : DagError N
  already_ordered : DagError N

-- The nodes of a vector of slots.
abbrev pub present {ℓ κ} : {A : Type ℓ} {B : Type κ} → (A → B) → List (Option A) → List B
present f [] = []
present f (none ∷ xs) = present f xs
present f (some x ∷ xs) = f x ∷ present f xs

-- `authors.iter().enumerate()` collected into a map: a later index replaces an earlier one.
unfoldable pub index_from : (N : Nodes) → ℕ → List N.Author → Map N.Author ℕ → Map N.Author ℕ
index_from N i [] m = m
index_from N i (author ∷ authors) m = index_from N (i + 1) authors (insert N.author_eq author i m)

-- The last round of the map, or a default.
abbrev pub last_round {ℓ} : {V : Type ℓ} → ℕ → List (ℕ × V) → ℕ
last_round round [] = round
last_round round ((later, _) ∷ m) = last_round later m

module _ {N : Nodes} where
  unfoldable pub as_node : StoredNodeStatus N → N.Node
  as_node (unordered node power) = node
  as_node (ordered node) = node

  unfoldable pub aggregated_voting_power : StoredNodeStatus N → Option ℕ
  aggregated_voting_power (unordered node power) = some power
  aggregated_voting_power (ordered node) = none

  unfoldable pub is_ordered : StoredNodeStatus N → Bool
  is_ordered (unordered node power) = false
  is_ordered (ordered node) = true

  unfoldable pub mark_as_ordered :
      StoredNodeStatus N → StoredNodeStatus N × Result (DagError N) (Unit {0})
  mark_as_ordered (unordered node power) = (ordered node, ok tt)
  mark_as_ordered (ordered node) = (ordered node, err already_ordered)

  unfoldable pub new : List N.Author → DagStoreConfig → InMemDag N
  unfolding index_from
  new authors config = record {
    nodes_by_round = [];
    author_to_index = index_from N 0 authors [];
    config = config;
  }

  -- `R::default()` is 0.
  unfoldable pub lowest_round : InMemDag N → ℕ
  lowest_round dag = elim dag.nodes_by_round [ [] ↦ 0 | (round, _) ∷ _ ↦ round ]

  unfoldable pub highest_round : InMemDag N → ℕ
  highest_round dag = last_round 0 dag.nodes_by_round

  abbrev pub num_authors : InMemDag N → ℕ
  num_authors dag = length dag.author_to_index

  -- The vector of a round, `or_insert_with` an empty one.
  abbrev pub stored_or_empty : InMemDag N → ℕ → List (Option (StoredNodeStatus N))
  stored_or_empty dag round = elim (lookup round dag.nodes_by_round) [
    | none ↦ empty_slots (num_authors dag)
    | some nodes ↦ nodes
  ]

  -- It, resized to hold an index.
  abbrev pub slots_for : InMemDag N → ℕ → ℕ → List (Option (StoredNodeStatus N))
  slots_for dag round index = resize (index + 1) (stored_or_empty dag round)

  -- What happens once the index of the author is known.
  unfoldable pub add_at : InMemDag N → N.Node → ℕ → InMemDag N × Result (DagError N) (Unit {0})
  unfolding put set_slot slot
  add_at dag node index =
      let round = N.node_round node in
      let nodes = slots_for dag round index in
      elim (slot index nodes) [
        | some _ ↦ (
          record dag { nodes_by_round = put round nodes dag.nodes_by_round },
          err (node_exists round (N.node_author node)),
        )
        | none ↦ (
          record dag {
            nodes_by_round =
                put round (set_slot index (some (unordered node 0)) nodes) dag.nodes_by_round;
          },
          ok tt,
        )
      ]

  -- Neither the window nor the epoch is read.
  unfoldable pub add_node : InMemDag N → N.Node → InMemDag N × Result (DagError N) (Unit {0})
  unfolding add_at
  add_node dag node = elim (get N.author_eq (N.node_author node) dag.author_to_index) [
    | none ↦ (dag, err (unknown_author (N.node_author node)))
    | some index ↦ add_at dag node index
  ]

  -- What a round holds at an index.
  abbrev pub at : InMemDag N → ℕ → ℕ → Option (StoredNodeStatus N)
  at dag round index = elim (lookup round dag.nodes_by_round) [
    | none ↦ none
    | some nodes ↦ slot index nodes
  ]

  unfoldable pub get_node_status : InMemDag N → ℕ → N.Author → Option (StoredNodeStatus N)
  unfolding lookup slot
  get_node_status dag round author = elim (get N.author_eq author dag.author_to_index) [
    | none ↦ none
    | some index ↦ at dag round index
  ]

  unfoldable pub get_node : InMemDag N → ℕ → N.Author → Option N.Node
  unfolding get_node_status as_node
  get_node dag round author = elim (get_node_status dag round author) [
    | none ↦ none
    | some status ↦ some (as_node status)
  ]

  unfoldable pub exists : InMemDag N → ℕ → N.Author → Bool
  unfolding get_node
  exists dag round author = elim (get_node dag round author) [ none ↦ false | some _ ↦ true ]

  -- What happens once the index of the author is known.
  unfoldable pub mark_at : InMemDag N → ℕ → ℕ → InMemDag N × Result (DagError N) (Unit {0})
  unfolding put set_slot slot lookup mark_as_ordered
  mark_at dag round index = elim (lookup round dag.nodes_by_round) [
    | none ↦ (dag, err (round_not_found round))
    | some nodes ↦
        if leb (length nodes) index
        then (dag, err index_out_of_bounds)
        else elim (slot index nodes) [
          | none ↦ (dag, err node_not_found)
          | some status ↦
              let (marked, result) = mark_as_ordered status in
              (
                record dag {
                  nodes_by_round =
                      put round (set_slot index (some marked) nodes) dag.nodes_by_round;
                },
                result,
              )
        ]
  ]

  unfoldable pub mark_ordered :
      InMemDag N → ℕ → N.Author → InMemDag N × Result (DagError N) (Unit {0})
  unfolding mark_at
  mark_ordered dag round author = elim (get N.author_eq author dag.author_to_index) [
    | none ↦ (dag, err (unknown_author author))
    | some index ↦ mark_at dag round index
  ]

  unfoldable pub get_round : InMemDag N → ℕ → List N.Node
  get_round dag round = elim (lookup round dag.nodes_by_round) [
    | none ↦ []
    | some nodes ↦ present as_node nodes
  ]

  abbrev pub nodes_of : List (ℕ × List (Option (StoredNodeStatus N))) → List N.Node
  nodes_of [] = []
  nodes_of ((round, nodes) ∷ rounds) = present as_node nodes ++ nodes_of rounds

  unfoldable pub all_nodes : InMemDag N → List N.Node
  all_nodes dag = nodes_of dag.nodes_by_round

  unfoldable pub len : InMemDag N → ℕ
  len dag = sum (λ e. length (present as_node e.1)) dag.nodes_by_round

  abbrev pub is_empty : InMemDag N → Bool
  is_empty dag = elim (len dag) [ zero ↦ true | suc n ↦ false ]

  abbrev pub authors : InMemDag N → List N.Author
  authors dag = keys dag.author_to_index

  unfoldable pub prune_below : InMemDag N → ℕ → InMemDag N
  unfolding split_off
  prune_below dag min_round = record dag { nodes_by_round = split_off min_round dag.nodes_by_round }

  unfoldable pub clear : InMemDag N → InMemDag N
  clear dag = record dag { nodes_by_round = [] }
