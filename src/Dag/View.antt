-- ===== src/Dag/View.antt =====
-- The abstract view of the store (consensus-core/src/dag/store.rs): a partial function of round and
-- author, without slots and indices.
pub mod Steps
pub mod Run
use aptosbft.Common.{
  ℕ, ◌≡◌, refl, Bool, true, false, ◌&&◌, ◌==◌, leb, if◌then◌else◌, ite, Option, none, some, List,
  [], ◌∷◌, ap, arith, inl, inr, err, ◌⊎◌, ◌≢◌,
}
use aptosbft.Common.Map.{get, contains_key}
use aptosbft.Dag.{
  Nodes, InMemDag, StoredNodeStatus, unordered, ordered, at, get_node_status, add_node,
  unknown_author, mark_ordered, prune_below,
}
use aptosbft.Dag.Store.{add_node_cases, Added, Marked, at-prune_below, mark_ordered_cases}
use aptosbft.Dag.History.{Call, adds, marks, prunes, step-authors}

abbrev pub View : Nodes → Type 0
View N = ℕ → N.Author → Option (StoredNodeStatus N)

abbrev pub same_author : (N : Nodes) → N.Author → N.Author → Bool
same_author N a b = ite (N.author_eq a b) true false

module _ {N : Nodes} where
  abbrev pub or_new : Option (StoredNodeStatus N) → N.Node → Option (StoredNodeStatus N)
  or_new (some status) node = some status
  or_new none node = some (unordered node 0)

  abbrev pub ordered_if_there : Option (StoredNodeStatus N) → Option (StoredNodeStatus N)
  ordered_if_there none = none
  ordered_if_there (some (unordered node power)) = some (ordered node)
  ordered_if_there (some (ordered node)) = some (ordered node)

  -- What a call does to the view, where some authors are known.
  abbrev pub view_step : (N.Author → Bool) → View N → Call N → View N
  view_step knows view (adds node) round author =
      if knows (N.node_author node)
        && ((N.node_round node == round) && same_author N (N.node_author node) author)
      then or_new (view round author) node
      else view round author
  view_step knows view (marks marked_round marked) round author =
      if (marked_round == round) && same_author N marked author
      then ordered_if_there (view round author)
      else view round author
  view_step knows view (prunes min_round) round author =
      if leb min_round round then view round author else none

  abbrev pub view_run : (N.Author → Bool) → View N → List (Call N) → View N
  view_run knows view [] = view
  view_run knows view (call ∷ calls) = view_run knows (view_step knows view call) calls

  -- No two authors have one index.
  abbrev pub IsInjective : InMemDag N → Type 0
  IsInjective dag =
      (a b : N.Author) (i : ℕ)
      → get N.author_eq a dag.author_to_index ≡ some i
      → get N.author_eq b dag.author_to_index ≡ some i
      → a ≡ b

  abbrev pub knows_of : InMemDag N → N.Author → Bool
  knows_of dag a = contains_key N.author_eq a dag.author_to_index
