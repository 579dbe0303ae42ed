-- ===== src/Dag/View/Run.antt =====
-- Histories of the store (consensus-core/src/dag/store.rs) on its abstract view.
use aptosbft.Common.{
  ℕ, ◌+◌, ◌<◌, ◌≡◌, refl, Bool, true, false, none, some, List, [], ◌∷◌, ap, ◌∙◌, ite, sym, subst,
  arith, ◌||◌,
}
use aptosbft.Common.Map.{Map, get, insert, get-insert, get-nil, contains_key}
use aptosbft.Dag.{Nodes, InMemDag, DagStoreConfig, get_node_status, index_from, new, lookup}
use aptosbft.Dag.History.{Call, adds, marks, prunes, step, run, step-authors}
use aptosbft.Dag.View.{view_step, view_run, IsInjective, knows_of}
use aptosbft.Dag.View.Steps.{view-add_node, view-mark_ordered, view-prune_below, status_at-get}
use aptosbft.Dag.Slots.{lookup}

-- Whether an author is in a list.
abbrev pub is_listed : (N : Nodes) → List N.Author → N.Author → Bool
is_listed N [] a = false
is_listed N (b ∷ bs) a = ite (N.author_eq b a) true (is_listed N bs a)

module _ {N : Nodes} where
  view-step :
      (dag : InMemDag N) (call : Call N)
      → IsInjective dag
      → get_node_status (step dag call) ≡ view_step (knows_of dag) (get_node_status dag) call
  view-step dag (adds node) h = λ i round author. view-add_node dag node round author h i
  view-step dag (marks r a) h = λ i round author. view-mark_ordered dag r a round author h i
  view-step dag (prunes min_round) h =
      λ i round author. view-prune_below dag min_round round author i

  view-run_from :
      (dag : InMemDag N) (calls : List (Call N))
      → IsInjective dag
      → get_node_status (run dag calls) ≡ view_run (knows_of dag) (get_node_status dag) calls
  view-run_from dag [] h = refl
  view-run_from dag (call ∷ calls) h =
      view-run_from (step dag call) calls (subst IsInjectiveMap (sym same) h)
      ∙ ap
          (λ m.
            view_run (λ a. contains_key N.author_eq a m) (get_node_status (step dag call)) calls)
          same
      ∙ ap (λ view. view_run (knows_of dag) view calls) (view-step dag call h)
    where
      same : (step dag call).author_to_index ≡ dag.author_to_index
      same = step-authors dag call

      IsInjectiveMap : Map N.Author ℕ → Type 0
      IsInjectiveMap m =
          (a b : N.Author) (i : ℕ)
          → get N.author_eq a m ≡ some i
          → get N.author_eq b m ≡ some i
          → a ≡ b

module _ (N : Nodes) where
  -- The indices of a map are below a bound and stand once each.
  abbrev IsIndexed : ℕ → Map N.Author ℕ → Type 0
  IsIndexed bound m =
      ((a : N.Author) (i : ℕ) → get N.author_eq a m ≡ some i → i < bound)
      × ((a b : N.Author) (i : ℕ)
          → get N.author_eq a m ≡ some i
          → get N.author_eq b m ≡ some i
          → a ≡ b)

  insert-IsIndexed :
      (bound : ℕ) (author : N.Author) (m : Map N.Author ℕ)
      → IsIndexed bound m
      → IsIndexed (bound + 1) (insert N.author_eq author bound m)
  insert-IsIndexed bound author m h = (
    λ a i e. ground (arith, get-insert N.author_eq author a bound m, h.0 a i, e),
    λ a b i e f. ground (
      arith,
      get-insert N.author_eq author a bound m,
      get-insert N.author_eq author b bound m,
      h.0 a i,
      h.0 b i,
      h.1 a b i,
      e,
      f,
    ),
  )

  index_from-IsIndexed :
      (bound : ℕ) (authors : List N.Author) (m : Map N.Author ℕ)
      → IsIndexed bound m
      → (top : ℕ) × IsIndexed top (index_from N bound authors m)
  unfolding index_from
  index_from-IsIndexed bound [] m h = (bound, h)
  index_from-IsIndexed bound (author ∷ authors) m h =
      index_from-IsIndexed (bound + 1) authors (insert N.author_eq author bound m)
        (insert-IsIndexed bound author m h)

  contains_key-nil : (a : N.Author) → contains_key {V = ℕ} N.author_eq a [] ≡ false
  unfolding contains_key get
  contains_key-nil a = refl

  knows-index_from :
      (bound : ℕ) (authors : List N.Author) (m : Map N.Author ℕ) (a : N.Author)
      → contains_key N.author_eq a (index_from N bound authors m)
        ≡ (contains_key N.author_eq a m || is_listed N authors a)
  unfolding index_from contains_key
  knows-index_from bound [] m a = ground arith
  knows-index_from bound (author ∷ authors) m a = ground (
    arith,
    knows-index_from (bound + 1) authors (insert N.author_eq author bound m) a,
    get-insert N.author_eq author a bound m,
  )

module _ {N : Nodes} where
  -- After any history of a new store, get_node_status is the partial function of round and author
  -- that the abstract run of the calls gives from the empty one: an addition by a listed author
  -- fills an empty place, an ordering orders the node there, and a pruning empties the rounds below
  -- its bound.
  pub view-run :
      (authors : List N.Author) (config : DagStoreConfig) (calls : List (Call N))
      → get_node_status (run (new authors config) calls)
        ≡ view_run (is_listed N authors) (λ round author. none) calls
  unfolding new lookup
  view-run authors config calls =
      view-run_from dag calls injective
      ∙ ap (λ view. view_run (knows_of dag) view calls) empty
      ∙ ap (λ knows. view_run knows (λ round author. none) calls) known
    where
      dag : InMemDag N
      dag = new authors config

      injective : IsInjective dag
      injective =
          (index_from-IsIndexed N 0 authors [] (
            λ a i e. ground (arith, e, get-nil {V = ℕ} N.author_eq a),
            λ a b i e f. ground (arith, e, get-nil {V = ℕ} N.author_eq a),
          )).1.1

      nothing : (round : ℕ) (author : N.Author) → get_node_status dag round author ≡ none
      nothing round author = ground (arith, status_at-get dag round author)

      listed : (a : N.Author) → knows_of dag a ≡ is_listed N authors a
      listed a = ground (arith, knows-index_from N 0 authors [] a, contains_key-nil N a)

      empty : get_node_status dag ≡ (λ round author. none)
      empty = λ i round author. nothing round author i

      known : knows_of dag ≡ is_listed N authors
      known = λ i a. listed a i
