-- ===== src/Dag/View/Steps.antt =====
-- The calls of the store (consensus-core/src/dag/store.rs) on its abstract view.
use aptosbft.Common.{
  ℕ, ◌≡◌, refl, true, false, Option, none, some, ap, arith, inl, inr, err, ◌⊎◌, ◌≢◌,
}
use aptosbft.Common.Map.{get, contains_key}
use aptosbft.Dag.{
  Nodes, InMemDag, StoredNodeStatus, unordered, ordered, at, get_node_status, add_node,
  unknown_author, mark_ordered, prune_below,
}
use aptosbft.Dag.Store.{add_node_cases, Added, Marked, at-prune_below, mark_ordered_cases}
use aptosbft.Dag.History.{adds, marks, prunes, step-authors}
use aptosbft.Dag.View.{ordered_if_there, view_step, IsInjective, knows_of}

module _ {N : Nodes} where
  -- The status at an index, if there is one.
  abbrev pub status_at : InMemDag N → ℕ → Option ℕ → Option (StoredNodeStatus N)
  status_at dag round none = none
  status_at dag round (some index) = at dag round index

  pub status_at-get :
      (dag : InMemDag N) (round : ℕ) (author : N.Author)
      → get_node_status dag round author
        ≡ status_at dag round (get N.author_eq author dag.author_to_index)
  unfolding get_node_status
  status_at-get dag round author = ground arith

  pub knows_of_lem :
      (dag : InMemDag N) (a : N.Author)
      → knows_of dag a
        ≡ elim (get N.author_eq a dag.author_to_index) [ none ↦ false | some i ↦ true ]
  unfolding contains_key
  knows_of_lem dag a = ground arith

  pub view-add_node :
      (dag : InMemDag N) (node : N.Node) (round : ℕ) (author : N.Author)
      → IsInjective dag
      → get_node_status (add_node dag node).0 round author
        ≡ view_step (knows_of dag) (get_node_status dag) (adds node) round author
  view-add_node dag node round author injective =
      go (get N.author_eq author dag.author_to_index) refl (add_node_cases dag node)
    where
      dag' : InMemDag N
      dag' = (add_node dag node).0

      id : N.Author
      id = N.node_author node

      go :
          (found : Option ℕ)
          → get N.author_eq author dag.author_to_index ≡ found
          → ((get N.author_eq id dag.author_to_index ≡ none)
              × ((add_node dag node).1 ≡ err (unknown_author id))
              × (dag' ≡ dag))
            ⊎ ((index : ℕ) × (get N.author_eq id dag.author_to_index ≡ some index)
                × Added dag node index dag' (add_node dag node).1)
          → get_node_status dag' round author
            ≡ view_step (knows_of dag) (get_node_status dag) (adds node) round author
      go found e (inl (unknown, _, same)) = ground (
        arith,
        e,
        unknown,
        same,
        knows_of_lem dag id,
        ap (λ d. get_node_status d round author) same,
      )
      go none e (inr (j, known, _)) = ground (
        arith,
        e,
        known,
        knows_of_lem dag id,
        step-authors dag (adds node),
        status_at-get dag round author,
        status_at-get dag' round author,
      )
      go (some index) e (inr (j, known, inl (status, there, _, keeps))) = ground (
        arith,
        e,
        known,
        there,
        keeps round index,
        knows_of_lem dag id,
        step-authors dag (adds node),
        status_at-get dag round author,
        status_at-get dag' round author,
      )
      go (some index) e (inr (j, known, inr (free, _, sets))) = ground (
        arith,
        e,
        known,
        free,
        sets round index,
        injective id author j known,
        knows_of_lem dag id,
        step-authors dag (adds node),
        status_at-get dag round author,
        status_at-get dag' round author,
      )

  ordered_if_there-same :
      (s : Option (StoredNodeStatus N))
      → ((node : N.Node) (power : ℕ) → s ≢ some (unordered node power))
      → ordered_if_there s ≡ s
  ordered_if_there-same none h = refl
  ordered_if_there-same (some (unordered node power)) h = elim (h node power refl) [ ]
  ordered_if_there-same (some (ordered node)) h = refl

  pub view-mark_ordered :
      (dag : InMemDag N) (marked_round : ℕ) (marked : N.Author) (round : ℕ) (author : N.Author)
      → IsInjective dag
      → get_node_status (mark_ordered dag marked_round marked).0 round author
        ≡ view_step (knows_of dag) (get_node_status dag) (marks marked_round marked) round author
  view-mark_ordered dag marked_round marked round author injective =
      go (get N.author_eq author dag.author_to_index) refl
        (mark_ordered_cases dag marked_round marked)
    where
      dag' : InMemDag N
      dag' = (mark_ordered dag marked_round marked).0

      go :
          (found : Option ℕ)
          → get N.author_eq author dag.author_to_index ≡ found
          → ((get N.author_eq marked dag.author_to_index ≡ none)
              × ((mark_ordered dag marked_round marked).1 ≡ err (unknown_author marked))
              × (dag' ≡ dag))
            ⊎ ((index : ℕ) × (get N.author_eq marked dag.author_to_index ≡ some index)
                × Marked dag marked_round index dag' (mark_ordered dag marked_round marked).1)
          → get_node_status dag' round author
            ≡ view_step
                (knows_of dag)
                (get_node_status dag)
                (marks marked_round marked)
                round
                author
      go found e (inl (unknown, _, same)) = ground (
        arith,
        e,
        unknown,
        status_at-get dag round author,
        ap (λ d. get_node_status d round author) same,
      )
      go none e (inr (j, known, _)) = ground (
        arith,
        e,
        known,
        step-authors dag (marks marked_round marked),
        status_at-get dag round author,
        status_at-get dag' round author,
      )
      go (some index) e (inr (j, known, inl (node, power, there, _, sets))) = ground (
        arith,
        e,
        known,
        there,
        sets round index,
        injective marked author j known,
        step-authors dag (marks marked_round marked),
        status_at-get dag round author,
        status_at-get dag' round author,
      )
      go (some index) e (inr (j, known, inr (_, not_unordered, keeps))) = ground (
        arith,
        e,
        known,
        keeps round index,
        ordered_if_there-same (at dag marked_round j) not_unordered,
        step-authors dag (marks marked_round marked),
        status_at-get dag round author,
        status_at-get dag' round author,
      )

  pub view-prune_below :
      (dag : InMemDag N) (min_round round : ℕ) (author : N.Author)
      → get_node_status (prune_below dag min_round) round author
        ≡ view_step (knows_of dag) (get_node_status dag) (prunes min_round) round author
  view-prune_below dag min_round round author = go (get N.author_eq author dag.author_to_index) refl
    where
      go :
          (found : Option ℕ)
          → get N.author_eq author dag.author_to_index ≡ found
          → get_node_status (prune_below dag min_round) round author
            ≡ view_step (knows_of dag) (get_node_status dag) (prunes min_round) round author
      go none e = ground (
        arith,
        e,
        step-authors dag (prunes min_round),
        status_at-get dag round author,
        status_at-get (prune_below dag min_round) round author,
      )
      go (some index) e = ground (
        arith,
        e,
        step-authors dag (prunes min_round),
        status_at-get dag round author,
        status_at-get (prune_below dag min_round) round author,
        at-prune_below dag min_round round index,
      )
