-- ===== src/Dag/History.antt =====
-- Histories of the store (consensus-core/src/dag/store.rs): what a stored node may become.
use aptosbft.Common.{
  ◌∙◌, highest-le, subst, Bool-cases, ℕ, ◌<◌, ◌≤◌, ◌≡◌, refl, ◌&&◌, ◌==◌, Option, none, some, List,
  [], ◌∷◌, ok, inl, inr, arith, highest, max,
}
use aptosbft.Common.Map.{get}
use aptosbft.Dag.{
  Nodes, InMemDag, StoredNodeStatus, unordered, ordered, at, add_node, mark_ordered, prune_below,
  get_node, get_node_status, as_node, add_at, mark_at,
}
use aptosbft.Dag.Store.{add_node_cases, mark_ordered_cases, at-prune_below}

-- The same status, or the same node ordered.
infix 40 ◌⊑◌
pub data ◌⊑◌ {N : Nodes} : StoredNodeStatus N → StoredNodeStatus N → Type 0 where
  same : {s : StoredNodeStatus N} → s ⊑ s
  orders : {node : N.Node} {power : ℕ} → unordered node power ⊑ ordered node

pub data Call (N : Nodes) : Type 0 where
  adds : N.Node → Call N
  marks : ℕ → N.Author → Call N
  prunes : ℕ → Call N

-- The bound of a pruning.
abbrev pub bound : {N : Nodes} → Call N → ℕ
bound (adds node) = 0
bound (marks round author) = 0
bound (prunes min_round) = min_round

module _ {N : Nodes} where
  abbrev pub step : InMemDag N → Call N → InMemDag N
  step dag (adds node) = (add_node dag node).0
  step dag (marks round author) = (mark_ordered dag round author).0
  step dag (prunes min_round) = prune_below dag min_round

  abbrev pub run : InMemDag N → List (Call N) → InMemDag N
  run dag [] = dag
  run dag (c ∷ cs) = run (step dag c) cs

  ⊑-trans : (s t u : StoredNodeStatus N) → s ⊑ t → t ⊑ u → s ⊑ u
  ⊑-trans s t u same k = k
  ⊑-trans s t u orders same = orders

  -- The slot still holds the node of a status.
  abbrev Holds : InMemDag N → ℕ → ℕ → StoredNodeStatus N → Type 0
  Holds dag r i s = (t : StoredNodeStatus N) × (at dag r i ≡ some t) × (s ⊑ t)

  step-Holds :
      (dag : InMemDag N) (c : Call N) (r i : ℕ) (s : StoredNodeStatus N)
      → at dag r i ≡ some s
      → bound c ≤ r
      → Holds (step dag c) r i s
  step-Holds dag (adds node) r i s h b = elim (add_node_cases dag node) [
    | inl (_, _, e) ↦ (s, ground (arith, e), same)
    | inr (index, _, inl (_, _, _, keeps)) ↦ (s, ground (arith, keeps r i), same)
    | inr (index, _, inr (free, _, sets)) ↦ (s, ground (arith, sets r i, free), same)
  ]
  step-Holds dag (marks round author) r i s h b = elim (mark_ordered_cases dag round author) [
    | inl (_, _, e) ↦ (s, ground (arith, e), same)
    | inr (index, _, inr (_, _, keeps)) ↦ (s, ground (arith, keeps r i), same)
    | inr (index, _, inl (node, power, was, _, sets)) ↦
        elim (Bool-cases (round == r && (index == i))) [
          | inl here ↦
              let is : unordered node power ≡ s = ground (arith, was) in
              (ordered node, ground (arith, sets r i), subst (λ u. u ⊑ ordered node) is orders)
          | inr elsewhere ↦ (s, ground (arith, sets r i), same)
        ]
  ]
  step-Holds dag (prunes min_round) r i s h b =
      (s, ground (arith, at-prune_below dag min_round r i), same)

  run-Holds :
      (dag : InMemDag N) (cs : List (Call N)) (b r i : ℕ) (s : StoredNodeStatus N)
      → at dag r i ≡ some s
      → highest bound b cs ≤ r
      → Holds (run dag cs) r i s
  run-Holds dag [] b r i s h l = (s, h, same)
  run-Holds dag (c ∷ cs) b r i s h l =
      let later = highest-le bound (max b (bound c)) cs in
      let (t, there, st) = step-Holds dag c r i s h (omega (arith, later)) in
      let (u, last, tu) = run-Holds (step dag c) cs (max b (bound c)) r i t there l in
      (u, last, ⊑-trans s t u st tu)

  pub step-authors :
      (dag : InMemDag N) (c : Call N) → (step dag c).author_to_index ≡ dag.author_to_index
  unfolding add_node add_at mark_ordered mark_at prune_below
  step-authors dag (adds node) = ground arith
  step-authors dag (marks round author) = ground arith
  step-authors dag (prunes min_round) = refl

  pub run-authors :
      (dag : InMemDag N) (cs : List (Call N)) → (run dag cs).author_to_index ≡ dag.author_to_index
  run-authors dag [] = refl
  run-authors dag (c ∷ cs) = run-authors (step dag c) cs ∙ step-authors dag c

  ⊑-as_node : (s t : StoredNodeStatus N) → s ⊑ t → as_node t ≡ as_node s
  unfolding as_node
  ⊑-as_node s t same = refl
  ⊑-as_node s t orders = refl

  status_of_node :
      (dag : InMemDag N) (round : ℕ) (author : N.Author) (node : N.Node)
      → get_node dag round author ≡ some node
      → (index : ℕ) × (s : StoredNodeStatus N) × (get N.author_eq author dag.author_to_index
          ≡ some index)
        × (at dag round index ≡ some s)
        × (as_node s ≡ node)
  unfolding get_node get_node_status
  status_of_node dag round author node h = go (get N.author_eq author dag.author_to_index) refl
    where
      Goal : Type 0
      Goal =
          (index : ℕ) × (s : StoredNodeStatus N) × (get N.author_eq author dag.author_to_index
            ≡ some index)
          × (at dag round index ≡ some s)
          × (as_node s ≡ node)

      at_index :
          (index : ℕ) (found : Option (StoredNodeStatus N))
          → get N.author_eq author dag.author_to_index ≡ some index
          → at dag round index ≡ found
          → Goal
      at_index index none e f = ground arith
      at_index index (some s) e f = (index, s, e, f, ground arith)

      go : (found : Option ℕ) → get N.author_eq author dag.author_to_index ≡ found → Goal
      go none e = ground arith
      go (some index) e = at_index index (at dag round index) e refl

  -- A stored node stays the node of its round and author after every history of additions,
  -- orderings and prunings that prunes no bound above its round.
  pub run-get_node :
      (dag : InMemDag N) (cs : List (Call N)) (round : ℕ) (author : N.Author) (node : N.Node)
      → get_node dag round author ≡ some node
      → highest bound 0 cs ≤ round
      → get_node (run dag cs) round author ≡ some node
  unfolding get_node get_node_status
  run-get_node dag cs round author node h l =
      let (index, s, known, there, is) = status_of_node dag round author node h in
      let (t, later, st) = run-Holds dag cs 0 round index s there l in
      ground (arith, run-authors dag cs, ⊑-as_node s t st)

  -- A node of a known author and a round below the bound of a pruning is accepted after that
  -- pruning.
  pub add_node-pruned :
      (dag : InMemDag N) (min_round : ℕ) (node : N.Node) (index : ℕ)
      → get N.author_eq (N.node_author node) dag.author_to_index ≡ some index
      → N.node_round node < min_round
      → (add_node (prune_below dag min_round) node).1 ≡ ok tt
  unfolding prune_below
  add_node-pruned dag min_round node index known below =
      elim (add_node_cases (prune_below dag min_round) node) [
        | inl (unknown, _, _) ↦ ground arith
        | inr (j, _, inl (s, there, _, _)) ↦
            ground (arith, at-prune_below dag min_round (N.node_round node) j)
        | inr (j, _, inr (_, fine, _)) ↦ fine
      ]
