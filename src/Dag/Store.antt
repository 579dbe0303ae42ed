-- ===== src/Dag/Store.antt =====
-- The operations of the store (consensus-core/src/dag/store.rs) on the slots of the rounds.
use aptosbft.Common.{
  ℕ, ◌+◌, ◌<◌, ◌≡◌, refl, ◌&&◌, ◌==◌, leb, if◌then◌else◌, Option, none, some, List, length, Result,
  ok, err, ◌⊎◌, inl, inr, arith, ◌≢◌, Bool-cases,
}
use aptosbft.Common.Map.{get}
use aptosbft.Dag.{
  Nodes, InMemDag, StoredNodeStatus, unordered, ordered, DagError, unknown_author, node_exists, at,
  slots_for, add_at, stored_or_empty, num_authors, mark_as_ordered, add_node, mark_at, prune_below,
  num_authors, mark_ordered,
}
use aptosbft.Dag.Slots.{
  lookup, put, slot, set_slot, lookup-put, lookup-split_off, slot-set_slot, slot-empty_slots,
  length-resize, slot-resize, slot-out_of_range,
}

module _ {N : Nodes} where
  at-put :
      (dag : InMemDag N) (round : ℕ) (nodes : List (Option (StoredNodeStatus N))) (r i : ℕ)
      → at (record dag { nodes_by_round = put round nodes dag.nodes_by_round }) r i
        ≡ (if round == r then slot i nodes else at dag r i)
  at-put dag round nodes r i = ground (arith, lookup-put round r nodes dag.nodes_by_round)

  slot-slots_for :
      (dag : InMemDag N) (round index i : ℕ) → slot i (slots_for dag round index) ≡ at dag round i
  slot-slots_for dag round index i = ground (
    arith,
    slot-resize i (index + 1) (stored_or_empty dag round),
    slot-empty_slots {V = StoredNodeStatus N} i (num_authors dag),
  )

  pub slots_for-length :
      (dag : InMemDag N) (round index : ℕ) → index < length (slots_for dag round index)
  slots_for-length dag round index =
      omega (arith, length-resize (index + 1) (stored_or_empty dag round))

  -- The slots after an addition at an index.
  abbrev pub Added : InMemDag N → N.Node → ℕ → InMemDag N → Result (DagError N) (Unit {0}) → Type 0
  Added dag node index dag' result =
      let round = N.node_round node in
      ((status : StoredNodeStatus N) × (at dag round index ≡ some status)
        × (result ≡ err (node_exists round (N.node_author node)))
        × ((r i : ℕ) → at dag' r i ≡ at dag r i))
      ⊎ ((at dag round index ≡ none)
          × (result ≡ ok tt)
          × ((r i : ℕ)
              → at dag' r i
                ≡ (if round == r && (index == i) then some (unordered node 0) else at dag r i)))

  add_at-Added :
      (dag : InMemDag N) (node : N.Node) (index : ℕ)
      → Added dag node index (add_at dag node index).0 (add_at dag node index).1
  unfolding add_at
  add_at-Added dag node index = go (slot index nodes) refl
    where
      round : ℕ
      round = N.node_round node

      nodes : List (Option (StoredNodeStatus N))
      nodes = slots_for dag round index

      go :
          (s : Option (StoredNodeStatus N))
          → slot index nodes ≡ s
          → Added dag node index (add_at dag node index).0 (add_at dag node index).1
      go (some status) e = inl (
        status,
        ground (arith, slot-slots_for dag round index index),
        ground arith,
        λ r i. ground (arith, at-put dag round nodes r i, slot-slots_for dag round index i),
      )
      go none e = inr (
        ground (arith, slot-slots_for dag round index index),
        ground arith,
        λ r i. ground (
          arith,
          at-put dag round (set_slot index (some (unordered node 0)) nodes) r i,
          slot-slots_for dag round index i,
          slot-set_slot index i (some (unordered node 0)) nodes (slots_for-length dag round index),
        ),
      )

  -- A node of an unknown author is refused and the store is unchanged. Where the slot of the round
  -- and the author's index is taken, the node is refused and every slot is unchanged. Otherwise it
  -- is stored unordered in that slot, and every other slot is unchanged.
  pub add_node_cases :
      (dag : InMemDag N) (node : N.Node)
      → let (dag', result) = add_node dag node in
        ((get N.author_eq (N.node_author node) dag.author_to_index ≡ none)
          × (result ≡ err (unknown_author (N.node_author node)))
          × (dag' ≡ dag))
        ⊎ ((index : ℕ) × (get N.author_eq (N.node_author node) dag.author_to_index ≡ some index)
            × Added dag node index dag' result)
  unfolding add_node
  add_node_cases dag node = go (get N.author_eq (N.node_author node) dag.author_to_index) refl
    where
      go :
          (found : Option ℕ)
          → get N.author_eq (N.node_author node) dag.author_to_index ≡ found
          → ((get N.author_eq (N.node_author node) dag.author_to_index ≡ none)
              × ((add_node dag node).1 ≡ err (unknown_author (N.node_author node)))
              × ((add_node dag node).0 ≡ dag))
            ⊎ ((index : ℕ) × (get N.author_eq (N.node_author node) dag.author_to_index ≡ some index)
                × Added dag node index (add_node dag node).0 (add_node dag node).1)
      go none e = inl (e, ground arith, ground arith)
      go (some index) e = inr (index, e, rw (e, add_node) (add_at-Added dag node index))

  -- What a mark does at an index.
  abbrev pub Marked : InMemDag N → ℕ → ℕ → InMemDag N → Result (DagError N) (Unit {0}) → Type 0
  Marked dag round index dag' result =
      ((node : N.Node) × (power : ℕ) × (at dag round index ≡ some (unordered node power))
        × (result ≡ ok tt)
        × ((r i : ℕ)
            → at dag' r i
              ≡ (if round == r && (index == i) then some (ordered node) else at dag r i)))
      ⊎ ((result ≢ ok tt)
          × ((node : N.Node) (power : ℕ) → at dag round index ≢ some (unordered node power))
          × ((r i : ℕ) → at dag' r i ≡ at dag r i))

  mark_at-Marked :
      (dag : InMemDag N) (round index : ℕ)
      → Marked dag round index (mark_at dag round index).0 (mark_at dag round index).1
  unfolding mark_at mark_as_ordered
  mark_at-Marked dag round index = go (lookup round dag.nodes_by_round) refl
    where
      Goal : Type 0
      Goal = Marked dag round index (mark_at dag round index).0 (mark_at dag round index).1

      at_slot :
          (nodes : List (Option (StoredNodeStatus N))) (s : Option (StoredNodeStatus N))
          → lookup round dag.nodes_by_round ≡ some nodes
          → index < length nodes
          → slot index nodes ≡ s
          → Goal
      at_slot nodes none e h f = inr (ground arith, λ node power. ground arith, λ r i. ground arith)
      at_slot nodes (some (ordered node)) e h f = inr (
        ground arith,
        λ other power. ground arith,
        λ r i. ground (
          arith,
          at-put dag round (set_slot index (some (ordered node)) nodes) r i,
          slot-set_slot index i (some (ordered node)) nodes h,
        ),
      )
      at_slot nodes (some (unordered node power)) e h f = inl (
        node,
        power,
        ground arith,
        ground arith,
        λ r i. ground (
          arith,
          at-put dag round (set_slot index (some (ordered node)) nodes) r i,
          slot-set_slot index i (some (ordered node)) nodes h,
        ),
      )

      go :
          (found : Option (List (Option (StoredNodeStatus N))))
          → lookup round dag.nodes_by_round ≡ found
          → Goal
      go none e = inr (ground arith, λ node power. ground arith, λ r i. ground arith)
      go (some nodes) e = elim (Bool-cases (leb (length nodes) index)) [
        | inl out ↦ inr (
          ground arith,
          λ node power. ground (arith, slot-out_of_range index nodes (ground arith)),
          λ r i. ground arith,
        )
        | inr within ↦ at_slot nodes (slot index nodes) e (ground arith) refl
      ]

  -- A mark of an unknown author is refused and changes nothing. An unordered node is ordered, and
  -- every other slot is unchanged; any other mark is refused and every slot is unchanged.
  pub mark_ordered_cases :
      (dag : InMemDag N) (round : ℕ) (author : N.Author)
      → let (dag', result) = mark_ordered dag round author in
        ((get N.author_eq author dag.author_to_index ≡ none)
          × (result ≡ err (unknown_author author))
          × (dag' ≡ dag))
        ⊎ ((index : ℕ) × (get N.author_eq author dag.author_to_index ≡ some index)
            × Marked dag round index dag' result)
  unfolding mark_ordered
  mark_ordered_cases dag round author = go (get N.author_eq author dag.author_to_index) refl
    where
      go :
          (found : Option ℕ)
          → get N.author_eq author dag.author_to_index ≡ found
          → ((get N.author_eq author dag.author_to_index ≡ none)
              × ((mark_ordered dag round author).1 ≡ err (unknown_author author))
              × ((mark_ordered dag round author).0 ≡ dag))
            ⊎ ((index : ℕ) × (get N.author_eq author dag.author_to_index ≡ some index)
                × Marked dag round index
                    (mark_ordered dag round author).0
                    (mark_ordered dag round author).1)
      go none e = inl (e, ground arith, ground arith)
      go (some index) e = inr (index, e, rw (e, mark_ordered) (mark_at-Marked dag round index))

  -- Pruning keeps exactly the rounds from the given one on.
  pub at-prune_below :
      (dag : InMemDag N) (min_round r i : ℕ)
      → at (prune_below dag min_round) r i ≡ (if leb min_round r then at dag r i else none)
  unfolding prune_below
  at-prune_below dag min_round r i = ground (arith, lookup-split_off min_round r dag.nodes_by_round)
