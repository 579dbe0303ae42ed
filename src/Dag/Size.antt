-- ===== src/Dag/Size.antt =====
-- The order of the rounds and the number of the nodes of the store (consensus-core/src/dag/store.rs).
use aptosbft.Common.{
  ℕ, zero, suc, ◌+◌, ◌-◌, ◌<◌, ◌≤◌, ◌≡◌, refl, if◌then◌else◌, Option, none, some, List, [], ◌∷◌,
  ◌++◌, length, sum, is_ok, arith,
}
use aptosbft.Common.Map.{get}
use aptosbft.Dag.{
  Nodes, InMemDag, StoredNodeStatus, unordered, present, as_node, slots_for, stored_or_empty,
  num_authors, add_at, add_node, mark_at, mark_ordered, prune_below, len, lowest_round,
  mark_as_ordered,
}
use aptosbft.Dag.Slots.{
  lookup, put, Above, put-Above, split_off-Above, slot, set_slot, empty_slots, resize,
}
use aptosbft.Dag.Store.{slots_for-length}
use aptosbft.Dag.History.{Call, adds, marks, prunes, step, run}

module _ {ℓ} {V : Type ℓ} where
  pub Above-le : (b k : ℕ) (v : V) (m : List (ℕ × V)) → Above b m → lookup k m ≡ some v → b ≤ k
  unfolding lookup
  Above-le b k v [] a h = ground arith
  Above-le b k v ((j, w) ∷ m) a h = ground (arith, Above-le (j + 1) k v m a.1, a)

  lookup-below : (b k : ℕ) (m : List (ℕ × V)) → Above b m → k < b → lookup k m ≡ none
  unfolding lookup
  lookup-below b k [] a h = refl
  lookup-below b k ((j, w) ∷ m) a h = ground (arith, lookup-below (j + 1) k m a.1, a)

  abbrev pub or_zero : (V → ℕ) → Option V → ℕ
  or_zero f none = 0
  or_zero f (some v) = f v

  sum-put :
      (f : V → ℕ) (b k : ℕ) (v : V) (m : List (ℕ × V))
      → Above b m
      → sum (λ e. f e.1) (put k v m) + or_zero f (lookup k m) ≡ sum (λ e. f e.1) m + f v
  unfolding put lookup
  sum-put f b k v [] a = omega arith
  sum-put f b k v ((j, w) ∷ m) a =
      ground (arith, sum-put f (j + 1) k v m a.1, lookup-below (j + 1) k m a.1)

module _ {ℓ κ} {A : Type ℓ} {B : Type κ} (f : A → B) where
  present-append :
      (n : ℕ) (xs : List (Option A))
      → length (present f (xs ++ empty_slots n)) ≡ length (present f xs)
  unfolding empty_slots
  present-append zero [] = refl
  present-append (suc n) [] = present-append n []
  present-append n (none ∷ xs) = present-append n xs
  present-append n (some x ∷ xs) = omega (arith, present-append n xs)

  present-set_slot :
      (i : ℕ) (x : A) (xs : List (Option A))
      → i < length xs
      → slot i xs ≡ none
      → length (present f (set_slot i (some x) xs)) ≡ length (present f xs) + 1
  unfolding set_slot slot
  present-set_slot i x [] h e = absurd (omega arith)
  present-set_slot zero x (none ∷ xs) h e = omega arith
  present-set_slot zero x (some y ∷ xs) h e = ground arith
  present-set_slot (suc i) x (none ∷ xs) h e = present-set_slot i x xs (omega arith) e
  present-set_slot (suc i) x (some y ∷ xs) h e =
      omega (arith, present-set_slot i x xs (omega arith) e)

module _ {N : Nodes} where
  -- The keys of the map ascend.
  abbrev pub IsOrdered : InMemDag N → Type 0
  IsOrdered dag = Above 0 dag.nodes_by_round

  put-IsOrdered :
      (dag : InMemDag N) (round : ℕ) (nodes : List (Option (StoredNodeStatus N)))
      → IsOrdered dag
      → IsOrdered (record dag { nodes_by_round = put round nodes dag.nodes_by_round })
  put-IsOrdered dag round nodes a = put-Above 0 round nodes dag.nodes_by_round (omega arith) a

  add_at-IsOrdered :
      (dag : InMemDag N) (node : N.Node) (index : ℕ)
      → IsOrdered dag
      → IsOrdered (add_at dag node index).0
  unfolding add_at
  add_at-IsOrdered dag node index a =
      let nodes = slots_for dag (N.node_round node) index in
      ground (
        arith,
        put-IsOrdered dag (N.node_round node) nodes a,
        put-IsOrdered dag (N.node_round node) (set_slot index (some (unordered node 0)) nodes) a,
      )

  mark_at-IsOrdered :
      (dag : InMemDag N) (round index : ℕ) → IsOrdered dag → IsOrdered (mark_at dag round index).0
  unfolding mark_at
  mark_at-IsOrdered dag round index a = go (lookup round dag.nodes_by_round) refl
    where
      at_slot :
          (nodes : List (Option (StoredNodeStatus N))) (s : Option (StoredNodeStatus N))
          → lookup round dag.nodes_by_round ≡ some nodes
          → slot index nodes ≡ s
          → IsOrdered (mark_at dag round index).0
      at_slot nodes none e f = ground arith
      at_slot nodes (some s) e f =
          ground
            (arith, put-IsOrdered dag round (set_slot index (some (mark_as_ordered s).0) nodes) a)

      go :
          (found : Option (List (Option (StoredNodeStatus N))))
          → lookup round dag.nodes_by_round ≡ found
          → IsOrdered (mark_at dag round index).0
      go none e = rw (e, mark_at) a
      go (some nodes) e = at_slot nodes (slot index nodes) e refl

  add_node-IsOrdered :
      (dag : InMemDag N) (node : N.Node) → IsOrdered dag → IsOrdered (add_node dag node).0
  unfolding add_node
  add_node-IsOrdered dag node a = go (get N.author_eq (N.node_author node) dag.author_to_index) refl
    where
      go :
          (found : Option ℕ)
          → get N.author_eq (N.node_author node) dag.author_to_index ≡ found
          → IsOrdered (add_node dag node).0
      go none e = rw (e, add_node) a
      go (some index) e = rw (e, add_node) (add_at-IsOrdered dag node index a)

  mark_ordered-IsOrdered :
      (dag : InMemDag N) (round : ℕ) (author : N.Author)
      → IsOrdered dag
      → IsOrdered (mark_ordered dag round author).0
  unfolding mark_ordered
  mark_ordered-IsOrdered dag round author a = go (get N.author_eq author dag.author_to_index) refl
    where
      go :
          (found : Option ℕ)
          → get N.author_eq author dag.author_to_index ≡ found
          → IsOrdered (mark_ordered dag round author).0
      go none e = rw (e, mark_ordered) a
      go (some index) e = rw (e, mark_ordered) (mark_at-IsOrdered dag round index a)

  step-IsOrdered : (dag : InMemDag N) (c : Call N) → IsOrdered dag → IsOrdered (step dag c)
  unfolding prune_below
  step-IsOrdered dag (adds node) a = add_node-IsOrdered dag node a
  step-IsOrdered dag (marks round author) a = mark_ordered-IsOrdered dag round author a
  step-IsOrdered dag (prunes min_round) a = split_off-Above 0 min_round dag.nodes_by_round a

  -- Every history keeps the rounds of the map in ascending order.
  pub run-IsOrdered :
      (dag : InMemDag N) (cs : List (Call N)) → IsOrdered dag → IsOrdered (run dag cs)
  run-IsOrdered dag [] a = a
  run-IsOrdered dag (c ∷ cs) a = run-IsOrdered (step dag c) cs (step-IsOrdered dag c a)

  count-slots_for :
      (dag : InMemDag N) (round index : ℕ)
      → length (present as_node (slots_for dag round index))
        ≡ or_zero (λ nodes. length (present as_node nodes)) (lookup round dag.nodes_by_round)
  unfolding resize
  count-slots_for dag round index = ground (
    arith,
    present-append as_node (index + 1 - length (stored_or_empty dag round))
        (stored_or_empty dag round),
    present-append {A = StoredNodeStatus N} as_node (num_authors dag) [],
  )

  len-add_at :
      (dag : InMemDag N) (node : N.Node) (index : ℕ)
      → IsOrdered dag
      → len (add_at dag node index).0 ≡ len dag + (if is_ok (add_at dag node index).1 then 1 else 0)
  unfolding len add_at
  len-add_at dag node index a =
      let round = N.node_round node in
      let nodes = slots_for dag round index in
      let count = λ (xs : List (Option (StoredNodeStatus N))). length (present as_node xs) in
      ground (
        arith,
        sum-put count 0 round nodes dag.nodes_by_round a,
        sum-put count 0 round (set_slot index (some (unordered node 0)) nodes) dag.nodes_by_round a,
        present-set_slot as_node index (unordered node 0) nodes (slots_for-length dag round index),
        count-slots_for dag round index,
      )

  -- Where the rounds of the map ascend, the number of the stored nodes grows by one where an
  -- addition succeeds and stays where it fails.
  pub len-add_node :
      (dag : InMemDag N) (node : N.Node)
      → IsOrdered dag
      → len (add_node dag node).0 ≡ len dag + (if is_ok (add_node dag node).1 then 1 else 0)
  unfolding add_node
  len-add_node dag node a = go (get N.author_eq (N.node_author node) dag.author_to_index) refl
    where
      go :
          (found : Option ℕ)
          → get N.author_eq (N.node_author node) dag.author_to_index ≡ found
          → len (add_node dag node).0 ≡ len dag + (if is_ok (add_node dag node).1 then 1 else 0)
      go none e = ground arith
      go (some index) e = rw (e, add_node) (len-add_at dag node index a)

  -- Where the rounds ascend, the lowest round is at most every round of the map.
  pub lowest_round-le :
      (dag : InMemDag N) (round : ℕ) {nodes : List (Option (StoredNodeStatus N))}
      → IsOrdered dag
      → lookup round dag.nodes_by_round ≡ some nodes
      → lowest_round dag ≤ round
  unfolding lowest_round
  lowest_round-le dag round a h = go dag.nodes_by_round a h
    where
      go :
          (m : List (ℕ × List (Option (StoredNodeStatus N))))
          {nodes : List (Option (StoredNodeStatus N))}
          → Above 0 m
          → lookup round m ≡ some nodes
          → elim m [ [] ↦ 0 | (first, _) ∷ _ ↦ first ] ≤ round
      go [] a h = omega arith
      go ((first, v) ∷ m) {nodes} a h =
          Above-le first round nodes ((first, v) ∷ m) (omega arith, a.1) h
