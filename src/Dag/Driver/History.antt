-- ===== src/Dag/Driver/History.antt =====
-- Histories of a driver (consensus-core/src/dag/driver.rs).
use aptosbft.Common.{
  ℕ, ◌≡◌, refl, ◌∙◌, List, [], ◌∷◌, max, highest, false, arith, ap, ok, true, ◌⊎◌,
}
use aptosbft.Dag.{Nodes, lookup}
use aptosbft.Dag
use aptosbft.Dag.Ordering.{AnchorElection}
use aptosbft.Dag.Driver.{
  DagDriver, DagDriverConfig, new, process_certified_node, enter_new_round, process_pending,
  process_nodes, add_pending, prune, get_strong_links,
}
use aptosbft.Dag.Slots.{lookup}

-- The methods that take the driver mutably.
pub data Call (N : Nodes) : Type 0 where
  processes : N.Node → Call N
  enters : ℕ → Call N
  adds : N.Node → Call N
  processes_pending : Call N
  prunes : Call N

-- The round that a call asks for.
abbrev pub asked : {N : Nodes} → Call N → ℕ
asked (processes node) = 0
asked (enters round) = round
asked (adds node) = 0
asked processes_pending = 0
asked prunes = 0

module _ {N : Nodes} where
  abbrev pub step : DagDriver N → Call N → DagDriver N
  step d (processes node) = (process_certified_node d node).0
  step d (enters round) = (enter_new_round d round).0
  step d (adds node) = add_pending d node
  step d processes_pending = (process_pending d).0
  step d prunes = (prune d).0

  abbrev pub run : DagDriver N → List (Call N) → DagDriver N
  run d [] = d
  run d (call ∷ calls) = run (step d call) calls

  process_certified_node-stays :
      (d : DagDriver N) (node : N.Node) → process_certified_node d node ≡ (d, ok tt)
  unfolding process_certified_node
  process_certified_node-stays d node = refl

  process_nodes-drains :
      (d : DagDriver N) (nodes : List N.Node)
      → d.pending_nodes ≡ nodes
      → process_nodes d nodes ≡ record d { pending_nodes = [] }
  unfolding process_nodes
  process_nodes-drains d [] h = ground arith
  process_nodes-drains d (node ∷ nodes) h =
      ground (arith, process_nodes-drains (record d { pending_nodes = nodes }) nodes refl)

  -- Processing the pending nodes empties the queue and changes nothing else, unless one is going on.
  pub process_pending_cases :
      (d : DagDriver N)
      → ((d.is_processing ≡ true) × (process_pending d ≡ (d, ok tt)))
        ⊎ ((d.is_processing ≡ false)
            × (process_pending d ≡ (record d { pending_nodes = [] }, ok tt)))
  unfolding process_pending
  process_pending_cases d =
      ground (arith, process_nodes-drains (record d { is_processing = true }) d.pending_nodes refl)

  -- The store and the order rule stay, no processing is left open, and the round is as asked.
  abbrev Stands : DagDriver N → DagDriver N → ℕ → Type 0
  Stands d e round =
      (e.dag ≡ d.dag)
      × (e.order_rule ≡ d.order_rule)
      × (e.is_processing ≡ false)
      × (e.current_round ≡ round)

  step-Stands :
      (d : DagDriver N) (call : Call N)
      → d.is_processing ≡ false
      → Stands d (step d call) (max d.current_round (asked call))
  unfolding enter_new_round add_pending prune
  step-Stands d (processes node) h = ground (arith, process_certified_node-stays d node)
  step-Stands d (enters round) h = ground arith
  step-Stands d (adds node) h = ground arith
  step-Stands d processes_pending h = ground (arith, process_pending_cases d)
  step-Stands d prunes h = ground arith

  run-Stands :
      (d : DagDriver N) (calls : List (Call N))
      → d.is_processing ≡ false
      → Stands d (run d calls) (highest asked d.current_round calls)
  run-Stands d [] h = (refl, refl, h, refl)
  run-Stands d (call ∷ calls) h =
      let (dag, rule, idle, round) = step-Stands d call h in
      let (dag', rule', idle', round') = run-Stands (step d call) calls idle in
      (dag' ∙ dag, rule' ∙ rule, idle', round' ∙ ap (λ r. highest asked r calls) round)

  -- After any history of a new driver its round is the greatest of the start and the rounds that
  -- were asked for, no processing is open, the lowest unordered round is the start, and no round
  -- has a strong link, whatever nodes were processed.
  pub run-new :
      (authors : List N.Author) (election : AnchorElection N.Author) (start : ℕ)
      (config : DagDriverConfig) (calls : List (Call N))
      → let d = run (new authors election start config) calls in
        (d.current_round ≡ highest asked start calls)
        × (d.is_processing ≡ false)
        × (d.order_rule.lowest_unordered_round ≡ start)
        × ((round : ℕ) → get_strong_links d round ≡ [])
  unfolding new get_strong_links lookup
  run-new authors election start config calls =
      let (dag, rule, idle, round) = run-Stands (new authors election start config) calls refl in
      (round, idle, ap (λ r. r.lowest_unordered_round) rule, λ r. ap (λ s. Dag.get_round s r) dag)
