-- ===== src/Dag/Ordering.antt =====
-- The ordering of the DAG: consensus-core/src/dag/ordering.rs. Rounds are `u64` numbers.
pub mod Anchors
use aptosbft.Common.{
  ℕ, suc, Bool, false, Option, none, some, List, [], ◌∷◌, get_elem?, ite, Result, ok, panic,
}
use aptosbft.Dag.{Nodes, InMemDag}
use aptosbft.Dag.Types.{Ordering, equal}

pub record OrderingConfig : Type 0 where
  pub window_size : ℕ
  pub anchor_interval : ℕ

-- `OrderingConfig::default`.
abbrev pub default_config : OrderingConfig
default_config = record { window_size = 100; anchor_interval = 2 }

pub record CommitEvent {ℓ} (ID A : Type ℓ) : Type ℓ where
  pub anchor_id : ID
  pub parents : List A
  pub failed_authors : List A

pub record OrderingResult (N : Nodes) : Type 0 where
  pub ordered_nodes : List N.Node
  pub commit_event : CommitEvent ℕ N.Author

-- `AnchorElection`. Its `update_reputation` returns nothing and takes the election immutably.
pub record AnchorElection (A : Type 0) : Type 0 where
  pub get_anchor : ℕ → Result (Unit {0}) A

pub record RoundRobinAnchorElection {ℓ} (A : Type ℓ) : Type ℓ where
  pub authors : List A

module _ {ℓ} {A : Type ℓ} where
  -- `position`, from an index on.
  abbrev pub position : Discrete A → A → ℕ → List A → Option ℕ
  position d author index [] = none
  position d author index (a ∷ authors) =
      let rest = position d author (suc index) authors in ite (d a author) (some index) rest

  unfoldable pub get_author_index : Discrete A → RoundRobinAnchorElection A → A → Option ℕ
  get_author_index d e author = position d author 0 e.authors

  abbrev pub or_panic : Option A → Result (Unit {0}) A
  or_panic none = panic
  or_panic (some a) = ok a

  abbrev pub or_else : Option A → Option A → Option A
  or_else none o = o
  or_else (some a) o = some a

  -- The index is a constant: the round is not read.
  unfoldable pub round_robin_anchor : RoundRobinAnchorElection A → ℕ → Result (Unit {0}) A
  round_robin_anchor e round =
      let index : ℕ = 0 in or_panic (or_else (get_elem? e.authors index) (get_elem? e.authors 0))

-- The round robin as an anchor election.
abbrev pub anchor_election : {A : Type 0} → RoundRobinAnchorElection A → AnchorElection A
anchor_election e = record { get_anchor = round_robin_anchor e }

pub record OrderRule (N : Nodes) : Type 0 where
  pub dag : InMemDag N
  pub anchor_election : AnchorElection N.Author
  pub lowest_unordered_round : ℕ
  pub config : OrderingConfig

module _ {N : Nodes} where
  unfoldable pub new : InMemDag N → AnchorElection N.Author → ℕ → OrderingConfig → OrderRule N
  new dag anchor_election lowest_unordered_round config = record {
    dag = dag;
    anchor_election = anchor_election;
    lowest_unordered_round = lowest_unordered_round;
    config = config;
  }

  -- The methods below are placeholders of the source, which order nothing.
  unfoldable pub process_new_node :
      OrderRule N → N.Node → OrderRule N × Result (Unit {0}) (Option (OrderingResult N))
  process_new_node r node = (r, ok none)

  unfoldable pub process_all :
      OrderRule N → OrderRule N × Result (Unit {0}) (List (OrderingResult N))
  process_all r = (r, ok [])

  unfoldable pub try_order_from_round :
      OrderRule N → ℕ → OrderRule N × Result (Unit {0}) (Option (OrderingResult N))
  try_order_from_round r start_round = (r, ok none)

  unfoldable pub find_anchor_with_enough_votes : OrderRule N → ℕ → Result (Unit {0}) (Option N.Node)
  find_anchor_with_enough_votes r start_round = ok none

  unfoldable pub order_anchor : OrderRule N → N.Node → OrderRule N × Result (Unit {0}) (List N.Node)
  order_anchor r anchor = (r, ok [])

  unfoldable pub create_commit_event : OrderRule N → List N.Node → CommitEvent ℕ N.Author
  create_commit_event r ordered_nodes = record {
    anchor_id = r.lowest_unordered_round;
    parents = [];
    failed_authors = [];
  }

  unfoldable pub can_trigger_ordering : OrderRule N → ℕ → Bool
  can_trigger_ordering r round = false

  unfoldable pub compare_rounds : OrderRule N → ℕ → ℕ → Ordering
  compare_rounds r r1 r2 = equal

  unfoldable pub next_round : OrderRule N → ℕ → ℕ
  next_round r round = round
