-- ===== src/StateSync.antt =====
-- State synchronization: consensus-core/src/consensus/state_sync.rs.
pub mod Ready
pub mod Status
pub mod Queries
use Prim.Native.String.{String}
use aptosbft.Common.{
  ℕ, zero, suc, ◌+◌, ◌-◌, ◌≤◌, Bool, true, false, ◌&&◌, not, ltb, leb, ◌==◌, min, max, u64,
  if◌then◌else◌, Option, none, some, List, [], ◌∷◌, length, highest, Result, ok, err, panic, ◌>>=◌,
  ◌>>◌, ensure, ℕ_discrete,
}
use aptosbft.Common.Map.{Map, get, insert, remove, contains_key, keys}
use aptosbft.Traits.{Traits}

pub record StateSyncConfig : Type 0 where
  pub max_batch_size : ℕ
  pub sync_timeout_ms : ℕ
  pub max_retries : ℕ
  pub verify_from_multiple_peers : Bool

unfoldable pub default_config : StateSyncConfig
default_config = record {
  max_batch_size = 100;
  sync_timeout_ms = 5000;
  max_retries = 3;
  verify_from_multiple_peers = true;
}

-- `InProgress` holds the target round, the current round and the number of received blocks.
pub data SyncStatus : Type 0 where
  idle : SyncStatus
  in_progress : ℕ → ℕ → ℕ → SyncStatus
  completed : ℕ → SyncStatus
  failed : String → SyncStatus

abbrev pub is_in_progress : SyncStatus → Bool
is_in_progress (in_progress _ _ _) = true
is_in_progress _ = false

abbrev pub target_round : SyncStatus → Option ℕ
target_round (in_progress target current received) = some target
target_round _ = none

pub record SyncRequest : Type 0 where
  pub target_round : ℕ
  pub start_round : ℕ
  pub epoch : ℕ

unfoldable pub covers_round : SyncRequest → ℕ → Bool
covers_round r round = leb r.start_round round && leb round r.target_round

unfoldable pub round_count : SyncRequest → ℕ
round_count r = u64 (r.target_round - r.start_round + 1)

pub data SyncError : Type 0 where
  already_in_progress no_sync_in_progress : SyncError
  not_sequential : ℕ → ℕ → SyncError

pub record SyncResponse (T : Traits) : Type 0 where
  pub blocks : List T.Block
  pub epoch : ℕ
  pub is_final : Bool

-- `received_blocks` is keyed by the round; the last request of `pending_requests` comes first.
pub record StateSync (T : Traits) : Type 0 where
  pub config : StateSyncConfig
  pub status : SyncStatus
  pub pending_requests : List SyncRequest
  pub received_blocks : Map ℕ T.Block
  pub highest_known_round : Option ℕ
  pub current_round : ℕ

-- `keys().copied().max()`.
abbrev pub greatest : List ℕ → Option ℕ
greatest [] = none
greatest (k ∷ ks) = some (highest (λ n. n) k ks)

-- The loop over the windows of two blocks, from the round of a block on.
unfoldable pub sequential_from : (T : Traits) → ℕ → List T.Block → Result SyncError (Unit {0})
sequential_from T round [] = ok tt
sequential_from T round (b ∷ bs) =
    let rest = sequential_from T (T.block_round b) bs in
    do ensure (T.block_round b == u64 (round + 1)) (not_sequential round (T.block_round b)); rest

-- The loop over the blocks of a response.
unfoldable pub receive : (T : Traits) → Map ℕ T.Block → List T.Block → Map ℕ T.Block
receive T m [] = m
receive T m (b ∷ bs) = receive T (insert ℕ_discrete (T.block_round b) b m) bs

module _ {T : Traits} where
  unfoldable pub verify_sequential : SyncResponse T → Result SyncError (Unit {0})
  unfolding sequential_from
  verify_sequential response = elim response.blocks [
    | [] ↦ ok tt
    | b ∷ bs ↦ sequential_from T (T.block_round b) bs
  ]

  unfoldable pub new : StateSyncConfig → ℕ → StateSync T
  new config current_round = record {
    config = config;
    status = idle;
    pending_requests = [];
    received_blocks = [];
    highest_known_round = none;
    current_round = current_round;
  }

  unfoldable pub start_sync : StateSync T → ℕ → ℕ → StateSync T × Result SyncError (Unit {0})
  start_sync s target epoch =
      let batch_size = min (target - s.current_round) s.config.max_batch_size in
      if is_in_progress s.status
      then (s, err already_in_progress)
      else if leb target s.current_round
      then (record s { status = completed 0 }, ok tt)
      else (
        record s {
          status = in_progress target s.current_round 0;
          pending_requests =
              record {
                target_round = u64 (s.current_round + batch_size);
                start_round = u64 (s.current_round + 1);
                epoch = epoch;
              }
              ∷ s.pending_requests;
        },
        ok tt,
      )

  -- The update of the status with the greatest received round.
  unfoldable pub progress : StateSync T → ℕ → SyncResponse T → ℕ → StateSync T
  progress s target response top =
      let received = length s.received_blocks in
      let request : SyncRequest = record {
        target_round = min target (u64 (top + s.config.max_batch_size));
        start_round = u64 (top + 1);
        epoch = response.epoch;
      } in
      if leb target top then record s { status = completed received } else record s {
        status = in_progress target top received;
        pending_requests =
            if response.is_final then request ∷ s.pending_requests else s.pending_requests;
      }

  abbrev pub update_status : StateSync T → ℕ → SyncResponse T → StateSync T
  update_status s target response = elim (greatest (keys s.received_blocks)) [
    | none ↦ s
    | some top ↦ progress s target response top
  ]

  -- The epoch of the response is not compared with anything.
  unfoldable pub add_sync_response :
      StateSync T → SyncResponse T → StateSync T × Result SyncError (Unit {0})
  unfolding receive progress
  add_sync_response s response = elim (target_round s.status) [
    | none ↦ (s, err no_sync_in_progress)
    | some target ↦ elim (verify_sequential response) [
      | ok _ ↦
          let s' = record s { received_blocks = receive T s.received_blocks response.blocks } in
          (update_status s' target response, ok tt)
      | err e ↦ (s, err e)
      | panic ↦ (s, panic)
    ]
  ]

  unfoldable pub take_next_request : StateSync T → StateSync T × Option SyncRequest
  take_next_request s = elim s.pending_requests [
    | [] ↦ (s, none)
    | request ∷ requests ↦ (record s { pending_requests = requests }, some request)
  ]

  -- The loop of `ready_blocks`, with fuel; `none` means that the fuel ran out.
  unfoldable pub ready_from : ℕ → StateSync T → Option (StateSync T × List T.Block)
  ready_from zero s = none
  ready_from (suc fuel) s =
      let next_round = u64 (s.current_round + 1) in
      let rest = ready_from fuel (record s {
        received_blocks = remove ℕ_discrete next_round s.received_blocks;
        current_round = next_round;
      }) in
      elim (get ℕ_discrete next_round s.received_blocks) [
        | none ↦ some (s, [])
        | some block ↦ elim rest [ none ↦ none | some (s', blocks) ↦ some (s', block ∷ blocks) ]
      ]

  -- Every round of the loop takes a block, so that it ends within its fuel (`Ready`).
  unfoldable pub ready_blocks : StateSync T → StateSync T × List T.Block
  unfolding ready_from
  ready_blocks s = elim (ready_from (length s.received_blocks + 1) s) [
    | none ↦ (s, [])
    | some r ↦ r
  ]

  unfoldable pub update_highest_known_round : StateSync T → ℕ → StateSync T
  update_highest_known_round s round = elim s.highest_known_round [
    | some current ↦ record s { highest_known_round = some (max current round) }
    | none ↦ record s { highest_known_round = some round }
  ]

  unfoldable pub needs_sync : StateSync T → Bool
  needs_sync s = elim s.highest_known_round [
    | some top ↦ ltb s.current_round top && not (is_in_progress s.status)
    | none ↦ false
  ]

  unfoldable pub cancel : StateSync T → StateSync T
  cancel s = record s { status = idle; pending_requests = []; received_blocks = [] }

  unfoldable pub reset : StateSync T → StateSync T
  reset s = record s {
    status = idle;
    pending_requests = [];
    received_blocks = [];
    highest_known_round = none;
  }

  unfoldable pub pending_block_count : StateSync T → ℕ
  pending_block_count s = length s.received_blocks

  unfoldable pub has_block : StateSync T → ℕ → Bool
  has_block s round = contains_key ℕ_discrete round s.received_blocks

  unfoldable pub get_block : StateSync T → ℕ → Option T.Block
  get_block s round = get ℕ_discrete round s.received_blocks
