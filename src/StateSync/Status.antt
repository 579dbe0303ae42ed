-- ===== src/StateSync/Status.antt =====
-- Histories of a synchronization (consensus-core/src/consensus/state_sync.rs) and its status.
use aptosbft.Common.{
  if◌then◌else◌, ◌==◌, zero, suc, ◌⊎◌, ◌≢◌, err, panic, Option-cases, u64, ℕ, ◌+◌, ◌<◌, ◌≡◌, refl,
  Option, none, some, List, [], ◌∷◌, length, Result, ok, arith, ℕ_discrete, subst, inl, inr, Bool,
  u64_max, ◌≤◌,
}
use aptosbft.Common.Map.{Map, get, remove, insert, keys, get-insert, insert-IsDistinct}
use aptosbft.Traits.{Traits}
use aptosbft.StateSync.{
  greatest, target_round, StateSync, StateSyncConfig, SyncResponse, SyncStatus, idle, in_progress,
  completed, failed, new, start_sync, add_sync_response, take_next_request, ready_blocks,
  ready_from, update_highest_known_round, cancel, reset, receive, verify_sequential, progress,
  update_status,
}
use aptosbft.StateSync.Ready.{IsReady, ready_blocks-IsReady, IsFiled, after, after-IsFiled}

pub data Call (T : Traits) : Type 0 where
  starts : ℕ → ℕ → Call T
  responds : SyncResponse T → Call T
  takes_request takes_blocks cancels resets : Call T
  learns : ℕ → Call T

-- In progress, the current round is below the target.
abbrev pub IsBehind : SyncStatus → Type 0
IsBehind (in_progress target current received) = current < target
IsBehind idle = Unit {0}
IsBehind (completed _) = Unit {0}
IsBehind (failed _) = Unit {0}

receive-IsFiled :
    (T : Traits) (m : Map ℕ T.Block) (bs : List T.Block) → IsFiled T m → IsFiled T (receive T m bs)
unfolding receive
receive-IsFiled T m [] f = f
receive-IsFiled T m (b ∷ bs) f = receive-IsFiled T (insert ℕ_discrete (T.block_round b) b m) bs (
  insert-IsDistinct ℕ_discrete (T.block_round b) b m f.0,
  λ round c h. ground (arith, get-insert ℕ_discrete (T.block_round b) round b m, f.1 round c),
)

nothing-IsFiled : (T : Traits) → IsFiled T []
unfolding get
nothing-IsFiled T = (tt, λ round b h. cc)

is_ok_cases {ℓ} : {E : Type ℓ} (r : Result E (Unit {0})) → (r ≡ ok tt) ⊎ (r ≢ ok tt)
is_ok_cases (ok _) = inl refl
is_ok_cases (err e) = inr λ h. cc
is_ok_cases panic = inr λ h. cc

module _ {T : Traits} where
  abbrev pub step : StateSync T → Call T → StateSync T
  step s (starts target epoch) = (start_sync s target epoch).0
  step s (responds response) = (add_sync_response s response).0
  step s takes_request = (take_next_request s).0
  step s takes_blocks = (ready_blocks s).0
  step s cancels = cancel s
  step s resets = reset s
  step s (learns round) = update_highest_known_round s round

  abbrev pub run : StateSync T → List (Call T) → StateSync T
  run s [] = s
  run s (c ∷ cs) = run (step s c) cs

  abbrev pub Inv : StateSync T → Type 0
  Inv s = IsFiled T s.received_blocks × IsBehind s.status

  carry : (s t : StateSync T) → s ≡ t → Inv s → Inv t
  carry s t e = subst Inv e

  progress-Inv :
      (s : StateSync T) (target : ℕ) (response : SyncResponse T) (top : ℕ)
      → Inv s
      → Inv (progress s target response top)
  unfolding progress
  progress-Inv s target response top h = ground arith

  update_status-Inv :
      (s : StateSync T) (target : ℕ) (response : SyncResponse T)
      → Inv s
      → Inv (update_status s target response)
  unfolding progress
  update_status-Inv s target response h = go (greatest (keys s.received_blocks)) refl
    where
      go :
          (top : Option ℕ)
          → greatest (keys s.received_blocks) ≡ top
          → Inv (update_status s target response)
      go none e = rw (e, update_status) h
      go (some top) e = rw (e, update_status) (progress-Inv s target response top h)

  ready_from-Inv :
      (fuel : ℕ) (s : StateSync T) (r : StateSync T × List T.Block)
      → ready_from fuel s ≡ some r
      → Inv s
      → Inv r.0
  unfolding ready_from
  ready_from-Inv zero s r e h = ground arith
  ready_from-Inv (suc fuel) s r e h =
      elim (Option-cases (get ℕ_discrete (u64 (s.current_round + 1)) s.received_blocks)) [
        | inl f ↦ carry s r.0 (ground arith) h
        | inr (block, f) ↦ elim (Option-cases (ready_from fuel (after s))) [
          | inl g ↦ ground arith
          | inr (q, g) ↦
              carry q.0 r.0 (ground arith)
                (ready_from-Inv fuel (after s) q g (after-IsFiled s h.0, h.1))
        ]
      ]

  ready_blocks-Inv : (s : StateSync T) → Inv s → Inv (ready_blocks s).0
  unfolding ready_blocks
  ready_blocks-Inv s h = elim (Option-cases (ready_from (length s.received_blocks + 1) s)) [
    | inl f ↦ carry s (ready_blocks s).0 (ground arith) h
    | inr (q, f) ↦
        carry q.0 (ready_blocks s).0 (ground arith)
          (ready_from-Inv (length s.received_blocks + 1) s q f h)
  ]

  add_sync_response-Inv :
      (s : StateSync T) (response : SyncResponse T) → Inv s → Inv (add_sync_response s response).0
  unfolding add_sync_response
  add_sync_response-Inv s response h =
      let s' = record s { received_blocks = receive T s.received_blocks response.blocks } in
      let received : Inv s' = (receive-IsFiled T s.received_blocks response.blocks h.0, h.1) in
      elim (Option-cases (target_round s.status)) [
        | inl f ↦ carry s (add_sync_response s response).0 (ground arith) h
        | inr (target, f) ↦ elim (is_ok_cases (verify_sequential response)) [
          | inl g ↦
              carry (update_status s' target response) (add_sync_response s response).0
                (ground arith) (update_status-Inv s' target response received)
          | inr g ↦ carry s (add_sync_response s response).0 (ground arith) h
        ]
      ]

  step-Inv : (s : StateSync T) (c : Call T) → Inv s → Inv (step s c)
  unfolding start_sync take_next_request cancel reset update_highest_known_round
  step-Inv s (starts target epoch) h = ground arith
  step-Inv s (responds response) h = add_sync_response-Inv s response h
  step-Inv s takes_request h = ground arith
  step-Inv s takes_blocks h = ready_blocks-Inv s h
  step-Inv s cancels h = (nothing-IsFiled T, tt)
  step-Inv s resets h = (nothing-IsFiled T, tt)
  step-Inv s (learns round) h = ground arith

  run-Inv : (s : StateSync T) (cs : List (Call T)) → Inv s → Inv (run s cs)
  run-Inv s [] h = h
  run-Inv s (c ∷ cs) h = run-Inv (step s c) cs (step-Inv s c h)

new-Inv : (T : Traits) (config : StateSyncConfig) (current : ℕ) → Inv (new {T = T} config current)
unfolding new
new-Inv T config current = (nothing-IsFiled T, tt)

module _ {T : Traits} where
  -- After any history of a new synchronization, while the current round with the number of the kept
  -- blocks is below the greatest u64, ready_blocks ends and returns the blocks that were kept for
  -- the rounds that follow the current one, in order, all of them up to the first round without
  -- one. The current round is then that of the last, the rounds of the returned blocks are no
  -- longer kept, every other round keeps what it kept, and nothing else changes.
  pub run-IsReady :
      (config : StateSyncConfig) (current : ℕ) (cs : List (Call T))
      → (run (new config current) cs).current_round
          + length (run (new config current) cs).received_blocks
        < u64_max
      → IsReady (run (new config current) cs) (ready_blocks (run (new config current) cs))
  run-IsReady config current cs b =
      ready_blocks-IsReady (run (new config current) cs) b
        (run-Inv (new config current) cs (new-Inv T config current)).0

  -- After any history of a new synchronization, one that is in progress has a current round below
  -- its target round.
  pub run-IsBehind :
      (config : StateSyncConfig) (current : ℕ) (cs : List (Call T))
      → IsBehind (run (new config current) cs).status
  run-IsBehind config current cs = (run-Inv (new config current) cs (new-Inv T config current)).1

  -- Where a synchronization in progress has kept no block, a response with a single block of the
  -- target round or a later one completes it. The block is then ready if it has the round, a u64,
  -- after the current one; otherwise no block is.
  pub completed_with_gap :
      (s : StateSync T) (b : T.Block) (epoch : ℕ) (final : Bool) {target current received : ℕ}
      → s.status ≡ in_progress target current received
      → s.received_blocks ≡ []
      → target ≤ T.block_round b
      → let s' =
          (add_sync_response s (record { blocks = b ∷ []; epoch = epoch; is_final = final })).0 in
        (s'.status ≡ completed 1)
        × ((ready_blocks s').1
            ≡ (if T.block_round b == u64 (s.current_round + 1) then b ∷ [] else []))
  unfolding add_sync_response ready_blocks ready_from receive progress verify_sequential insert get
      remove
  completed_with_gap s b epoch final h e l = (ground arith, ground arith)
