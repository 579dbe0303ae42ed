-- ===== src/Epoch/Transitions.antt =====
-- Which transitions happen: consensus-core/src/epoch_manager/mod.rs.
use aptosbft.Common.{
  ℕ, ◌+◌, ◌≤◌, ◌<◌, ◌≡◌, ◌≢◌, ◌⊎◌, u64_max, Result, ok, err, panic, List, [], ◌∷◌, arith,
}
use aptosbft.Epoch.{
  EpochManager, EpochTransitionError, old_epoch, skipped_epoch, start_new_epoch, force_next_epoch,
}

-- Below the greatest epoch, a transition is accepted exactly to the next epoch, which is then the
-- current one and began now; otherwise nothing changes and the error tells an old epoch from a
-- skipped one.
pub start_new_epoch_cases :
    (m : EpochManager) (epoch now : ℕ)
    → m.epoch_state.epoch < u64_max
    → let current = m.epoch_state.epoch in
      let (m', result) = start_new_epoch m epoch now in
      ((epoch ≡ current + 1)
        × (result ≡ ok tt)
        × (m'.epoch_state ≡ record { epoch = epoch; start_time = now }))
      ⊎ ((epoch ≤ current) × (result ≡ err (old_epoch current epoch)) × (m' ≡ m))
      ⊎ ((current + 1 < epoch) × (result ≡ err (skipped_epoch current epoch)) × (m' ≡ m))
unfolding start_new_epoch
start_new_epoch_cases m epoch now b = ground arith

-- What an operator asks for, with the time of the call.
pub data Request : Type 0 where
  starts : ℕ → ℕ → Request
  forces : ℕ → Request

abbrev pub apply : EpochManager → Request → EpochManager × Result EpochTransitionError (Unit {0})
apply m (starts epoch now) = start_new_epoch m epoch now
apply m (forces now) = force_next_epoch m now

abbrev pub run : EpochManager → List Request → EpochManager
run m [] = m
run m (r ∷ rs) = run (apply m r).0 rs

abbrev pub successes : EpochManager → List Request → ℕ
successes m [] = 0
successes m (r ∷ rs) =
    let rest = successes (apply m r).0 rs in
    elim (apply m r).1 [ ok _ ↦ rest + 1 | err _ ↦ rest | panic ↦ rest ]

apply-epoch :
    (m : EpochManager) (r : Request)
    → m.epoch_state.epoch ≤ u64_max
    → (((apply m r).1 ≡ ok tt)
        × ((apply m r).0.epoch_state.epoch ≡ m.epoch_state.epoch + 1)
        × (m.epoch_state.epoch < u64_max))
      ⊎ (((apply m r).1 ≢ ok tt) × ((apply m r).0.epoch_state.epoch ≡ m.epoch_state.epoch))
unfolding start_new_epoch force_next_epoch
apply-epoch m (starts epoch now) b = ground arith
apply-epoch m (forces now) b = ground arith

-- From an epoch that is a u64, after any requests the epoch has grown by the number of the accepted
-- ones and is still a u64.
pub run-epoch :
    (m : EpochManager) (rs : List Request)
    → m.epoch_state.epoch ≤ u64_max
    → ((run m rs).epoch_state.epoch ≡ m.epoch_state.epoch + successes m rs)
      × ((run m rs).epoch_state.epoch ≤ u64_max)
run-epoch m [] b = omega arith
run-epoch m (r ∷ rs) b = ground (arith, apply-epoch m r b, run-epoch (apply m r).0 rs)
