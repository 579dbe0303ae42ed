-- ===== src/Consensus/Bounds.antt =====
-- The numbers of a consensus instance (consensus-core/src/consensus/mod.rs) as machine words.
use aptosbft.Common.{ℕ, ◌<◌, ◌≤◌, List, [], ◌∷◌, u64_size, arith, All}
use aptosbft.Traits.{Traits}
use aptosbft.Pacemaker.{Floats, enter_new_round, record_ordered_round, can_enter_round}
use aptosbft.Consensus.{
  Consensus, ProposerElection, start, stop, process_proposal, process_vote, process_qc,
  process_timeout,
}
use aptosbft.Consensus.History.{
  proposal, vote, qc, timeout, Call, starts, stops, handles, step, run,
}

-- The certificates of a call have `u64` rounds.
abbrev pub HasWords : {T : Traits} → Call T → Type 0
HasWords {T} (handles (qc q)) = T.qc_round q < u64_size
HasWords other = Unit

module _ {T : Traits} {F : Floats} {PE : ProposerElection} where
  -- Both rounds of the pacemaker are `u64`, and neither is below a first value.
  abbrev pub IsWithin : ℕ → ℕ → Consensus T F PE → Type 0
  IsWithin current ordered c =
      (current ≤ c.pacemaker.current_round)
      × (c.pacemaker.current_round < u64_size)
      × (ordered ≤ c.pacemaker.highest_ordered_round)
      × (c.pacemaker.highest_ordered_round < u64_size)

  step-IsWithin :
      {current ordered : ℕ} (c : Consensus T F PE) (call : Call T)
      → HasWords call
      → IsWithin current ordered c
      → IsWithin current ordered (step c call)
  unfolding start stop process_proposal process_vote process_qc process_timeout enter_new_round
      record_ordered_round can_enter_round
  step-IsWithin c starts words h = ground arith
  step-IsWithin c stops words h = ground arith
  step-IsWithin c (handles (proposal b)) words h = ground arith
  step-IsWithin c (handles (vote v verifier)) words h = ground arith
  step-IsWithin c (handles (qc q)) words h = ground arith
  step-IsWithin c (handles (timeout round)) words h = ground arith

  -- Where the certificates of a history have u64 rounds, both rounds of the pacemaker stay u64 and
  -- at or above what they were above at first.
  pub run-IsWithin :
      {current ordered : ℕ} (c : Consensus T F PE) (calls : List (Call T))
      → All HasWords calls
      → IsWithin current ordered c
      → IsWithin current ordered (run c calls)
  run-IsWithin c [] words h = h
  run-IsWithin c (call ∷ calls) words h =
      run-IsWithin (step c call) calls words.1 (step-IsWithin c call words.0 h)
