-- ===== src/Runtime/Lifecycle.antt =====
-- The running flag of the runtime and the state of its consensus
-- (consensus-core/src/consensus/runtime.rs).
use aptosbft.Common.{◌≡◌, refl, List, [], ◌∷◌, ok, err, arith, true, false, ◌∙◌, ◌⊎◌, inr, inl}
use aptosbft.Traits.{Traits}
use aptosbft.Pacemaker.{Floats}
use aptosbft.Consensus.{
  Consensus, ProposerElection, ConsensusState, running, stopped, bootstrapping, process_qc,
  process_timeout,
}
use aptosbft.Consensus
use aptosbft.Runtime.{
  ConsensusRuntime, RuntimeConfig, new, start, shutdown, in_consensus, already_running,
  runtime_not_running, add_network_message, process_pending_messages, process_queue,
  process_message, proposal, vote, quorum_certificate, round_timeout, sync_request, sync_response,
  NetworkMessage,
}
use aptosbft.Runtime.History.{
  Call, step, run, starts, shuts_down, adds, processes_pending, handles, executes,
}
use aptosbft.Runtime.Queue.{handle-process_message}

module _ {T : Traits} {F : Floats} {PE : ProposerElection} where
  -- A consensus that a start takes into the running state.
  abbrev pub CanStart : Consensus T F PE → Type 0
  CanStart c = (c.state ≡ bootstrapping) ⊎ (c.state ≡ stopped)

  -- The flag is set just if the consensus runs.
  abbrev pub Agrees : ConsensusRuntime T F PE → Type 0
  Agrees r =
      ((r.is_running ≡ true) × (r.consensus.state ≡ running))
      ⊎ ((r.is_running ≡ false) × CanStart r.consensus)

  process_message-state :
      (c : Consensus T F PE) (m : NetworkMessage T) → (process_message c m).0.state ≡ c.state
  unfolding process_qc process_timeout
  process_message-state c (proposal b) = refl
  process_message-state c (vote v) = refl
  process_message-state c (quorum_certificate q) = ground arith
  process_message-state c (round_timeout n) = ground arith
  process_message-state c (sync_request n) = refl
  process_message-state c (sync_response bs) = refl

  process_queue-state :
      (c : Consensus T F PE) (ms : List (NetworkMessage T)) → (process_queue c ms).0.state ≡ c.state
  unfolding process_queue
  process_queue-state c [] = refl
  process_queue-state c (m ∷ ms) =
      process_queue-state (process_message c m).0 ms ∙ process_message-state c m

  start-Agrees : (r : ConsensusRuntime T F PE) → Agrees r → Agrees (start r).0
  unfolding start Consensus.start
  start-Agrees r h = ground arith

  shutdown-Agrees : (r : ConsensusRuntime T F PE) → Agrees r → Agrees (shutdown r).0
  unfolding shutdown Consensus.stop
  shutdown-Agrees r h = ground arith

  step-Agrees : (r : ConsensusRuntime T F PE) (call : Call T) → Agrees r → Agrees (step r call)
  unfolding add_network_message process_pending_messages
  step-Agrees r starts h = start-Agrees r h
  step-Agrees r shuts_down h = shutdown-Agrees r h
  step-Agrees r (adds m) h = h
  step-Agrees r processes_pending h =
      ground (arith, process_queue-state r.consensus r.pending_messages)
  step-Agrees r (handles m) h =
      ground (arith, handle-process_message r m, process_message-state r.consensus m)
  step-Agrees r (executes b) h = h

  run-Agrees :
      (r : ConsensusRuntime T F PE) (calls : List (Call T)) → Agrees r → Agrees (run r calls)
  run-Agrees r [] h = h
  run-Agrees r (call ∷ calls) h = run-Agrees (step r call) calls (step-Agrees r call h)

  new-Agrees : (c : Consensus T F PE) (config : RuntimeConfig) → CanStart c → Agrees (new c config)
  unfolding new
  new-Agrees c config h = inr (refl, h)

  -- After any history of a new runtime over a consensus that can start, the running flag is set
  -- exactly if the consensus runs. If it is set, a start is refused and a shutdown succeeds;
  -- otherwise the consensus can start, a shutdown is refused and a start succeeds.
  pub run-lifecycle :
      (c : Consensus T F PE) (config : RuntimeConfig) (calls : List (Call T))
      → CanStart c
      → let r = run (new c config) calls in
        ((r.is_running ≡ true)
          × (r.consensus.state ≡ running)
          × (start r ≡ (r, err already_running))
          × ((shutdown r).1 ≡ ok tt))
        ⊎ ((r.is_running ≡ false)
            × CanStart r.consensus
            × (shutdown r ≡ (r, err runtime_not_running))
            × ((start r).1 ≡ ok tt))
  unfolding start shutdown Consensus.start Consensus.stop
  run-lifecycle c config calls h =
      go (run (new c config) calls) (run-Agrees (new c config) calls (new-Agrees c config h))
    where
      go :
          (r : ConsensusRuntime T F PE)
          → Agrees r
          → ((r.is_running ≡ true)
              × (r.consensus.state ≡ running)
              × (start r ≡ (r, err already_running))
              × ((shutdown r).1 ≡ ok tt))
            ⊎ ((r.is_running ≡ false)
                × CanStart r.consensus
                × (shutdown r ≡ (r, err runtime_not_running))
                × ((start r).1 ≡ ok tt))
      go r (inl h) = inl (ground arith)
      go r (inr h) = inr (ground arith)

  -- A new runtime over a running consensus reports the error of the consensus at its start, is marked
  -- as running all the same, and refuses the next start.
  pub start-failed :
      (c : Consensus T F PE) (config : RuntimeConfig)
      → c.state ≡ running
      → let (r, result) = start (new c config) in
        (result ≡ err (in_consensus (Consensus.cannot_start running)))
        × (r.is_running ≡ true)
        × ((start r).1 ≡ err already_running)
  unfolding new start Consensus.start
  start-failed c config h = ground arith
