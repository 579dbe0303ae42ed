-- ===== src/Runtime/Reach.antt =====
-- What a runtime (consensus-core/src/consensus/runtime.rs) reaches of its consensus: the rounds of the
-- pacemaker, and no other part than it.
use aptosbft.Common.{◌≡◌, refl, List, [], ◌∷◌, arith, ℕ, ◌≤◌, ◌∙◌, subst, sym}
use aptosbft.Traits.{Traits}
use aptosbft.Pacemaker.{Floats, enter_new_round, record_ordered_round, can_enter_round}
use aptosbft.Consensus.{Consensus, ProposerElection, process_qc, process_timeout}
use aptosbft.Consensus
use aptosbft.Runtime.{
  ConsensusRuntime, start, shutdown, add_network_message, process_pending_messages, process_queue,
  process_message, proposal, vote, quorum_certificate, round_timeout, sync_request, sync_response,
  NetworkMessage,
}
use aptosbft.Runtime.History.{
  Call, step, run, starts, shuts_down, adds, processes_pending, handles, executes,
}
use aptosbft.Runtime.Queue.{handle-process_message}

module _ {T : Traits} {F : Floats} {PE : ProposerElection} where
  -- From one instance to a later one: the rounds of the pacemaker rise, all else but the state stays.
  pub record Follows (c d : Consensus T F PE) : Type 0 where
    pub same_manager : d.round_manager ≡ c.round_manager
    pub same_pipeline : d.pipeline ≡ c.pipeline
    pub same_epoch : d.epoch_manager ≡ c.epoch_manager
    pub current_rises : c.pacemaker.current_round ≤ d.pacemaker.current_round
    pub ordered_rises : c.pacemaker.highest_ordered_round ≤ d.pacemaker.highest_ordered_round

  Follows-refl : (c : Consensus T F PE) → Follows c c
  Follows-refl c = record {
    same_manager = refl;
    same_pipeline = refl;
    same_epoch = refl;
    current_rises = omega arith;
    ordered_rises = omega arith;
  }

  Follows-trans : (c d e : Consensus T F PE) → Follows c d → Follows d e → Follows c e
  Follows-trans c d e h k = record {
    same_manager = k.same_manager ∙ h.same_manager;
    same_pipeline = k.same_pipeline ∙ h.same_pipeline;
    same_epoch = k.same_epoch ∙ h.same_epoch;
    current_rises = omega (arith, h.current_rises, k.current_rises);
    ordered_rises = omega (arith, h.ordered_rises, k.ordered_rises);
  }

  process_qc-Follows : (c : Consensus T F PE) (qc : T.QuorumCert) → Follows c (process_qc c qc).0
  unfolding process_qc record_ordered_round
  process_qc-Follows c qc = record {
    same_manager = ground arith;
    same_pipeline = ground arith;
    same_epoch = ground arith;
    current_rises = ground arith;
    ordered_rises = ground arith;
  }

  process_timeout-Follows : (c : Consensus T F PE) (n : ℕ) → Follows c (process_timeout c n).0
  unfolding process_timeout enter_new_round can_enter_round
  process_timeout-Follows c n = record {
    same_manager = ground arith;
    same_pipeline = ground arith;
    same_epoch = ground arith;
    current_rises = ground arith;
    ordered_rises = ground arith;
  }

  process_message-Follows :
      (c : Consensus T F PE) (m : NetworkMessage T) → Follows c (process_message c m).0
  process_message-Follows c (proposal b) = Follows-refl c
  process_message-Follows c (vote v) = Follows-refl c
  process_message-Follows c (quorum_certificate q) = process_qc-Follows c q
  process_message-Follows c (round_timeout n) = process_timeout-Follows c n
  process_message-Follows c (sync_request n) = Follows-refl c
  process_message-Follows c (sync_response bs) = Follows-refl c

  process_queue-Follows :
      (c : Consensus T F PE) (ms : List (NetworkMessage T)) → Follows c (process_queue c ms).0
  unfolding process_queue
  process_queue-Follows c [] = Follows-refl c
  process_queue-Follows c (m ∷ ms) =
      Follows-trans c (process_message c m).0 (process_queue (process_message c m).0 ms).0
        (process_message-Follows c m) (process_queue-Follows (process_message c m).0 ms)

  start-Follows : (r : ConsensusRuntime T F PE) → Follows r.consensus (start r).0.consensus
  unfolding start Consensus.start
  start-Follows r = record {
    same_manager = ground arith;
    same_pipeline = ground arith;
    same_epoch = ground arith;
    current_rises = ground arith;
    ordered_rises = ground arith;
  }

  shutdown-Follows : (r : ConsensusRuntime T F PE) → Follows r.consensus (shutdown r).0.consensus
  unfolding shutdown Consensus.stop
  shutdown-Follows r = record {
    same_manager = ground arith;
    same_pipeline = ground arith;
    same_epoch = ground arith;
    current_rises = ground arith;
    ordered_rises = ground arith;
  }

  step-Follows :
      (r : ConsensusRuntime T F PE) (call : Call T) → Follows r.consensus (step r call).consensus
  unfolding add_network_message process_pending_messages
  step-Follows r starts = start-Follows r
  step-Follows r shuts_down = shutdown-Follows r
  step-Follows r (adds m) = Follows-refl r.consensus
  step-Follows r processes_pending = process_queue-Follows r.consensus r.pending_messages
  step-Follows r (handles m) =
      subst (λ x. Follows r.consensus x.0.consensus) (sym (handle-process_message r m))
        (process_message-Follows r.consensus m)
  step-Follows r (executes b) = Follows-refl r.consensus

  -- No history of calls of the runtime changes the round manager, the pipeline or the epoch manager
  -- of its consensus, and the rounds of the pacemaker never fall.
  pub run-Follows :
      (r : ConsensusRuntime T F PE) (calls : List (Call T))
      → Follows r.consensus (run r calls).consensus
  run-Follows r [] = Follows-refl r.consensus
  run-Follows r (call ∷ calls) =
      Follows-trans r.consensus (step r call).consensus (run (step r call) calls).consensus
        (step-Follows r call) (run-Follows (step r call) calls)
