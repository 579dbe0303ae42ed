-- ===== src/Consensus/Rounds.antt =====
-- The round and the votes of an instance (consensus-core/src/consensus/mod.rs).
use aptosbft.Common.{◌<◌, ◌≡◌, refl, ◌∙◌, List, [], ◌∷◌, Option, ◌≢◌, ok, arith}
use aptosbft.Traits.{Traits, Verifier}
use aptosbft.Pacemaker.{Floats, new_strategy}
use aptosbft.Safety.Rules.{observe_qc}
use aptosbft.Safety.Interface.{two_chain}
use aptosbft.RoundManager.{RoundManager, install_certificate, ProposalProcessingResult}
use aptosbft.RoundManager
use aptosbft.Round
use aptosbft.RoundManager.Cases.{process_vote_cases}
use aptosbft.Pipeline
use aptosbft.Pipeline.Run.{process_block-completed}
use aptosbft.Common.{◌⊎◌}
use aptosbft.Consensus.{
  running, refused, rejected_for, not_in_running_state, Consensus, ConsensusConfig,
  ProposerElection, new, start, stop, process_proposal, process_vote, process_qc, process_timeout,
}
use aptosbft.Consensus.History.{
  proposal, vote, qc, timeout, Call, starts, stops, handles, step, run,
}

module _ {T : Traits} where
  -- The round of a manager and the last vote of its rules.
  Stays : RoundManager (two_chain T) → RoundManager (two_chain T) → Type 0
  Stays m q =
      (q.round_state.round ≡ m.round_state.round)
      × (q.safety_rules.state.last_voted_round ≡ m.safety_rules.state.last_voted_round)

  process_vote-Stays :
      (m : RoundManager (two_chain T)) (v : T.Vote) (verifier : Verifier T)
      → Stays m (RoundManager.process_vote m v verifier).0
  unfolding Stays install_certificate observe_qc
  process_vote-Stays m v verifier =
      process_vote_cases (Stays m) m v verifier (refl, refl) (refl, refl) λ q _. ground arith

  process_proposal-Stays :
      (m : RoundManager (two_chain T)) (b : T.Block) → Stays m (RoundManager.process_proposal m b).0
  unfolding Stays RoundManager.process_proposal
  process_proposal-Stays m b = ground arith

module _ {T : Traits} {F : Floats} {PE : ProposerElection} where
  step-Stays :
      (c : Consensus T F PE) (call : Call T) → Stays c.round_manager (step c call).round_manager
  unfolding Stays start stop process_proposal process_vote process_qc process_timeout
  step-Stays c starts = ground arith
  step-Stays c stops = ground arith
  step-Stays c (handles (proposal b)) = ground (arith, process_proposal-Stays c.round_manager b)
  step-Stays c (handles (vote v verifier)) =
      ground (arith, process_vote-Stays c.round_manager v verifier)
  step-Stays c (handles (qc q)) = ground arith
  step-Stays c (handles (timeout round)) = ground arith

  -- No history of calls moves the instance's round manager to another round or changes its last
  -- vote.
  pub run-round :
      (c : Consensus T F PE) (calls : List (Call T))
      → ((run c calls).round_manager.round_state.round ≡ c.round_manager.round_state.round)
        × ((run c calls).round_manager.safety_rules.state.last_voted_round
            ≡ c.round_manager.safety_rules.state.last_voted_round)
  unfolding Stays
  run-round c [] = (refl, refl)
  run-round c (call ∷ calls) =
      let (a, b) = step-Stays c call in
      let (a', b') = run-round (step c call) calls in (a' ∙ a, b' ∙ b)

  new-round :
      (config : ConsensusConfig F) (id : Option PE.Author) (c : Consensus T F PE)
      → new config id ≡ ok c
      → c.round_manager.round_state.round ≡ 0
  unfolding new new_strategy RoundManager.new Round.new
  new-round config id c h = ground arith

  -- The answer to a proposal of a round above that of the round manager.
  abbrev pub Refuses : Consensus T F PE → T.Block → Type 0
  Refuses c b =
      let round = T.block_round b in
      ((c.state ≡ running)
        × ((process_proposal c b).1
            ≡ ok (refused round (rejected_for ProposalProcessingResult.future_round))))
      ⊎ ((c.state ≢ running)
          × ((process_proposal c b).1 ≡ ok (refused round (not_in_running_state c.state))))

  process_proposal-Refuses :
      (c : Consensus T F PE) (b : T.Block)
      → c.round_manager.round_state.round < T.block_round b
      → Refuses c b
  unfolding process_proposal RoundManager.process_proposal Pipeline.is_completed
  process_proposal-Refuses c b h = ground (arith, process_block-completed T c.pipeline b)

  -- A new instance, whatever it was told, refuses every proposal of a round above 0: as one of a
  -- future round if it runs, for its state otherwise.
  pub run-rejects :
      (config : ConsensusConfig F) (id : Option PE.Author) (c : Consensus T F PE)
      (calls : List (Call T)) (b : T.Block)
      → new config id ≡ ok c
      → 0 < T.block_round b
      → Refuses (run c calls) b
  run-rejects config id c calls b fresh above =
      process_proposal-Refuses (run c calls) b
        (omega (arith, (run-round c calls).0, new-round config id c fresh))
