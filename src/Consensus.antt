-- ===== src/Consensus.antt =====
-- The consensus instance: consensus-core/src/consensus/mod.rs. It joins the round manager over the
-- two-chain rules, the pacemaker, the pipeline, the epoch manager and the proposer election.
pub mod Bounds
pub mod Builder
pub mod History
pub mod Lifecycle
pub mod Rounds
use aptosbft.Common.{
  ℕ, ◌+◌, Bool, true, false, u64, if◌then◌else◌, ite, Option, none, some, Result, ok, err, panic,
  ◌>>=◌, ◌>>◌, map_err, not, ensure,
}
use aptosbft.Traits.{Traits, Verifier, Error}
use aptosbft.Safety.Interface.{two_chain}
use aptosbft.Safety.Rules
use aptosbft.RoundManager.{RoundManager, RoundManagerConfig, ProposalProcessingResult}
use aptosbft.RoundManager
use aptosbft.Pacemaker.{
  Floats, Pacemaker, PacemakerConfig, PacemakerError, get_round_duration, new_strategy,
  enter_new_round, record_ordered_round,
}
use aptosbft.Pacemaker
use aptosbft.Pipeline.{PipelineConfig, PipelineResult, process_block, is_completed}
use aptosbft.Pipeline
use aptosbft.Epoch.{EpochManager}
use aptosbft.Epoch

pub record ConsensusConfig (F : Floats) : Type 0 where
  pub initial_round : ℕ
  pub initial_epoch : ℕ
  pub pacemaker_config : PacemakerConfig F
  pub round_manager_config : RoundManagerConfig
  pub pipeline_config : PipelineConfig
  pub max_rounds_per_epoch : ℕ

pub data ConsensusState : Type 0 where
  bootstrapping running catching_up stopping stopped : ConsensusState

-- The reasons that a `ProposalResult` prints.
pub data Reason : Type 0 where
  not_in_running_state : ConsensusState → Reason
  pipeline_rejected : PipelineResult → Reason
  rejected_for : ProposalProcessingResult → Reason

pub record ProposalResult : Type 0 where
  pub accepted : Bool
  pub reason : Option Reason
  pub round : ℕ
  pub voted : Bool

pub record VoteResult : Type 0 where
  pub accepted : Bool
  pub round : ℕ

pub data ConsensusError : Type 0 where
  protocol : Error → ConsensusError
  pacemaking : PacemakerError → ConsensusError
  cannot_start cannot_stop not_running : ConsensusState → ConsensusError
  no_proposer_election : ConsensusError

-- `ProposerElection<Round = u64>`; its authors are compared.
pub record ProposerElection : Type 1 where
  pub Author : Type 0
  pub author_eq : Discrete Author
  pub get_valid_proposer : ℕ → Option Author

-- The proposer election is a parameter, since no method changes it.
pub record Consensus (T : Traits) (F : Floats) (PE : ProposerElection) : Type 0 where
  pub config : ConsensusConfig F
  pub state : ConsensusState
  pub round_manager : RoundManager (two_chain T)
  pub pacemaker : Pacemaker F
  pub pipeline : Pipeline.Pipeline
  pub epoch_manager : EpochManager
  pub self_validator_id : Option PE.Author

abbrev pub is_running : ConsensusState → Bool
is_running running = true
is_running _ = false

abbrev pub refused : ℕ → Reason → ProposalResult
refused round reason = record {
  accepted = false;
  reason = some reason;
  round = round;
  voted = false;
}

abbrev pub is_author : (PE : ProposerElection) → Option PE.Author → Option PE.Author → Bool
is_author PE (some my_id) (some proposer) = ite (PE.author_eq my_id proposer) true false
is_author PE _ _ = false

module _ {T : Traits} {F : Floats} {PE : ProposerElection} where
  -- `Consensus::new`.
  unfoldable pub new :
      ConsensusConfig F → Option PE.Author → Result ConsensusError (Consensus T F PE)
  new config self_validator_id = do
    strategy ←
        new_strategy F config.pacemaker_config.base_duration_ms
          config.pacemaker_config.exponent_base config.pacemaker_config.max_exponent
    ok (record {
      config = config;
      state = bootstrapping;
      round_manager = RoundManager.new config.round_manager_config (Rules.new config.initial_epoch);
      pacemaker = Pacemaker.new (get_round_duration strategy) config.pacemaker_config;
      pipeline = Pipeline.new config.pipeline_config;
      epoch_manager =
          Epoch.new (record { initial_epoch = config.initial_epoch; auto_transition = false });
      self_validator_id = self_validator_id;
    })

  abbrev start_from :
      ConsensusState → Consensus T F PE → Consensus T F PE × Result ConsensusError (Unit {0})
  start_from bootstrapping c = (record c { state = running }, ok tt)
  start_from stopped c = (record c { state = running }, ok tt)
  start_from s c = (c, err (cannot_start s))

  unfoldable pub start : Consensus T F PE → Consensus T F PE × Result ConsensusError (Unit {0})
  start c = start_from c.state c

  abbrev stop_from :
      ConsensusState → Consensus T F PE → Consensus T F PE × Result ConsensusError (Unit {0})
  stop_from running c = (record c { state = stopped }, ok tt)
  stop_from catching_up c = (record c { state = stopped }, ok tt)
  stop_from s c = (c, err (cannot_stop s))

  unfoldable pub stop : Consensus T F PE → Consensus T F PE × Result ConsensusError (Unit {0})
  stop c = stop_from c.state c

  abbrev is_validator : Consensus T F PE → Bool
  is_validator c = elim c.self_validator_id [ none ↦ false | some id ↦ true ]

  abbrev report : Consensus T F PE → ℕ → ProposalProcessingResult → ProposalResult
  report c round ProposalProcessingResult.accepted = record {
    accepted = true;
    reason = none;
    round = round;
    voted = is_validator c;
  }
  report c round other = refused round (rejected_for other)

  -- After the pipeline the round manager decides. "Voted" is reported to a validator although no
  -- vote is made and the safety rules are not asked.
  unfoldable pub process_proposal :
      Consensus T F PE → T.Block → Consensus T F PE × Result ConsensusError ProposalResult
  process_proposal c proposal =
      let round = T.block_round proposal in
      if not (is_running c.state)
      then (c, ok (refused round (not_in_running_state c.state)))
      else (let (pipeline, piped) = process_block T c.pipeline proposal in
          let c' = record c { pipeline = pipeline } in
          let (manager, decided) = RoundManager.process_proposal c.round_manager proposal in
          let c'' = record c' { round_manager = manager } in
          elim piped [
            | ok r ↦
                if not (is_completed r)
                then (c', ok (refused round (pipeline_rejected r)))
                else (c'', do decision ← map_err protocol decided; ok (report c'' round decision))
            | err e ↦ (c', err (protocol e))
            | panic ↦ (c', panic)
          ])

  unfoldable pub process_vote :
      Consensus T F PE → T.Vote → Verifier T → Consensus T F PE × Result ConsensusError VoteResult
  process_vote c vote verifier =
      let (manager, received) = RoundManager.process_vote c.round_manager vote verifier in
      if not (is_running c.state) then (c, err (not_running c.state)) else (
        record c { round_manager = manager },
        do
          result ← map_err protocol received
          ok (record { accepted = true; round = T.proposed_round vote }),
      )

  unfoldable pub process_qc :
      Consensus T F PE → T.QuorumCert → Consensus T F PE × Result ConsensusError (Unit {0})
  process_qc c qc =
      let (pacemaker, result) = record_ordered_round c.pacemaker (T.qc_round qc) in
      if not (is_running c.state)
      then (c, err (not_running c.state))
      else (record c { pacemaker = pacemaker }, map_err pacemaking result)

  unfoldable pub process_timeout :
      Consensus T F PE → ℕ → Consensus T F PE × Result ConsensusError (Unit {0})
  process_timeout c round =
      let (pacemaker, result) = enter_new_round c.pacemaker (u64 (round + 1)) in
      if not (is_running c.state)
      then (c, err (not_running c.state))
      else (record c { pacemaker = pacemaker }, do event ← map_err pacemaking result; ok tt)

  -- No branch makes a block.
  unfoldable pub generate_proposal : Consensus T F PE → Result ConsensusError (Option T.Block)
  generate_proposal c =
      let current_round = c.round_manager.round_state.round in
      if not (is_running c.state)
      then err (not_running c.state)
      else if not (is_author PE c.self_validator_id (PE.get_valid_proposer current_round))
      then ok none
      else elim c.round_manager.round_state.quorum_cert [
        | none ↦ ok none
        | some parent_qc ↦ ok none
      ]
