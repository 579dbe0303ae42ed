-- ===== src/Tests/Instance.antt =====
-- The theorems on the consensus instance at test data.
use aptosbft.Common.{ℕ, ◌*◌, refl, true, false, some, List, [], ◌∷◌, arith, ltb, ℕ_discrete}
use aptosbft.Mock.{mock}
use aptosbft.Pacemaker.{Floats}
use aptosbft.RoundManager
use aptosbft.Safety.Rules
use aptosbft.Pacemaker
use aptosbft.Pacemaker.{get_round_duration, new_strategy, ExponentialIntervalStrategy}
use aptosbft.Pipeline.{new as new_pipeline}
use aptosbft.Epoch.{new as new_epochs}
use aptosbft.Consensus.{Consensus, ConsensusConfig, ProposerElection, bootstrapping, new}
use aptosbft.Consensus.History.{Call, Message, starts, handles, proposal, vote, qc, timeout, run}
use aptosbft.Consensus.Rounds.{Refuses, run-rejects}
use aptosbft.Tests.{four_verifier, block, certificate, vote_of}

-- Whole numbers stand for the floating point ones, and a product for the power.
abbrev pub numbers : Floats
numbers = record {
  F64 = ℕ;
  powf = λ b n. b * n;
  of_u64 = λ n. n;
  times = λ a b. a * b;
  ceil_u64 = λ n. n;
  ceil_below_u32_max = λ n. ltb n 4294967295;
}

-- Every round is that of the validator 1.
abbrev pub election : ProposerElection
election = record { Author = ℕ; author_eq = ℕ_discrete; get_valid_proposer = λ round. some 1 }

abbrev config : ConsensusConfig numbers
config = record {
  initial_round = 0;
  initial_epoch = 0;
  pacemaker_config = record {
    base_duration_ms = 1000;
    exponent_base = 2;
    max_exponent = 6;
    initial_round = 0;
  };
  round_manager_config = record {
    max_buffered_rounds = 10;
    round_timeout_ms = 5000;
    max_pending_votes = 1000;
  };
  pipeline_config = record {
    stage_timeout_ms = 5000;
    max_concurrent = 10;
    validate_immediately = true;
    parallel_processing = false;
  };
  max_rounds_per_epoch = 100;
}

abbrev intervals : ExponentialIntervalStrategy numbers
intervals = record { base_ms = 1000; exponent_base = 2; max_exponent = 6 }

-- What `new config (some 1)` returns.
abbrev pub fresh : Consensus mock numbers election
fresh = record {
  config = config;
  state = bootstrapping;
  round_manager = RoundManager.new config.round_manager_config (Rules.new 0);
  pacemaker = record {
    interval_strategy = get_round_duration intervals;
    highest_ordered_round = 0;
    current_round = 0;
    config = config.pacemaker_config;
  };
  pipeline = new_pipeline config.pipeline_config;
  epoch_manager = new_epochs (record { initial_epoch = 0; auto_transition = false });
  self_validator_id = some 1;
}

abbrev messages : List (Message mock)
messages = proposal (block 1) ∷ vote (vote_of 1) four_verifier ∷ qc (certificate 1) ∷ timeout 1 ∷ []

abbrev calls : List (Call mock)
calls =
    starts ∷ handles (proposal (block 1)) ∷ handles (qc (certificate 1)) ∷ handles (timeout 1) ∷ []

run-rejects_example : Refuses (run fresh calls) (block 2)
unfolding new new_strategy Pacemaker.new
run-rejects_example = run-rejects config (some 1) fresh calls (block 2) refl (omega arith)
