-- ===== src/Consensus/Builder.antt =====
-- The default configuration and the builder of an instance (consensus-core/src/consensus/mod.rs).
use aptosbft.Common.{ℕ, Option, none, some, Result, ok, err, panic}
use aptosbft.Traits.{Traits}
use aptosbft.RoundManager
use aptosbft.Pacemaker.{Floats}
use aptosbft.Pacemaker.Builder as Pacemakers
use aptosbft.Pipeline
use aptosbft.Consensus.{
  Consensus, ConsensusConfig, ConsensusError, ProposerElection, no_proposer_election, new,
}

-- `ConsensusConfig::default`, with the number 2.0.
unfoldable pub default_config : (F : Floats) → F.F64 → ConsensusConfig F
unfolding RoundManager.default_config Pipeline.default_config
default_config F two = record {
  initial_round = 1;
  initial_epoch = 0;
  pacemaker_config = Pacemakers.default_config F two;
  round_manager_config = RoundManager.default_config;
  pipeline_config = Pipeline.default_config;
  max_rounds_per_epoch = 1000;
}

-- The elections of a type of authors, which are compared.
abbrev pub election_by : (A : Type 0) → Discrete A → (ℕ → Option A) → ProposerElection
election_by A d get_valid_proposer = record {
  Author = A;
  author_eq = d;
  get_valid_proposer = get_valid_proposer;
}

pub record ConsensusBuilder (F : Floats) (A : Type 0) : Type 0 where
  pub config : ConsensusConfig F
  pub proposer_election : Option (ℕ → Option A)
  pub self_validator_id : Option A

module _ {F : Floats} {A : Type 0} where
  unfoldable pub new_builder : F.F64 → ConsensusBuilder F A
  unfolding default_config
  new_builder two = record {
    config = default_config F two;
    proposer_election = none;
    self_validator_id = none;
  }

  unfoldable pub with_config : ConsensusBuilder F A → ConsensusConfig F → ConsensusBuilder F A
  with_config b config = record b { config = config }

  unfoldable pub with_proposer_election :
      ConsensusBuilder F A → (ℕ → Option A) → ConsensusBuilder F A
  with_proposer_election b election = record b { proposer_election = some election }

  unfoldable pub with_self_validator_id : ConsensusBuilder F A → A → ConsensusBuilder F A
  with_self_validator_id b id = record b { self_validator_id = some id }

  -- The instance, with the election that it is made of.
  unfoldable pub build :
      (T : Traits) (d : Discrete A)
      → ConsensusBuilder F A
      → Result ConsensusError ((e : ℕ → Option A) × Consensus T F (election_by A d e))
  unfolding new
  build T d b = elim b.proposer_election [
    | none ↦ err no_proposer_election
    | some e ↦ elim (new {T = T} {PE = election_by A d e} b.config b.self_validator_id) [
      | ok c ↦ ok (e, c)
      | err error ↦ err error
      | panic ↦ panic
    ]
  ]
