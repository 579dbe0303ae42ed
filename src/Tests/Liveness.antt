-- ===== src/Tests/Liveness.antt =====
-- The theorems on the pacemaker, the election, the epochs and the pipeline at test data.
use aptosbft.Common.Map.{Map, get}
use aptosbft.Common.{
  refl, ℕ, ◌+◌, ◌*◌, ◌≡◌, true, some, List, [], ◌∷◌, ok, arith, ltb, false, u64, ℕ_discrete, ◌<◌,
  ◌&&◌,
}
use aptosbft.Mock.{mock}
use aptosbft.Pacemaker.{Floats, Pacemaker, ExponentialIntervalStrategy}
use aptosbft.Proposer.{RoundRobinProposer, ProposerElectionConfig, new_weighted, weighted}
use aptosbft.Proposer.Weighted.{weighted_share}
use aptosbft.Epoch.{EpochManager}
use aptosbft.Epoch.Transitions.{Request, starts, forces}
use aptosbft.Pipeline.{Stage, processing, Pipeline, completed, process_from}
use aptosbft.Pipeline.Run.{process_from-total}
use aptosbft.Traits.{Error}
use aptosbft.Reconfig.Quorum.{is_voter, joint_power, quorums_share}
use aptosbft.Reconfig.{has_quorum, quorum_threshold, ReconfigConfig, new_set}
use aptosbft.Reconfig.Transitions.{elects, prepares, begins, progresses}
use aptosbft.Reconfig.Transitions as Reconfigurations
use aptosbft.Tests.{block}

-- Whole numbers stand for the floating point ones, and a product for the power.

abbrev whole : Floats
whole = record {
  F64 = ℕ;
  powf = λ b n. b * n;
  of_u64 = λ n. n;
  times = λ a b. a * b;
  ceil_u64 = λ n. n;
  ceil_below_u32_max = λ n. ltb n 4294967295;
}

abbrev strategy : ExponentialIntervalStrategy whole
strategy = record { base_ms = 1000; exponent_base = 2; max_exponent = 6 }

abbrev pacemaker : Pacemaker whole
pacemaker = record {
  interval_strategy = λ i. 1000 + i;
  highest_ordered_round = 4;
  current_round = 5;
  config = record {
    base_duration_ms = 1000;
    exponent_base = 2;
    max_exponent = 6;
    initial_round = 1;
  };
}

abbrev from_one : ProposerElectionConfig
from_one = record { num_validators = 3; initial_round = 1 }

abbrev rotation : RoundRobinProposer ℕ
rotation = record { validators = 10 ∷ 11 ∷ 12 ∷ []; config = from_one }

abbrev weights : List (ℕ × ℕ)
weights = (10, 3) ∷ (11, 2) ∷ (12, 1) ∷ []

-- The validators 10, 11 and 12 with the weights 3, 2 and 1: the round 4 of the second cycle.
weighted_share_example :
    weighted {E = Error} (new_weighted weights from_one) (1 * 6 + (3 + 1)) ≡ ok (some 11)
weighted_share_example =
    weighted_share ((10, 3) ∷ []) ((12, 1) ∷ []) 11 2 from_one 1 1 (omega arith) (omega arith)

abbrev epochs : EpochManager
epochs = record {
  config = record { initial_epoch = 0; auto_transition = false };
  epoch_state = record { epoch = 3; start_time = 0 };
}

abbrev requests : List Request
requests = starts 4 100 ∷ starts 6 200 ∷ forces 300 ∷ []

abbrev pipeline : Pipeline
pipeline = record {
  config = record {
    stage_timeout_ms = 5000;
    max_concurrent = 10;
    validate_immediately = true;
    parallel_processing = false;
  };
  current_stage = Stage.receiving;
  stats = record {
    received = 7;
    validated = 0;
    processed = 0;
    committed = 0;
    total_processed = 7;
    failed = 0;
    skipped = 0;
  };
}

process_from-total_example :
    (q : Pipeline) × (process_from mock 4 processing pipeline (block 1) ≡ some (q, ok completed))
    × (q.stats.total_processed ≡ u64 (pipeline.stats.total_processed + 2))
    × (q.stats.failed ≡ pipeline.stats.failed)
    × (q.stats.skipped ≡ pipeline.stats.skipped)
process_from-total_example = process_from-total mock 4 processing pipeline (block 1) (omega arith)

abbrev handler_config : ReconfigConfig
handler_config = record {
  preparation_window = 5;
  verify_signatures = true;
  reconfig_timeout_ms = 30000;
}

-- A preparation, an election, a set of one validator, and the word that it was processed.
abbrev calls : List (Reconfigurations.Call ℕ ℕ)
calls = prepares 4 ∷ elects 7 ∷ begins (new_set 4 ((20, 10) ∷ [])) ∷ progresses 1 ∷ []

abbrev powers : Map ℕ ℕ
powers = (0, 10) ∷ (1, 10) ∷ (2, 10) ∷ (3, 10) ∷ []

quorums_share_example :
    40
    < 3
      * joint_power
          (λ v. is_voter ℕ_discrete (0 ∷ 1 ∷ 2 ∷ []) v && is_voter ℕ_discrete (3 ∷ 2 ∷ 1 ∷ []) v)
          powers
unfolding new_set has_quorum quorum_threshold get ℕ_discrete
quorums_share_example =
    quorums_share ℕ_discrete 0 powers (0 ∷ 1 ∷ 2 ∷ []) (3 ∷ 2 ∷ 1 ∷ []) (refl, (refl, (refl, tt)))
      (refl, (refl, (refl, tt))) refl refl
