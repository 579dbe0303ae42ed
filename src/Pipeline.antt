-- ===== src/Pipeline.antt =====
-- The processing pipeline: consensus-core/src/pipeline/mod.rs.
pub mod Run
pub mod Builder
use Prim.Native.String.{String}
use aptosbft.Common.{
  ℕ, zero, suc, ◌+◌, Bool, true, false, u64, Option, none, some, Result, ok, err, panic,
}
use aptosbft.Traits.{Traits, Error}

pub data Stage : Type 0 where
  receiving validation processing commit : Stage

unfoldable pub next : Stage → Option Stage
next receiving = some validation
next validation = some processing
next processing = some commit
next commit = none

pub record PipelineConfig : Type 0 where
  pub stage_timeout_ms : ℕ
  pub max_concurrent : ℕ
  pub validate_immediately : Bool
  pub parallel_processing : Bool

unfoldable pub default_config : PipelineConfig
default_config = record {
  stage_timeout_ms = 5000;
  max_concurrent = 10;
  validate_immediately = true;
  parallel_processing = false;
}

pub data StageResult : Type 0 where
  continue : StageResult
  stop : String → StageResult
  skip : String → StageResult

-- `stage_counts` is an array of four counters, one for each stage.
pub record PipelineStats : Type 0 where
  pub received : ℕ
  pub validated : ℕ
  pub processed : ℕ
  pub committed : ℕ
  pub total_processed : ℕ
  pub failed : ℕ
  pub skipped : ℕ

pub record Pipeline : Type 0 where
  pub config : PipelineConfig
  pub current_stage : Stage
  pub stats : PipelineStats

pub data PipelineResult : Type 0 where
  completed : PipelineResult
  stopped : Stage → String → PipelineResult
  skipped : Stage → String → PipelineResult

unfoldable pub is_completed : PipelineResult → Bool
is_completed completed = true
is_completed (stopped _ _) = false
is_completed (skipped _ _) = false

unfoldable pub new : PipelineConfig → Pipeline
new config = record {
  config = config;
  current_stage = receiving;
  stats = record {
    received = 0;
    validated = 0;
    processed = 0;
    committed = 0;
    total_processed = 0;
    failed = 0;
    skipped = 0;
  };
}

unfoldable pub reset : Pipeline → Pipeline
reset p = record p { current_stage = receiving }

-- `stage_counts[stage] += 1; total_processed += 1`.
unfoldable pub count : Stage → PipelineStats → PipelineStats
count receiving s = record s {
  received = u64 (s.received + 1);
  total_processed = u64 (s.total_processed + 1);
}
count validation s = record s {
  validated = u64 (s.validated + 1);
  total_processed = u64 (s.total_processed + 1);
}
count processing s = record s {
  processed = u64 (s.processed + 1);
  total_processed = u64 (s.total_processed + 1);
}
count commit s = record s {
  committed = u64 (s.committed + 1);
  total_processed = u64 (s.total_processed + 1);
}

module _ (T : Traits) where
  -- Every stage lets every block pass.
  unfoldable pub process_at_stage : Pipeline → Stage → T.Block → Result Error StageResult
  process_at_stage p receiving block = ok continue
  process_at_stage p validation block = ok continue
  process_at_stage p processing block = ok continue
  process_at_stage p commit block = ok continue

  -- The loop of `process_block`, with fuel; `none` means that the fuel ran out.
  unfoldable pub process_from :
      ℕ → Stage → Pipeline → T.Block → Option (Pipeline × Result Error PipelineResult)
  unfolding count process_at_stage next
  process_from zero stage p block = none
  process_from (suc fuel) stage p block =
      let p' = record p { stats = count stage p.stats } in
      elim (process_at_stage p' stage block) [
        | ok continue ↦ elim (next stage) [
          | some later ↦ process_from fuel later p' block
          | none ↦ some (p', ok completed)
        ]
        | ok (stop reason) ↦ some (
          record p' { stats = record (p'.stats) { failed = u64 (p'.stats.failed + 1) } },
          ok (stopped stage reason),
        )
        | ok (skip reason) ↦ some (
          record p' { stats = record (p'.stats) { skipped = u64 (p'.stats.skipped + 1) } },
          ok (skipped stage reason),
        )
        | err e ↦ some (p', err e)
        | panic ↦ some (p', panic)
      ]

  -- There are four stages.
  abbrev pub stages : ℕ
  stages = 4

  -- The loop ends within its fuel (`Run`), so the last branch is never taken.
  unfoldable pub process_block : Pipeline → T.Block → Pipeline × Result Error PipelineResult
  unfolding process_from
  process_block p block = elim (process_from stages receiving p block) [
    | some r ↦ r
    | none ↦ (p, panic)
  ]

  unfoldable pub process_vote : Pipeline → T.Vote → Pipeline × Result Error PipelineResult
  unfolding count
  process_vote p vote = (record p { stats = count receiving p.stats }, ok completed)
