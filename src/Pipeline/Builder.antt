-- ===== src/Pipeline/Builder.antt =====
-- The builder of a pipeline and the names of the stages (consensus-core/src/pipeline/mod.rs).
use Prim.Native.String.{String}
use aptosbft.Common.{ℕ, Bool, true, false, Option, none, some, Result, ok}
use aptosbft.Traits.{Traits, Error}
use aptosbft.Pipeline.{
  Stage, receiving, validation, processing, commit, StageResult, continue, stop, skip,
  PipelineResult, completed, stopped, skipped, Pipeline, PipelineConfig, default_config, new,
}

unfoldable pub name : Stage → String
name receiving = "receiving"
name validation = "validation"
name processing = "processing"
name commit = "commit"

abbrev pub should_continue : StageResult → Bool
should_continue continue = true
should_continue (stop reason) = false
should_continue (skip reason) = false

abbrev pub final_stage : PipelineResult → Option Stage
final_stage completed = none
final_stage (stopped stage reason) = some stage
final_stage (skipped stage reason) = some stage

unfoldable pub process_vote_at_stage : (T : Traits) → Pipeline → T.Vote → Result Error StageResult
process_vote_at_stage T p vote = ok continue

-- A certificate changes nothing.
unfoldable pub process_qc : Pipeline → Pipeline × Result Error PipelineResult
process_qc p = (p, ok completed)

pub record PipelineBuilder : Type 0 where
  pub config : PipelineConfig

unfoldable pub new_builder : PipelineBuilder
unfolding default_config
new_builder = record { config = default_config }

unfoldable pub stage_timeout_ms : PipelineBuilder → ℕ → PipelineBuilder
stage_timeout_ms b timeout = record { config = record (b.config) { stage_timeout_ms = timeout } }

unfoldable pub max_concurrent : PipelineBuilder → ℕ → PipelineBuilder
max_concurrent b max = record { config = record (b.config) { max_concurrent = max } }

unfoldable pub validate_immediately : PipelineBuilder → Bool → PipelineBuilder
validate_immediately b validate = record {
  config = record (b.config) { validate_immediately = validate };
}

unfoldable pub parallel_processing : PipelineBuilder → Bool → PipelineBuilder
parallel_processing b parallel = record {
  config = record (b.config) { parallel_processing = parallel };
}

unfoldable pub build : PipelineBuilder → Pipeline
unfolding new
build b = new b.config
