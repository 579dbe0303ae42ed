-- ===== src/Pipeline/Run.antt =====
-- A run of the pipeline (consensus-core/src/pipeline/mod.rs).
use aptosbft.Common.{ℕ, zero, suc, ◌+◌, ◌≤◌, ◌≡◌, refl, u64, some, ok, arith}
use aptosbft.Traits.{Traits}
use aptosbft.Pipeline.{
  Pipeline, Stage, receiving, validation, processing, commit, completed, process_from,
  process_block, count,
}

-- The stages from one on.
abbrev pub stages_left : Stage → ℕ
stages_left receiving = 4
stages_left validation = 3
stages_left processing = 2
stages_left commit = 1

module _ (T : Traits) where
  -- From every stage and state, fuel for the stages that are left makes the loop of process_block
  -- end with the block completed. The total has grown, modulo 2^64, by the number of these stages,
  -- and no failure and no skip is counted.
  pub process_from-total :
      (fuel : ℕ) (stage : Stage) (p : Pipeline) (block : T.Block)
      → stages_left stage ≤ fuel
      → (q : Pipeline) × (process_from T fuel stage p block ≡ some (q, ok completed))
        × (q.stats.total_processed ≡ u64 (p.stats.total_processed + stages_left stage))
        × (q.stats.failed ≡ p.stats.failed)
        × (q.stats.skipped ≡ p.stats.skipped)
  unfolding process_from count
  process_from-total zero receiving p block h = absurd (omega arith)
  process_from-total zero _ p block h = absurd (omega arith)
  process_from-total (suc fuel) receiving p block h =
      let (q, ends, total, failed, skipped) =
        process_from-total fuel validation (record p { stats = count receiving p.stats }) block
          (omega arith) in
      (q, ends, ground (arith, total), failed, skipped)
  process_from-total (suc fuel) validation p block h =
      let (q, ends, total, failed, skipped) =
        process_from-total fuel processing (record p { stats = count validation p.stats }) block
          (omega arith) in
      (q, ends, ground (arith, total), failed, skipped)
  process_from-total (suc fuel) processing p block h =
      let (q, ends, total, failed, skipped) =
        process_from-total fuel commit (record p { stats = count processing p.stats }) block
          (omega arith) in
      (q, ends, ground (arith, total), failed, skipped)
  process_from-total (suc fuel) commit p block h =
      (record p { stats = count commit p.stats }, refl, refl, refl, refl)

  -- Every block passes the whole pipeline: each stage counts it once, the total grows by the four
  -- stages, and no failure or skip is counted.
  pub process_block-completed :
      (p : Pipeline) (block : T.Block)
      → process_block T p block ≡ (
        record p {
          stats = record (p.stats) {
            received = u64 (p.stats.received + 1);
            validated = u64 (p.stats.validated + 1);
            processed = u64 (p.stats.processed + 1);
            committed = u64 (p.stats.committed + 1);
            total_processed = u64 (p.stats.total_processed + 4);
          };
        },
        ok completed,
      )
  unfolding process_block
  process_block-completed p block = ground arith
