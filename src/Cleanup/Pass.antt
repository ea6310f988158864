-- ===== src/Cleanup/Pass.antt =====
-- worker_cleanup.go: the stages of a pass, in the order in which `runCleanup` calls them.
use Prim.Native.Nat.{◌^◌}
use eyrie.Base.{
  pair_eq, ℕ, zero, suc, ◌+◌, ◌-◌, ◌*◌, ◌%◌, Bool, true, false, not, ◌&&◌, Option, none, some, leb,
  ◌==◌, nat_eq, string_eq, if◌then◌else◌, length, keep,
}
use eyrie.Config.{Float64, DatasetConfig}
use eyrie.Ingester.Tables.{Sql, Tables}
use eyrie.Ingester.Aggregate.{DailyTable, RegionTable}
use eyrie.Cleanup.{
  CleanupEnv, Stage, connecting, sizing, deleting, pruning, checkpointing, sizing_again, Deletion,
  utc_day_start, cutoff_time, delete_with_limit,
}

pub record DatabaseSize : Type 0 where
  pub block_size : ℕ
  pub total_blocks : ℕ
  pub free_blocks : ℕ

-- The bytes in total and the free ones, as `uint64`.
unfoldable pub capture_database_size : DatabaseSize → ℕ × ℕ
capture_database_size s =
    ((s.block_size * s.total_blocks) % 2 ^ 64, (s.block_size * s.free_blocks) % 2 ^ 64)

-- `DELETE … WHERE date < cutoff_day`
unfoldable pub prune_daily : ℕ → DailyTable → DailyTable
prune_daily cutoff_day table = keep (λ entry. leb cutoff_day entry.0.1) table

unfoldable pub prune_region : ℕ → RegionTable → RegionTable
prune_region cutoff_day table = keep (λ entry. leb cutoff_day entry.0.1) table

pub record Pruning : Type 0 where
  pub db : Tables
  pub total : ℕ
  pub failed : Bool

-- What the first statement deleted stays deleted when the second one fails.
unfoldable pub prune_aggregates : CleanupEnv → ℕ → Tables → Pruning
unfolding prune_daily prune_region utc_day_start cutoff_time
prune_aggregates env retention_days db =
    let cutoff_day = utc_day_start (cutoff_time env.prune_now retention_days) in
    let daily = prune_daily cutoff_day db.daily in
    let region_daily = prune_region cutoff_day db.region_daily in
    let n = length db.daily - length daily in
    if env.prune_daily_fails
    then record { db = db; total = 0; failed = true }
    else if env.prune_region_fails
    then record { db = record db { daily = daily }; total = n; failed = true }
    else record {
      db = record db { daily = daily; region_daily = region_daily };
      total = n + (length db.region_daily - length region_daily);
      failed = false;
    }

-- The attempts that are left, and the number of the next one; the result is whether one succeeded and
-- how many were made.
unfoldable pub checkpoint_from : CleanupEnv → ℕ → ℕ → Bool × ℕ
checkpoint_from env zero i = (false, i)
checkpoint_from env (suc left) i =
    let again = checkpoint_from env left (suc i) in
    if not (env.checkpoint_fails i)
    then (true, suc i)
    else if not (left == 0) && env.cancelled_in_checkpoint i
    then (false, suc i)
    else again

unfoldable pub checkpoint : CleanupEnv → Bool × ℕ
unfolding checkpoint_from
checkpoint env = checkpoint_from env 3 0

pub data Status : Type 0 where
  success error : Status

pub record CleanupReport : Type 0 where
  pub status : Status
  pub rows_deleted : ℕ
  pub total_bytes : ℕ
  pub free_bytes : ℕ

abbrev reported : Option (Tables × CleanupReport) → Option (Tables × Option CleanupReport)
reported none = none
reported (some (db, r)) = some (db, some r)

-- A failure is not reported as one when the context is cancelled.
unfoldable pub fail_status : CleanupEnv → Stage → Status
fail_status env stage = if env.cancelled_by_error stage then success else error

module _ {fl : Float64} (env : CleanupEnv) (sql : Sql) (cfg : DatasetConfig fl)
    (before after : DatabaseSize) where
  unfoldable pub report : Status → ℕ → DatabaseSize → CleanupReport
  unfolding capture_database_size
  report status rows_deleted size = record {
    status = status;
    rows_deleted = rows_deleted;
    total_bytes = (capture_database_size size).0;
    free_bytes = (capture_database_size size).1;
  }

  -- Before the sizes are known they are reported as 0.
  unfoldable pub unsized_report : Status → CleanupReport
  unsized_report status = record {
    status = status;
    rows_deleted = 0;
    total_bytes = 0;
    free_bytes = 0;
  }

  -- A second size that cannot be read is reported as 0.
  unfoldable pub finish_sizing : Status → ℕ → CleanupReport
  unfolding report fail_status
  finish_sizing status rows_deleted =
      if env.cancelled_before sizing_again
      then report status rows_deleted before
      else if env.fails sizing_again
      then record {
        status = if env.cancelled_by_error sizing_again then status else error;
        rows_deleted = rows_deleted;
        total_bytes = 0;
        free_bytes = 0;
      }
      else report status rows_deleted after

  unfoldable pub run_checkpoint : ℕ → CleanupReport
  unfolding checkpoint finish_sizing
  run_checkpoint rows_deleted =
      if (checkpoint env).0
      then finish_sizing success rows_deleted
      else if env.cancelled_by_error checkpointing
      then report success rows_deleted before
      else finish_sizing error rows_deleted

  unfoldable pub run_prune : ℕ → Tables → Tables × CleanupReport
  unfolding prune_aggregates run_checkpoint
  run_prune deleted db =
      let pruning_done = prune_aggregates env cfg.retention_days db in
      if env.cancelled_before pruning
      then (db, report success deleted before)
      else if pruning_done.failed
      then (pruning_done.db, report (fail_status env pruning) deleted before)
      else (pruning_done.db, run_checkpoint (deleted + pruning_done.total))

  -- A deletion that fails is not counted.
  unfoldable pub run_deleted : Tables → Option Deletion → Option (Tables × CleanupReport)
  unfolding run_prune
  run_deleted db none = none
  run_deleted db (some deletion) =
      let db' : Tables = record db { historical = deletion.rows } in
      if deletion.failed
      then some (db', report (fail_status env deleting) 0 before)
      else some (run_prune deletion.total db')

  -- `none` means that the deletion did not end; a pass that is cancelled at once has no report.
  unfoldable pub run_cleanup : Tables → Option (Tables × Option CleanupReport)
  unfolding run_deleted delete_with_limit unsized_report
  run_cleanup db =
      if env.cancelled_before connecting
      then some (db, none)
      else if env.fails connecting
      then some (db, some (unsized_report (fail_status env connecting)))
      else if env.fails sizing
      then some (db, some (unsized_report (fail_status env sizing)))
      else if env.cancelled_before deleting
      then some (db, some (report success 0 before))
      else reported (
          run_deleted db
            (delete_with_limit env sql cfg.retention_days cfg.cleanup_batch_size db.historical))
