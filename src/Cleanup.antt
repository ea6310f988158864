-- ===== src/Cleanup.antt =====
-- worker_cleanup.go: one pass of the retention policy.  The context, the clocks and the statements that
-- fail are parameters; metrics and logging are left out.
pub mod Pass
pub mod Batch
pub mod Retention
pub mod Complete
pub mod Report
use eyrie.Base.{
  pair_eq, contains_char, split_at_last, LinearOrder, sort_by, Ascending, sort_by-Perm,
  sort_by-Ascending, count-sort_by, unique_from, count-unique_from, contains-unique_from,
  insert_sorted_comm, String-discrete, ℕ, zero, suc, ◌+◌, ◌-◌, ◌*◌, ◌/◌, ◌%◌, ◌≤◌, ◌<◌, String, ◌≡◌,
  refl, sym, ap, ap₂, ◌∙◌, ◌≢◌, ◌↔◌, ◌⊎◌, inl, inr, Bool, true, false, not, ◌&&◌, ◌||◌, Option,
  none, some, List, [], ◌∷◌, ◌++◌, map, Perm, arith, ltb, leb, Equality, ◌==◌, nat_eq, string_eq,
  str_eq_iff, nat_beq_iff, if◌then◌else◌, ltb→lt, leb→le, Bool-cases, Option-cases, length,
  is_empty, length-append, keep, length-keep, find_first, count, count-append, All, All-append,
  contains, concat, join, contains_text, trim_space, to_lower, itoa, text_leb, text_leb_total,
  text_leb_antisymm, text_leb_trans, sort, insert_sorted, sort-Perm, sort-sort, Map, get, put,
  get-put, get-put_self, put_again, equality_refl, UniqueKeys, put-UniqueKeys, length-put,
}
use eyrie.Monitor.{day, minute}
use eyrie.Base.Int.{ℤ, pos, negsuc}
use eyrie.Config.{Float64, DatasetConfig}
use eyrie.History.{MonitorHistorical}
use eyrie.Ingester.Tables.{Sql, Tables}
use eyrie.Ingester.Aggregate.{DailyTable, RegionTable}

-- The stages that end a pass with an error, unless the context is cancelled by then.
pub data Stage : Type 0 where
  connecting sizing deleting pruning checkpointing sizing_again : Stage

-- What a pass meets outside the program.  A statement of a day is named by the day and its number.
pub record CleanupEnv : Type 0 where
  pub now : ℕ
  pub prune_now : ℕ
  pub fails : Stage → Bool
  -- `ctx.Err() != nil` after a stage that failed, and between the stages
  pub cancelled_by_error : Stage → Bool
  pub cancelled_before : Stage → Bool
  pub delete_fails : ℕ → ℕ → Bool
  pub cancelled_before_day : ℕ → Bool
  pub cancelled_after_batch : ℕ → ℕ → Bool
  pub prune_daily_fails : Bool
  pub prune_region_fails : Bool
  pub checkpoint_fails : ℕ → Bool
  pub cancelled_in_checkpoint : ℕ → Bool

unfoldable pub utc_day_start : ℕ → ℕ
utc_day_start value = value - value % day

unfoldable pub cutoff_time : ℕ → ℕ → ℕ
cutoff_time now retention_days = now - retention_days * day

-- `NewCleanupWorker`: the interval of the passes, in nanoseconds
unfoldable pub cleanup_interval : (fl : Float64) → DatasetConfig fl → ℤ
cleanup_interval fl cfg = elim cfg.cleanup_interval_minutes [
  | pos n ↦ pos (n * minute)
  | negsuc n ↦ negsuc (suc n * minute - 1)
]

-- The rows without the first ones that pass a test, at most so many, and how many were removed.
-- `LIMIT` may take any rows: here they are the first ones of the table.
unfoldable pub delete_first :
    (MonitorHistorical → Bool) → ℕ → List MonitorHistorical → List MonitorHistorical × ℕ
delete_first p zero rows = (rows, 0)
delete_first p (suc limit) [] = ([], 0)
delete_first p (suc limit) (r ∷ rows) =
    let taken = delete_first p limit rows in
    let left = delete_first p (suc limit) rows in
    if p r then (taken.0, suc taken.1) else (r ∷ left.0, left.1)

-- `created_at >= start AND created_at < end`
unfoldable pub in_range : ℕ → ℕ → MonitorHistorical → Bool
in_range start end h = leb start h.created_at && ltb h.created_at end

-- The rows that are left, the number of deleted ones, and whether a statement failed.
pub record Deletion : Type 0 where
  pub rows : List MonitorHistorical
  pub total : ℕ
  pub failed : Bool

module _ (env : CleanupEnv) (batch_size : ℕ) where
  -- The endless loop over the statements of a day, on fuel: `none` means that the fuel ran out.
  unfoldable pub delete_batches : ℕ → ℕ → ℕ → ℕ → ℕ → List MonitorHistorical → Option Deletion
  unfolding delete_first in_range
  delete_batches zero start end number total rows = none
  delete_batches (suc fuel) start end number total rows =
      let (left, n) = delete_first (in_range start end) batch_size rows in
      let again = delete_batches fuel start end (suc number) (total + n) left in
      if env.delete_fails start number
      then some (record { rows = rows; total = total; failed = true })
      else if ltb n batch_size || env.cancelled_after_batch start number
      then some (record { rows = left; total = total + n; failed = false })
      else again

  -- Each full batch removes a row: one statement more than there are rows is enough.
  unfoldable pub delete_day_range : ℕ → ℕ → List MonitorHistorical → Option Deletion
  unfolding delete_batches
  delete_day_range start end rows = delete_batches (suc (length rows)) start end 0 0 rows

  -- The loop over the days, for so many of them at most.
  unfoldable pub delete_days : ℕ → ℕ → ℕ → ℕ → List MonitorHistorical → Option Deletion
  unfolding delete_day_range
  delete_days zero d cutoff_day total rows =
      some (record { rows = rows; total = total; failed = false })
  delete_days (suc days) d cutoff_day total rows =
      let next = λ (left : List MonitorHistorical) (n : ℕ).
        delete_days days (d + day) cutoff_day (total + n) left in
      if not (ltb d cutoff_day) || env.cancelled_before_day d
      then some (record { rows = rows; total = total; failed = false })
      else elim (delete_day_range d (d + day) rows) [
        | none ↦ none
        | some deletion ↦
            if deletion.failed
            then some (record { rows = deletion.rows; total = total; failed = true })
            else next deletion.rows deletion.total
      ]

-- `SELECT MIN(CAST(created_at AS DATE)) … WHERE created_at < cutoff`
unfoldable pub oldest_date : Sql → ℕ → List MonitorHistorical → Option ℕ
oldest_date sql cutoff [] = none
oldest_date sql cutoff (h ∷ rows) =
    let oldest = oldest_date sql cutoff rows in
    if ltb h.created_at cutoff
    then elim oldest [
      | none ↦ some (sql.date_of h.created_at)
      | some d ↦ some (if ltb (sql.date_of h.created_at) d then sql.date_of h.created_at else d)
    ]
    else oldest

unfoldable pub delete_from :
    CleanupEnv → ℕ → ℕ → Option ℕ → List MonitorHistorical → Option Deletion
unfolding delete_days
delete_from env batch_size cutoff_day none rows =
    some (record { rows = rows; total = 0; failed = false })
delete_from env batch_size cutoff_day (some oldest) rows =
    let first = utc_day_start oldest in
    delete_days env batch_size ((cutoff_day - first) / day) first cutoff_day 0 rows

-- The stage as a whole may also fail before it deletes anything.
unfoldable pub delete_expired_historical :
    CleanupEnv → Sql → ℕ → ℕ → List MonitorHistorical → Option Deletion
unfolding oldest_date delete_from utc_day_start cutoff_time
delete_expired_historical env sql retention_days batch_size rows =
    let cutoff = cutoff_time env.now retention_days in
    if env.fails deleting
    then some (record { rows = rows; total = 0; failed = true })
    else delete_from env batch_size (utc_day_start cutoff) (oldest_date sql cutoff rows) rows

-- With the batch size of the settings.  DuckDB refuses a negative `LIMIT`: then each statement fails, and
-- the number in the loop does not matter.
unfoldable pub delete_with_limit :
    CleanupEnv → Sql → ℕ → ℤ → List MonitorHistorical → Option Deletion
unfolding delete_expired_historical
delete_with_limit env sql retention_days (pos batch_size) rows =
    delete_expired_historical env sql retention_days batch_size rows
delete_with_limit env sql retention_days (negsuc n) rows =
    delete_expired_historical (record env { delete_fails = λ d i. true }) sql retention_days 1 rows
