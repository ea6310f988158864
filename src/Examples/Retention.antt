-- ===== src/Examples/Retention.antt =====
-- Runs of the cleanup worker, and of what is proved of it.
use eyrie.Base.{
  pair_eq, ◌+◌, ◌*◌, ◌/◌, ◌≡◌, refl, true, false, Option, none, some, List, [], ◌∷◌, arith, ◌==◌,
  nat_eq, string_eq, keep,
}
use eyrie.Monitor.{day, minute}
use eyrie.History.{MonitorHistorical}
use eyrie.Ingester.Tables.{Sql, Tables}
use eyrie.Cleanup.{CleanupEnv, Deletion, utc_day_start, delete_expired_historical, delete_batches}
use eyrie.Cleanup.Pass.{DatabaseSize, CleanupReport, run_cleanup, checkpoint}
use eyrie.Cleanup.Retention.{is_kept, cutoff_day_of}
use eyrie.Cleanup.Complete.{delete_expired_historical_complete}
use eyrie.Cleanup.Report.{SameInWindow, run_cleanup_safe}
use eyrie.Examples.{probe, settings}

-- The thirty-third day, with a window of thirty days.
abbrev quiet_pass : CleanupEnv
quiet_pass = record {
  now = 33 * day + minute;
  prune_now = 33 * day + minute;
  fails = λ _. false;
  cancelled_by_error = λ _. false;
  cancelled_before = λ _. false;
  delete_fails = λ _ _. false;
  cancelled_before_day = λ _. false;
  cancelled_after_batch = λ _ _. false;
  prune_daily_fails = false;
  prune_region_fails = false;
  checkpoint_fails = λ i. i == 0;
  cancelled_in_checkpoint = λ _. false;
}

abbrev utc_sql : Sql
utc_sql = record { column_time = λ t. t; date_of = utc_day_start; quotient = λ n d. n / d }

-- Two expired rows, and one of the cutoff day.
abbrev old_rows : List MonitorHistorical
old_rows = probe "eu" 200 minute ∷ probe "eu" 200 (3 * day) ∷ probe "us" 500 (2 * day) ∷ []

abbrev left_rows : Deletion
left_rows = record { rows = probe "eu" 200 (3 * day) ∷ []; total = 2; failed = false }

old_rows_deleted : delete_expired_historical quiet_pass utc_sql 30 1 old_rows ≡ some left_rows
unfolding delete_expired_historical
old_rows_deleted = refl

delete_expired_historical_complete_example :
    (del : Deletion) × (delete_expired_historical quiet_pass utc_sql 30 1 old_rows ≡ some del)
    × (del.failed ≡ false)
    × (del.rows ≡ keep (is_kept (cutoff_day_of quiet_pass 30)) old_rows)
delete_expired_historical_complete_example =
    delete_expired_historical_complete quiet_pass utc_sql 30 1 old_rows (omega arith)
      (record {
        stage_runs = refl;
        deletes_run = λ d n. refl;
        days_run = λ d. refl;
        batches_run = λ d n. refl;
      })
      (λ t. refl)

abbrev old_db : Tables
old_db = record { historical = old_rows; daily = []; region_daily = [] }

abbrev size : DatabaseSize
size = record { block_size = 262144; total_blocks = 40; free_blocks = 2 }

run_cleanup_safe_example :
    (result : Tables × Option CleanupReport) × (run_cleanup quiet_pass utc_sql settings size size
        old_db
      ≡ some result)
    × SameInWindow quiet_pass 30 old_db result.0
run_cleanup_safe_example = run_cleanup_safe quiet_pass utc_sql settings size size old_db refl

-- The second attempt succeeds.
checkpoint_twice : checkpoint quiet_pass ≡ (true, 2)
unfolding checkpoint
checkpoint_twice = refl

-- With a batch size of 0 the loop never ends by itself.
endless : delete_batches quiet_pass 0 5 0 day 0 0 old_rows ≡ none
unfolding delete_batches
endless = refl
