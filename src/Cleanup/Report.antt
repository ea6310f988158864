-- ===== src/Cleanup/Report.antt =====
-- A whole pass: what it keeps, and what it reports.
use eyrie.Base.{
  zero, suc, length, ◌+◌, ◌≤◌, ◌⊎◌, pair_eq, ℕ, String, ◌≡◌, refl, inl, inr, Bool, true, false,
  Option, some, List, [], ◌∷◌, arith, leb, nat_eq, string_eq, if◌then◌else◌, Bool-cases, keep,
}
use eyrie.Config.{Float64, DatasetConfig}
use eyrie.History.{MonitorHistorical}
use eyrie.Ingester.Tables.{
  Sql, Tables, MonitorHistoricalDailyAggregate, MonitorHistoricalRegionDailyAggregate,
}
use eyrie.Base.Int.{ℤ, pos, negsuc, is_positive}
use eyrie.Cleanup.{
  delete_with_limit, CleanupEnv, connecting, sizing, deleting, pruning, Deletion, utc_day_start,
  cutoff_time,
}
use eyrie.Cleanup.Pass.{
  DatabaseSize, prune_aggregates, CleanupReport, run_prune, run_deleted, run_cleanup,
}
use eyrie.Cleanup.Retention.{is_kept, cutoff_day_of, delete_expired_historical_safe}

-- The cutoff day of the second stage, which looks at the clock again.
abbrev pub prune_day_of : CleanupEnv → ℕ → ℕ
prune_day_of env retention_days = utc_day_start (cutoff_time env.prune_now retention_days)

-- What lies inside the retention window is the same in two databases.
pub record SameInWindow (env : CleanupEnv) (retention_days : ℕ) (db db' : Tables) : Type 0 where
  pub same_rows :
      keep (is_kept (cutoff_day_of env retention_days)) db'.historical
      ≡ keep (is_kept (cutoff_day_of env retention_days)) db.historical
  pub same_daily :
      keep (λ entry. leb (prune_day_of env retention_days) entry.0.1) db'.daily
      ≡ keep (λ entry. leb (prune_day_of env retention_days) entry.0.1) db.daily
  pub same_region_daily :
      keep (λ entry. leb (prune_day_of env retention_days) entry.0.1) db'.region_daily
      ≡ keep (λ entry. leb (prune_day_of env retention_days) entry.0.1) db.region_daily

keep-keep {ℓ} : {A : Type ℓ} (p : A → Bool) (l : List A) → keep p (keep p l) ≡ keep p l
keep-keep p [] = refl
keep-keep p (x ∷ l) = ground (arith, keep-keep p l)

prune_aggregates-SameInWindow :
    (env : CleanupEnv) (retention_days : ℕ) (db db' : Tables)
    → SameInWindow env retention_days db db'
    → SameInWindow env retention_days db (prune_aggregates env retention_days db').db
unfolding prune_aggregates
prune_aggregates-SameInWindow env retention_days db db' same = record {
  same_rows = ground (arith, same.same_rows);
  same_daily = ground (
    arith,
    keep-keep
        (λ (entry : (String × ℕ) × MonitorHistoricalDailyAggregate).
          leb (prune_day_of env retention_days) entry.0.1)
        db'.daily,
    same.same_daily,
  );
  same_region_daily = ground (
    arith,
    keep-keep
        (λ (entry : ((String × String) × ℕ) × MonitorHistoricalRegionDailyAggregate).
          leb (prune_day_of env retention_days) entry.0.1)
        db'.region_daily,
    same.same_region_daily,
  );
}

module _ {fl : Float64} (env : CleanupEnv) (sql : Sql) (cfg : DatasetConfig fl)
    (before after : DatabaseSize) where
  run_prune-db :
      (deleted : ℕ) (db : Tables)
      → (run_prune env sql cfg before after deleted db).0 ≡ (
          if env.cancelled_before pruning
          then db
          else (prune_aggregates env cfg.retention_days db).db)
  unfolding run_prune
  run_prune-db deleted db = elim (Bool-cases (env.cancelled_before pruning)) [
    | inl stop ↦ rw (stop, run_prune) refl
    | inr go ↦ elim (Bool-cases (prune_aggregates env cfg.retention_days db).failed) [
      | inl failing ↦ rw (go, failing, run_prune) refl
      | inr fine ↦ rw (go, fine, run_prune) refl
    ]
  ]

  either :
      (stop : Bool) (db db' : Tables)
      → SameInWindow env cfg.retention_days db db'
      → SameInWindow env cfg.retention_days db
          (if stop then db' else (prune_aggregates env cfg.retention_days db').db)
  either true db db' same = same
  either false db db' same = prune_aggregates-SameInWindow env cfg.retention_days db db' same

  delete_with_limit_safe :
      (limit : ℤ) (rows : List MonitorHistorical)
      → is_positive limit ≡ true
      → (del : Deletion) × (delete_with_limit env sql cfg.retention_days limit rows ≡ some del)
        × (keep (is_kept (cutoff_day_of env cfg.retention_days)) del.rows
            ≡ keep (is_kept (cutoff_day_of env cfg.retention_days)) rows)
        × ((length del.rows + del.total ≡ length rows)
            ⊎ ((del.failed ≡ true) × (length del.rows + del.total ≤ length rows)))
  unfolding delete_with_limit
  delete_with_limit_safe (pos zero) rows positive = cc
  delete_with_limit_safe (pos (suc n)) rows positive =
      delete_expired_historical_safe env sql cfg.retention_days (suc n) rows (omega arith)
  delete_with_limit_safe (negsuc n) rows positive = cc

  run_deleted_safe :
      (db : Tables) (deletion : Deletion)
      → SameInWindow env cfg.retention_days db (record db { historical = deletion.rows })
      → (result : Tables × CleanupReport) × (run_deleted env sql cfg before after db (some deletion)
          ≡ some result)
        × SameInWindow env cfg.retention_days db result.0
  unfolding run_deleted
  run_deleted_safe db deletion same =
      let db' : Tables = record db { historical = deletion.rows } in
      elim (Bool-cases deletion.failed) [
        | inl failing ↦ rw (failing, run_deleted) (_, refl, same)
        | inr fine ↦ (
          run_prune env sql cfg before after deletion.total db',
          rw (fine, run_deleted) refl,
          rw (run_prune-db deletion.total db') (either (env.cancelled_before pruning) db db' same),
        )
      ]

  -- With a batch size above 0 a pass comes to an end, and whichever stages fail and wherever it is
  -- cancelled: no submission from the cutoff day on and no aggregate from the cutoff day of the second
  -- stage on is lost, changed or moved.
  pub run_cleanup_safe :
      (db : Tables)
      → is_positive cfg.cleanup_batch_size ≡ true
      → (result : Tables × Option CleanupReport) × (run_cleanup env sql cfg before after db
          ≡ some result)
        × SameInWindow env cfg.retention_days db result.0
  unfolding run_cleanup
  run_cleanup_safe db positive = elim (Bool-cases (env.cancelled_before connecting)) [
    | inl stop ↦ rw (stop, run_cleanup) (_, refl, untouched)
    | inr go ↦ elim (Bool-cases (env.fails connecting)) [
      | inl failing ↦ rw (go, failing, run_cleanup) (_, refl, untouched)
      | inr connected ↦ elim (Bool-cases (env.fails sizing)) [
        | inl failing ↦ rw (go, connected, failing, run_cleanup) (_, refl, untouched)
        | inr sized ↦ elim (Bool-cases (env.cancelled_before deleting)) [
          | inl stop ↦ rw (go, connected, sized, stop, run_cleanup) (_, refl, untouched)
          | inr start ↦
              let (deletion, e, kept, counted) =
                delete_with_limit_safe cfg.cleanup_batch_size db.historical positive in
              let (result, f, same) =
                run_deleted_safe db deletion
                  (record { same_rows = kept; same_daily = refl; same_region_daily = refl }) in
              (
                (result.0, some result.1),
                rw (go, connected, sized, start, e, f, run_cleanup) refl,
                same,
              )
        ]
      ]
    ]
  ]
    where
      untouched : SameInWindow env cfg.retention_days db db
      untouched = record { same_rows = refl; same_daily = refl; same_region_daily = refl }
