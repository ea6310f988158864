-- ===== src/Cleanup/Retention.antt =====
-- The loop over the days, and the deletion as a whole: what is kept, and how many rows go.
use eyrie.Base.{
  pair_eq, ℕ, zero, suc, ◌+◌, ◌-◌, ◌/◌, ◌%◌, ◌≤◌, ◌<◌, ◌≡◌, refl, ◌⊎◌, inl, inr, Bool, true, false,
  not, ◌&&◌, ◌||◌, Option, none, some, List, arith, ltb, leb, nat_eq, string_eq, ltb→lt, Bool-cases,
  Option-cases, length, keep,
}
use eyrie.Monitor.{day}
use eyrie.History.{MonitorHistorical}
use eyrie.Ingester.Tables.{Sql}
use eyrie.Cleanup.{
  CleanupEnv, deleting, Deletion, in_range, delete_day_range, delete_days, delete_from, oldest_date,
  delete_expired_historical, utc_day_start, cutoff_time,
}
use eyrie.Cleanup.Batch.{delete_day_range_ends, delete_day_range_keeps, delete_day_range_counts}

-- A row of the cutoff day, or of a later one.
abbrev pub is_kept : ℕ → MonitorHistorical → Bool
is_kept cutoff_day h = leb cutoff_day h.created_at

-- The first instant of the day in which the cutoff lies.
abbrev pub cutoff_day_of : CleanupEnv → ℕ → ℕ
cutoff_day_of env retention_days = utc_day_start (cutoff_time env.now retention_days)

module _ (env : CleanupEnv) (batch_size : ℕ) where
  delete_days_ends :
      (days d cutoff_day total : ℕ) (rows : List MonitorHistorical)
      → 0 < batch_size
      → (del : Deletion) × (delete_days env batch_size days d cutoff_day total rows ≡ some del)
  unfolding delete_days
  delete_days_ends zero d cutoff_day total rows positive =
      (record { rows = rows; total = total; failed = false }, refl)
  delete_days_ends (suc days) d cutoff_day total rows positive =
      let (range, e) = delete_day_range_ends env batch_size positive d (d + day) rows in
      elim (Bool-cases (not (ltb d cutoff_day) || env.cancelled_before_day d)) [
        | inl stop ↦
            (record { rows = rows; total = total; failed = false }, rw (stop, delete_days) refl)
        | inr go ↦ elim (Bool-cases range.failed) [
          | inl failing ↦ (
            record { rows = range.rows; total = total; failed = true },
            rw (go, e, failing, delete_days) refl,
          )
          | inr fine ↦
              rw (go, e, fine, delete_days)
                (delete_days_ends days (d + day) cutoff_day (total + range.total) range.rows
                  positive)
        ]
      ]

  in_first_day :
      (d cutoff_day : ℕ) (b : Bool) (h : MonitorHistorical)
      → d + day ≤ cutoff_day
      → (in_range d cutoff_day h && b) ≡ false
      → (in_range d (d + day) h && b) ≡ false
  unfolding in_range
  in_first_day d cutoff_day b h le e = ground arith

  in_later_days :
      (d cutoff_day : ℕ) (b : Bool) (h : MonitorHistorical)
      → (in_range d cutoff_day h && b) ≡ false
      → (in_range (d + day) cutoff_day h && b) ≡ false
  unfolding in_range
  in_later_days d cutoff_day b h e = ground arith

  -- What lies outside of the days from `d` up to the cutoff day is not touched.
  pub delete_days_keeps :
      (q : MonitorHistorical → Bool) (days d cutoff_day total : ℕ) (rows : List MonitorHistorical)
      (del : Deletion)
      → d % day ≡ 0
      → cutoff_day % day ≡ 0
      → ((h : MonitorHistorical) → (in_range d cutoff_day h && q h) ≡ false)
      → delete_days env batch_size days d cutoff_day total rows ≡ some del
      → keep q del.rows ≡ keep q rows
  unfolding delete_days in_range
  delete_days_keeps q zero d cutoff_day total rows del a b disjoint e = ground arith
  delete_days_keeps q (suc days) d cutoff_day total rows del a b disjoint e =
      elim (Option-cases (delete_day_range env batch_size d (d + day) rows)) [
        | inl none_left ↦ ground arith
        | inr (range, eq) ↦ elim (Bool-cases (ltb d cutoff_day)) [
          | inl before ↦
              let aligned : d + day ≤ cutoff_day =
                let lt : d < cutoff_day = ltb→lt d cutoff_day before in omega arith in
              ground (
                arith,
                delete_day_range_keeps env batch_size q d (d + day) rows range
                    (λ h. in_first_day d cutoff_day (q h) h aligned (disjoint h)),
                delete_days_keeps q days (d + day) cutoff_day (total + range.total) range.rows del
                    (omega arith) b (λ h. in_later_days d cutoff_day (q h) h (disjoint h)),
              )
          | inr past ↦ ground arith
        ]
      ]

  -- The deleted rows are counted, unless a statement fails: then at most too few are.
  pub delete_days_counts :
      (days d cutoff_day total : ℕ) (rows : List MonitorHistorical) (del : Deletion)
      → delete_days env batch_size days d cutoff_day total rows ≡ some del
      → (length del.rows + del.total ≡ length rows + total)
        ⊎ ((del.failed ≡ true) × (length del.rows + del.total ≤ length rows + total))
  unfolding delete_days
  delete_days_counts zero d cutoff_day total rows del e = ground arith
  delete_days_counts (suc days) d cutoff_day total rows del e =
      elim (Option-cases (delete_day_range env batch_size d (d + day) rows)) [
        | inl none_left ↦ ground arith
        | inr (range, eq) ↦ ground (
          arith,
          delete_day_range_counts env batch_size d (d + day) rows range,
          delete_days_counts days (d + day) cutoff_day (total + range.total) range.rows del,
        )
      ]

  delete_from_safe :
      (cutoff_day : ℕ) (oldest : Option ℕ) (rows : List MonitorHistorical)
      → 0 < batch_size
      → cutoff_day % day ≡ 0
      → (del : Deletion) × (delete_from env batch_size cutoff_day oldest rows ≡ some del)
        × (keep (is_kept cutoff_day) del.rows ≡ keep (is_kept cutoff_day) rows)
        × ((length del.rows + del.total ≡ length rows)
            ⊎ ((del.failed ≡ true) × (length del.rows + del.total ≤ length rows)))
  unfolding delete_from utc_day_start in_range
  delete_from_safe cutoff_day none rows positive aligned =
      (record { rows = rows; total = 0; failed = false }, refl, refl, inl (omega arith))
  delete_from_safe cutoff_day (some oldest) rows positive aligned =
      let first = utc_day_start oldest in
      let days = (cutoff_day - first) / day in
      let (del, e) = delete_days_ends days first cutoff_day 0 rows positive in
      (
        del,
        e,
        delete_days_keeps (is_kept cutoff_day) days first cutoff_day 0 rows del (omega arith)
            aligned (λ h. ground arith) e,
        ground (arith, delete_days_counts days first cutoff_day 0 rows del),
      )

-- With a batch size above 0 the deletion comes to an end, and whatever fails and wherever it is
-- cancelled: the rows of the cutoff day and of all later days are still there, in order.  The number that
-- it answers is that of the deleted rows, or, if a statement failed, at most that.
pub delete_expired_historical_safe :
    (env : CleanupEnv) (sql : Sql) (retention_days batch_size : ℕ) (rows : List MonitorHistorical)
    → 0 < batch_size
    → (del : Deletion) × (delete_expired_historical env sql retention_days batch_size rows
        ≡ some del)
      × (keep (is_kept (cutoff_day_of env retention_days)) del.rows
          ≡ keep (is_kept (cutoff_day_of env retention_days)) rows)
      × ((length del.rows + del.total ≡ length rows)
          ⊎ ((del.failed ≡ true) × (length del.rows + del.total ≤ length rows)))
unfolding delete_expired_historical utc_day_start
delete_expired_historical_safe env sql retention_days batch_size rows positive =
    elim (Bool-cases (env.fails deleting)) [
      | inl failing ↦ (
        record { rows = rows; total = 0; failed = true },
        rw (failing, delete_expired_historical) refl,
        refl,
        inl (omega arith),
      )
      | inr fine ↦
          rw (fine, delete_expired_historical)
            (delete_from_safe env batch_size (cutoff_day_of env retention_days)
              (oldest_date sql (cutoff_time env.now retention_days) rows) rows positive
              (omega arith))
    ]
