-- ===== src/Cleanup/Complete.antt =====
-- What a deletion that is not disturbed leaves behind.
use eyrie.Base.{
  pair_eq, ℕ, zero, suc, ◌+◌, ◌-◌, ◌*◌, ◌/◌, ◌%◌, ◌≤◌, ◌<◌, ◌≡◌, refl, sym, ◌∙◌, inl, inr, Bool,
  true, false, ◌&&◌, ◌||◌, Option, none, some, List, [], ◌∷◌, arith, ltb, nat_eq, string_eq,
  Bool-cases, Option-cases, length, keep,
}
use eyrie.Monitor.{day}
use eyrie.History.{MonitorHistorical}
use eyrie.Ingester.Tables.{Sql}
use eyrie.Cleanup.{
  CleanupEnv, deleting, Deletion, delete_first, in_range, delete_batches, delete_day_range,
  delete_days, delete_from, oldest_date, delete_expired_historical, utc_day_start, cutoff_time,
}
use eyrie.Cleanup.Batch.{delete_day_range_empties}
use eyrie.Cleanup.Retention.{
  is_kept, cutoff_day_of, delete_days_keeps, delete_expired_historical_safe,
}

-- Nothing fails and nothing is cancelled while rows are deleted.
pub record IsUndisturbed (env : CleanupEnv) : Type 0 where
  pub stage_runs : env.fails deleting ≡ false
  pub deletes_run : (d n : ℕ) → env.delete_fails d n ≡ false
  pub days_run : (d : ℕ) → env.cancelled_before_day d ≡ false
  pub batches_run : (d n : ℕ) → env.cancelled_after_batch d n ≡ false

keep-split :
    (p q r : MonitorHistorical → Bool) (rows : List MonitorHistorical)
    → ((h : MonitorHistorical) → r h ≡ true → (p h || q h) ≡ true)
    → keep p rows ≡ []
    → keep q rows ≡ []
    → keep r rows ≡ []
keep-split p q r [] cover a b = refl
keep-split p q r (h ∷ rows) cover a b = ground (arith, cover h, keep-split p q r rows cover)

keep-none :
    (p : MonitorHistorical → Bool) (rows : List MonitorHistorical)
    → ((h : MonitorHistorical) → p h ≡ false)
    → keep p rows ≡ []
keep-none p [] none_pass = refl
keep-none p (h ∷ rows) none_pass = ground (arith, none_pass h, keep-none p rows none_pass)

-- Nothing passes the one test, so all pass the other.
keep-all :
    (p q : MonitorHistorical → Bool) (rows : List MonitorHistorical)
    → ((h : MonitorHistorical) → (p h || q h) ≡ true)
    → keep p rows ≡ []
    → keep q rows ≡ rows
keep-all p q [] cover a = refl
keep-all p q (h ∷ rows) cover a = ground (arith, cover h, keep-all p q rows cover)

module _ (env : CleanupEnv) (undisturbed : IsUndisturbed env) (batch_size : ℕ) where
  delete_batches_fine :
      (fuel start end number total : ℕ) (rows : List MonitorHistorical) (del : Deletion)
      → delete_batches env batch_size fuel start end number total rows ≡ some del
      → del.failed ≡ false
  unfolding delete_batches
  delete_batches_fine zero start end number total rows del e = cc
  delete_batches_fine (suc fuel) start end number total rows del e =
      let step = delete_first (in_range start end) batch_size rows in
      ground (
        arith,
        undisturbed.deletes_run start number,
        undisturbed.batches_run start number,
        delete_batches_fine fuel start end (suc number) (total + step.1) step.0 del,
      )

  delete_days_fine :
      (days d cutoff_day total : ℕ) (rows : List MonitorHistorical) (del : Deletion)
      → delete_days env batch_size days d cutoff_day total rows ≡ some del
      → del.failed ≡ false
  unfolding delete_days
  delete_days_fine zero d cutoff_day total rows del e = ground arith
  delete_days_fine (suc days) d cutoff_day total rows del e =
      elim (Option-cases (delete_day_range env batch_size d (d + day) rows)) [
        | inl none_left ↦ ground arith
        | inr (range, eq) ↦
            let fine : range.failed ≡ false =
              delete_batches_fine (suc (length rows)) d (d + day) 0 0 rows range
                (unfold delete_day_range in eq) in
            ground (
              arith,
              fine,
              delete_days_fine days (d + day) cutoff_day (total + range.total) range.rows del,
            )
      ]

  delete_days_empties :
      (days d cutoff_day total : ℕ) (rows : List MonitorHistorical) (del : Deletion)
      → d % day ≡ 0
      → cutoff_day % day ≡ 0
      → cutoff_day ≤ d + days * day
      → delete_days env batch_size days d cutoff_day total rows ≡ some del
      → del.failed ≡ false
      → keep (in_range d cutoff_day) del.rows ≡ []
  unfolding delete_days in_range
  delete_days_empties zero d cutoff_day total rows del a b le e f =
      keep-none (in_range d cutoff_day) del.rows (λ h. ground arith)
  delete_days_empties (suc days) d cutoff_day total rows del a b le e f =
      elim (Bool-cases (ltb d cutoff_day)) [
        | inr past ↦ keep-none (in_range d cutoff_day) del.rows (λ h. ground arith)
        | inl before ↦ elim (Option-cases (delete_day_range env batch_size d (d + day) rows)) [
          | inl none_left ↦ ground (arith, undisturbed.days_run d)
          | inr (range, eq) ↦
              let fine : range.failed ≡ false = ground (arith, undisturbed.days_run d) in
              let e' : delete_days env batch_size days (d + day) cutoff_day (total + range.total)
                    range.rows
                  ≡ some del =
                ground (arith, undisturbed.days_run d) in
              keep-split (in_range d (d + day)) (in_range (d + day) cutoff_day)
                (in_range d cutoff_day) del.rows (λ h. ground arith)
                (delete_days_keeps env batch_size (in_range d (d + day)) days (d + day) cutoff_day
                    (total + range.total) range.rows del (omega arith) b (λ h. ground arith) e'
                  ∙ delete_day_range_empties env batch_size d (d + day) rows range
                      (undisturbed.batches_run d) eq fine)
                (delete_days_empties days (d + day) cutoff_day (total + range.total) range.rows del
                  (omega arith) b (omega arith) e' f)
        ]
      ]

kept_outside :
    (d cutoff_day : ℕ) (h : MonitorHistorical)
    → (in_range d cutoff_day h && is_kept cutoff_day h) ≡ false
unfolding in_range
kept_outside d cutoff_day h = ground arith

early_outside :
    (d cutoff_day : ℕ) (h : MonitorHistorical)
    → (in_range d cutoff_day h && (ltb h.created_at d && ltb h.created_at cutoff_day)) ≡ false
unfolding in_range
early_outside d cutoff_day h = ground arith

expired_somewhere :
    (d cutoff_day : ℕ) (h : MonitorHistorical)
    → ltb h.created_at cutoff_day ≡ true
    → ((ltb h.created_at d && ltb h.created_at cutoff_day) || in_range d cutoff_day h) ≡ true
unfolding in_range
expired_somewhere d cutoff_day h e = ground arith

-- The dates of the database are those of the program.
abbrev pub ReadsUtc : Sql → Type 0
ReadsUtc sql = (t : ℕ) → sql.date_of t ≡ utc_day_start t

none_is_empty :
    (sql : Sql) (cutoff : ℕ) (rows : List MonitorHistorical)
    → oldest_date sql cutoff rows ≡ none
    → keep (λ h. ltb h.created_at cutoff) rows ≡ []
unfolding oldest_date
none_is_empty sql cutoff [] e = refl
none_is_empty sql cutoff (h ∷ rows) e = elim (Option-cases (oldest_date sql cutoff rows)) [
  | inl n ↦ ground (arith, none_is_empty sql cutoff rows)
  | inr (o, eq) ↦ ground arith
]

oldest_is_least :
    (sql : Sql) (cutoff bound : ℕ) (rows : List MonitorHistorical) (oldest : ℕ)
    → oldest_date sql cutoff rows ≡ some oldest
    → bound ≤ oldest
    → keep (λ h. ltb h.created_at cutoff && ltb (sql.date_of h.created_at) bound) rows ≡ []
unfolding oldest_date
oldest_is_least sql cutoff bound [] oldest e le = refl
oldest_is_least sql cutoff bound (h ∷ rows) oldest e le =
    elim (Option-cases (oldest_date sql cutoff rows)) [
      | inl n ↦
          let rest =
            keep-split (λ k. ltb k.created_at cutoff) (λ k. ltb k.created_at cutoff)
              (λ k. ltb k.created_at cutoff && ltb (sql.date_of k.created_at) bound) rows
              (λ k. ground arith) (none_is_empty sql cutoff rows n)
              (none_is_empty sql cutoff rows n) in
          ground arith
      | inr (o, eq) ↦ ground (arith, oldest_is_least sql cutoff bound rows o)
    ]

module _ (env : CleanupEnv) (undisturbed : IsUndisturbed env) (sql : Sql) (utc : ReadsUtc sql) where
  delete_from_complete :
      (batch_size cutoff : ℕ) (oldest : Option ℕ) (rows : List MonitorHistorical) (del : Deletion)
      → oldest_date sql cutoff rows ≡ oldest
      → delete_from env batch_size (utc_day_start cutoff) oldest rows ≡ some del
      → del.failed ≡ false
      → del.rows ≡ keep (is_kept (utc_day_start cutoff)) rows
  unfolding delete_from utc_day_start
  delete_from_complete batch_size cutoff none rows del o e f =
      let same : del.rows ≡ rows = ground arith in
      same
      ∙ sym (
          keep-all (λ h. ltb h.created_at cutoff) (is_kept (utc_day_start cutoff)) rows
            (λ h. ground arith) (none_is_empty sql cutoff rows o))
  delete_from_complete batch_size cutoff (some oldest) rows del o e f =
      let first = utc_day_start oldest in
      let cutoff_day = utc_day_start cutoff in
      let days = (cutoff_day - first) / day in
      let early =
        λ (h : MonitorHistorical). ltb h.created_at first && ltb h.created_at cutoff_day in
      let none_early : keep early rows ≡ [] =
        keep-split (λ k. ltb k.created_at cutoff && ltb (sql.date_of k.created_at) oldest)
          (λ k. ltb k.created_at cutoff && ltb (sql.date_of k.created_at) oldest) early rows
          (λ h. ground (arith, utc h.created_at))
          (oldest_is_least sql cutoff oldest rows oldest o (omega arith))
          (oldest_is_least sql cutoff oldest rows oldest o (omega arith)) in
      let kept =
        delete_days_keeps env batch_size (is_kept cutoff_day) days first cutoff_day 0 rows del
          (omega arith) (omega arith) (λ h. kept_outside first cutoff_day h) e in
      let still_none_early =
        delete_days_keeps env batch_size early days first cutoff_day 0 rows del (omega arith)
          (omega arith) (λ h. early_outside first cutoff_day h) e in
      let gone =
        delete_days_empties env undisturbed batch_size days first cutoff_day 0 rows del
          (omega arith) (omega arith) (omega arith) e f in
      sym (
        keep-all (λ h. ltb h.created_at cutoff_day) (is_kept cutoff_day) del.rows
          (λ h. ground arith)
          (keep-split early (in_range first cutoff_day) (λ h. ltb h.created_at cutoff_day) del.rows
            (λ h. expired_somewhere first cutoff_day h) (still_none_early ∙ none_early) gone))
      ∙ kept

delete_from_fine :
    (env : CleanupEnv) (batch_size cutoff_day : ℕ) (oldest : Option ℕ)
    (rows : List MonitorHistorical) (del : Deletion)
    → IsUndisturbed env
    → delete_from env batch_size cutoff_day oldest rows ≡ some del
    → del.failed ≡ false
unfolding delete_from
delete_from_fine env batch_size cutoff_day none rows del undisturbed e = ground arith
delete_from_fine env batch_size cutoff_day (some oldest) rows del undisturbed e =
    delete_days_fine env undisturbed batch_size _ _ cutoff_day 0 rows del e

-- With a batch size above 0, when nothing fails, nothing is cancelled and the database's session is in
-- UTC, the deletion comes to an end without a failure and leaves exactly the rows of the cutoff day and of
-- all later days, in order.
pub delete_expired_historical_complete :
    (env : CleanupEnv) (sql : Sql) (retention_days batch_size : ℕ) (rows : List MonitorHistorical)
    → 0 < batch_size
    → IsUndisturbed env
    → ReadsUtc sql
    → (del : Deletion) × (delete_expired_historical env sql retention_days batch_size rows
        ≡ some del)
      × (del.failed ≡ false)
      × (del.rows ≡ keep (is_kept (cutoff_day_of env retention_days)) rows)
delete_expired_historical_complete env sql retention_days batch_size rows positive undisturbed utc =
    let (del, e, _, _) =
      delete_expired_historical_safe env sql retention_days batch_size rows positive in
    let oldest = oldest_date sql (cutoff_time env.now retention_days) rows in
    let from : delete_from env batch_size (utc_day_start (cutoff_time env.now retention_days))
          oldest rows
        ≡ some del =
      unfold delete_expired_historical in ground (arith, undisturbed.stage_runs, e) in
    let fine = delete_from_fine env batch_size _ oldest rows del undisturbed from in
    (
      del,
      e,
      fine,
      delete_from_complete env undisturbed sql utc batch_size (cutoff_time env.now retention_days)
          oldest rows del refl from fine,
    )
