-- ===== src/Ingester/Interleaving/Days.antt =====
-- Every daily aggregate is exact or due, through all interleavings of the two goroutines.
use eyrie.Base.{
  pair_eq, ℕ, String, ◌≡◌, refl, ◌⊎◌, inl, inr, true, false, none, some, List, ◌∷◌, arith, nat_eq,
  string_eq, str_eq_iff, Bool-cases,
}
use eyrie.Monitor.{Monitor}
use eyrie.Submission.{CheckerSubmissionRequest}
use eyrie.Ingester.Queue.{Calendar, AggregationTask, normalize_aggregation_date}
use eyrie.Ingester.Queue.Keys.{CalendarLaws}
use eyrie.Ingester.Tables.{Sql, find_monitor_config}
use eyrie.Ingester.Aggregate.{aggregate_days, aggregate_regions, build_success_count_expression}
use eyrie.Ingester.Aggregate.Exact.{
  DailyExact, upsert_daily-DailyExact, upsert_daily_other, DailyExact-eq,
}
use eyrie.Ingester.Interleaving.{
  Shared, Step, Reach, insertion, queueing, taking, stale, days_done, days_failed, regions_done,
  regions_failed, here, next, insert_submission, queue_inserted, take_tasks, run_days, run_regions,
  requeue,
}
use eyrie.Ingester.Interleaving.Due.{is_task, is_due}
use eyrie.Ingester.Interleaving.Moves.{
  IsUtc, same_day, rows_of_day, rows_of_day-insert, insertion_due, queueing_due, taking_due,
  passing_due, statement_due, requeue_due, stale_other,
}

-- The stored aggregate of the day of `t` is the one that its rows give, if there are rows.
abbrev pub DayExact : Sql → Monitor → String → ℕ → Shared → Type 0
DayExact sql m id t s =
    DailyExact sql (build_success_count_expression m) id (normalize_aggregation_date t)
      (rows_of_day sql id t s) s.db.daily

abbrev pub DaySettled : Calendar → Sql → Monitor → String → ℕ → Shared → Type 0
DaySettled calendar sql m id t s = (is_due calendar id t s ≡ true) ⊎ DayExact sql m id t s

module _ (calendar : Calendar) (laws : CalendarLaws calendar) (sql : Sql) (utc : IsUtc sql)
    (monitors : List Monitor) (id : String) (t : ℕ) (m : Monitor)
    (found : find_monitor_config monitors id ≡ some m) where
  insertion-DaySettled :
      (s : Shared) (submission : CheckerSubmissionRequest) (region : String)
      → s.inserted ≡ none
      → DaySettled calendar sql m id t s
      → DaySettled calendar sql m id t (insert_submission calendar sql monitors submission region s)
  unfolding insert_submission
  insertion-DaySettled s submission region free (inl due) =
      inl (insertion_due calendar laws sql utc monitors id t s submission region free (inl due))
  insertion-DaySettled s submission region free (inr exact) =
      elim (Bool-cases (same_day id t submission)) [
        | inl same ↦
            inl (
              insertion_due calendar laws sql utc monitors id t s submission region free (inr same))
        | inr other ↦ inr (
            rw (rows_of_day-insert calendar laws sql utc monitors id t s submission region other)
              exact)
      ]

  aggregate_days-DayExact :
      (n : Monitor) (task : AggregationTask) (rest : List AggregationTask) (s : Shared)
      → n ≡ m
      → task.monitor_id ≡ id
      → task.date ≡ normalize_aggregation_date t
      → DayExact sql m id t (run_days calendar sql monitors n task rest s)
  unfolding aggregate_days run_days
  aggregate_days-DayExact n task rest s e f g =
      rw (e, f, g)
        (upsert_daily-DailyExact sql (build_success_count_expression m) id
          (normalize_aggregation_date t) (rows_of_day sql id t s) s.db.daily)

  aggregate_days_other :
      (n : Monitor) (task : AggregationTask) (rest : List AggregationTask) (s : Shared)
      → is_task id (normalize_aggregation_date t) task ≡ false
      → DayExact sql m id t s
      → DayExact sql m id t (run_days calendar sql monitors n task rest s)
  unfolding aggregate_days run_days is_task
  aggregate_days_other n task rest s other exact =
      DailyExact-eq sql (build_success_count_expression m) id (normalize_aggregation_date t)
        (rows_of_day sql id t s) s.db.daily _
        (upsert_daily_other sql (build_success_count_expression n) id (normalize_aggregation_date t)
          task.monitor_id task.date _ s.db.daily other)
        exact

  days_done-DaySettled :
      (s : Shared) (n : Monitor) (task : AggregationTask) (rest : List AggregationTask)
      → s.waiting ≡ task ∷ rest
      → find_monitor_config monitors task.monitor_id ≡ some n
      → DaySettled calendar sql m id t s
      → (is_task id (normalize_aggregation_date t) task ≡ true)
        ⊎ (is_task id (normalize_aggregation_date t) task ≡ false)
      → DaySettled calendar sql m id t (run_days calendar sql monitors n task rest s)
  unfolding is_task run_days
  days_done-DaySettled s n task rest w f h (inl same) = inr (
      aggregate_days-DayExact n task rest s (ground (arith, str_eq_iff task.monitor_id id))
        (ground (arith, str_eq_iff task.monitor_id id)) (ground arith))
  days_done-DaySettled s n task rest w f (inl due) (inr other) =
      inl (
        passing_due calendar laws sql utc monitors id t s task rest _ w other (refl, refl, refl)
          due)
  days_done-DaySettled s n task rest w f (inr exact) (inr other) =
      inr (aggregate_days_other n task rest s other exact)

  pub Step-DaySettled :
      {s u : Shared}
      → Step calendar sql monitors s u
      → DaySettled calendar sql m id t s
      → DaySettled calendar sql m id t u
  unfolding queue_inserted take_tasks requeue run_regions aggregate_regions
  Step-DaySettled (insertion s submission region free) h =
      insertion-DaySettled s submission region free h
  Step-DaySettled (queueing s monitor_id timestamp e) (inl due) =
      inl (queueing_due calendar laws sql utc monitors id t s monitor_id timestamp e due)
  Step-DaySettled (queueing s monitor_id timestamp e) (inr exact) = inr exact
  Step-DaySettled (taking s w c) (inl due) =
      inl (taking_due calendar laws sql utc monitors id t s w due)
  Step-DaySettled (taking s w c) (inr exact) = inr exact
  Step-DaySettled (stale s task rest c w missing) (inl due) = inl (
      passing_due calendar laws sql utc monitors id t s task rest _ w
        (stale_other calendar laws sql utc monitors id t m task found missing) (refl, refl, refl)
        due)
  Step-DaySettled (stale s task rest c w missing) (inr exact) = inr exact
  Step-DaySettled (days_done s n task rest c w f) h =
      days_done-DaySettled s n task rest w f h
        (Bool-cases (is_task id (normalize_aggregation_date t) task))
  Step-DaySettled (days_failed s task rest c w) (inl due) =
      inl (requeue_due calendar laws sql utc monitors id t s task rest (inl w) due)
  Step-DaySettled (days_failed s task rest c w) (inr exact) = inr exact
  Step-DaySettled (regions_done s n task c f) (inl due) =
      inl (statement_due calendar laws sql utc monitors id t s _ (refl, refl, refl) due)
  Step-DaySettled (regions_done s n task c f) (inr exact) = inr exact
  Step-DaySettled (regions_failed s task c) (inl due) =
      inl (requeue_due calendar laws sql utc monitors id t s task s.waiting (inr refl) due)
  Step-DaySettled (regions_failed s task c) (inr exact) = inr exact

  -- From a state where the day's aggregate is exact or due, every interleaving leads to such states.
  pub Reach-DaySettled :
      {s u : Shared}
      → Reach calendar sql monitors s u
      → DaySettled calendar sql m id t s
      → DaySettled calendar sql m id t u
  Reach-DaySettled here h = h
  Reach-DaySettled (next r step) h = Step-DaySettled step (Reach-DaySettled r h)
