-- ===== src/Ingester/Interleaving/Regions.antt =====
-- Every regional aggregate is exact or due, through all interleavings of the two goroutines.
use eyrie.Base.{
  pair_eq, unique_from, ℕ, String, ◌≡◌, refl, sym, ap, ◌∙◌, ◌⊎◌, inl, inr, true, false, none, some,
  List, [], ◌∷◌, map, arith, nat_eq, string_eq, str_eq_iff, Bool-cases, keep,
}
use eyrie.Monitor.{Monitor}
use eyrie.Submission.{CheckerSubmissionRequest}
use eyrie.Ingester.Queue.{Calendar, AggregationTask, normalize_aggregation_date}
use eyrie.Ingester.Queue.Keys.{CalendarLaws}
use eyrie.Ingester.Tables.{Sql, find_monitor_config}
use eyrie.Ingester.Aggregate.{
  aggregate_days, aggregate_regions, on_day, of_region, build_success_count_expression,
}
use eyrie.Ingester.Aggregate.Exact.{
  RegionExact, upsert_regions-RegionExact, upsert_regions_other, RegionExact-eq,
}
use eyrie.Ingester.Interleaving.{
  Shared, Step, Reach, insertion, queueing, taking, stale, days_done, days_failed, regions_done,
  regions_failed, here, next, insert_submission, queue_inserted, take_tasks, run_days, run_regions,
  requeue,
}
use eyrie.Ingester.Interleaving.Due.{is_task, is_due, is_current}
use eyrie.Ingester.Interleaving.Moves.{
  IsUtc, same_day, rows_of_day, rows_of_day-insert, insertion_due, queueing_due, taking_due,
  passing_due, statement_due, requeue_due, requeue_again, stale_other,
}

-- The stored aggregate of a region on the day of `t` is the one that its rows give, if there are rows.
abbrev pub RegionDayExact : Sql → Monitor → String → String → ℕ → Shared → Type 0
RegionDayExact sql m id region t s =
    RegionExact sql (build_success_count_expression m) id region (normalize_aggregation_date t)
      (keep (of_region region) (rows_of_day sql id t s)) s.db.region_daily

-- Between its two statements, a task's regions are due.
abbrev pub RegionSettled : Calendar → Sql → Monitor → String → String → ℕ → Shared → Type 0
RegionSettled calendar sql m id region t s =
    (is_due calendar id t s ≡ true)
    ⊎ (is_current id t s.current ≡ true)
    ⊎ RegionDayExact sql m id region t s

module _ (calendar : Calendar) (laws : CalendarLaws calendar) (sql : Sql) (utc : IsUtc sql)
    (monitors : List Monitor) (id region : String) (t : ℕ) (m : Monitor)
    (found : find_monitor_config monitors id ≡ some m) where
  insertion-RegionSettled :
      (s : Shared) (submission : CheckerSubmissionRequest) (r : String)
      → s.inserted ≡ none
      → RegionSettled calendar sql m id region t s
      → (same_day id t submission ≡ true) ⊎ (same_day id t submission ≡ false)
      → RegionSettled calendar sql m id region t
          (insert_submission calendar sql monitors submission r s)
  unfolding insert_submission
  insertion-RegionSettled s submission r free h (inl same) =
      inl (insertion_due calendar laws sql utc monitors id t s submission r free (inr same))
  insertion-RegionSettled s submission r free (inl due) (inr other) =
      inl (insertion_due calendar laws sql utc monitors id t s submission r free (inl due))
  insertion-RegionSettled s submission r free (inr (inl current)) (inr other) = inr (inl current)
  insertion-RegionSettled s submission r free (inr (inr exact)) (inr other) =
      inr (
        inr
          (rw (rows_of_day-insert calendar laws sql utc monitors id t s submission r other) exact))

  days_done-RegionSettled :
      (s : Shared) (n : Monitor) (task : AggregationTask) (rest : List AggregationTask)
      → s.current ≡ none
      → s.waiting ≡ task ∷ rest
      → RegionSettled calendar sql m id region t s
      → (is_task id (normalize_aggregation_date t) task ≡ true)
        ⊎ (is_task id (normalize_aggregation_date t) task ≡ false)
      → RegionSettled calendar sql m id region t (run_days calendar sql monitors n task rest s)
  unfolding run_days aggregate_days is_current
  days_done-RegionSettled s n task rest c w h (inl same) = inr (inl same)
  days_done-RegionSettled s n task rest c w (inl due) (inr other) =
      inl (
        passing_due calendar laws sql utc monitors id t s task rest _ w other (refl, refl, refl)
          due)
  days_done-RegionSettled s n task rest c w (inr (inl current)) (inr other) = ground arith
  days_done-RegionSettled s n task rest c w (inr (inr exact)) (inr other) = inr (inr exact)

  aggregate_regions-RegionDayExact :
      (n : Monitor) (task : AggregationTask) (s : Shared)
      → n ≡ m
      → task.monitor_id ≡ id
      → task.date ≡ normalize_aggregation_date t
      → RegionDayExact sql m id region t (run_regions calendar sql monitors n task s)
  unfolding aggregate_regions run_regions
  aggregate_regions-RegionDayExact n task s e f g =
      rw (e, f, g)
        (upsert_regions-RegionExact sql (build_success_count_expression m) id region
          (normalize_aggregation_date t) (rows_of_day sql id t s) s.db.region_daily)

  aggregate_regions_other :
      (n : Monitor) (task : AggregationTask) (s : Shared)
      → is_task id (normalize_aggregation_date t) task ≡ false
      → RegionDayExact sql m id region t s
      → RegionDayExact sql m id region t (run_regions calendar sql monitors n task s)
  unfolding aggregate_regions run_regions is_task
  aggregate_regions_other n task s other exact =
      let rows = keep (on_day sql task.monitor_id task.date) s.db.historical in
      RegionExact-eq sql (build_success_count_expression m) id region (normalize_aggregation_date t)
        (keep (of_region region) (rows_of_day sql id t s)) s.db.region_daily _
        (upsert_regions_other sql (build_success_count_expression n) id region
          (normalize_aggregation_date t) task.monitor_id task.date
          (unique_from [] (map (λ h. h.region) rows)) rows s.db.region_daily (ground arith))
        exact

  regions_done-RegionSettled :
      (s : Shared) (n : Monitor) (task : AggregationTask)
      → s.current ≡ some task
      → find_monitor_config monitors task.monitor_id ≡ some n
      → RegionSettled calendar sql m id region t s
      → (is_task id (normalize_aggregation_date t) task ≡ true)
        ⊎ (is_task id (normalize_aggregation_date t) task ≡ false)
      → RegionSettled calendar sql m id region t (run_regions calendar sql monitors n task s)
  unfolding is_task run_regions is_current
  regions_done-RegionSettled s n task c f h (inl same) = inr (
      inr (
        aggregate_regions-RegionDayExact n task s (ground (arith, str_eq_iff task.monitor_id id))
          (ground (arith, str_eq_iff task.monitor_id id)) (ground arith)))
  regions_done-RegionSettled s n task c f (inl due) (inr other) =
      inl (statement_due calendar laws sql utc monitors id t s _ (refl, refl, refl) due)
  regions_done-RegionSettled s n task c f (inr (inl current)) (inr other) = ground arith
  regions_done-RegionSettled s n task c f (inr (inr exact)) (inr other) =
      inr (inr (aggregate_regions_other n task s other exact))

  pub Step-RegionSettled :
      {s u : Shared}
      → Step calendar sql monitors s u
      → RegionSettled calendar sql m id region t s
      → RegionSettled calendar sql m id region t u
  unfolding queue_inserted take_tasks requeue is_current
  Step-RegionSettled (insertion s submission r free) h =
      insertion-RegionSettled s submission r free h (Bool-cases (same_day id t submission))
  Step-RegionSettled (queueing s monitor_id timestamp e) (inl due) =
      inl (queueing_due calendar laws sql utc monitors id t s monitor_id timestamp e due)
  Step-RegionSettled (queueing s monitor_id timestamp e) (inr rest) = inr rest
  Step-RegionSettled (taking s w c) (inl due) =
      inl (taking_due calendar laws sql utc monitors id t s w due)
  Step-RegionSettled (taking s w c) (inr rest) = inr rest
  Step-RegionSettled (stale s task rest c w missing) (inl due) = inl (
      passing_due calendar laws sql utc monitors id t s task rest _ w
        (stale_other calendar laws sql utc monitors id t m task found missing) (refl, refl, refl)
        due)
  Step-RegionSettled (stale s task rest c w missing) (inr other) = inr other
  Step-RegionSettled (days_done s n task rest c w f) h =
      days_done-RegionSettled s n task rest c w h
        (Bool-cases (is_task id (normalize_aggregation_date t) task))
  Step-RegionSettled (days_failed s task rest c w) (inl due) =
      inl (requeue_due calendar laws sql utc monitors id t s task rest (inl w) due)
  Step-RegionSettled (days_failed s task rest c w) (inr (inl current)) = ground arith
  Step-RegionSettled (days_failed s task rest c w) (inr (inr exact)) = inr (inr exact)
  Step-RegionSettled (regions_done s n task c f) h =
      regions_done-RegionSettled s n task c f h
        (Bool-cases (is_task id (normalize_aggregation_date t) task))
  Step-RegionSettled (regions_failed s task c) (inl due) =
      inl (requeue_due calendar laws sql utc monitors id t s task s.waiting (inr refl) due)
  Step-RegionSettled (regions_failed s task c) (inr (inl current)) = inl (
      requeue_again calendar laws sql utc monitors id t s task s.waiting
        (ap (λ o. is_current id t o) (sym c) ∙ current))
  Step-RegionSettled (regions_failed s task c) (inr (inr exact)) = inr (inr exact)

  -- From a state where the region's aggregate is exact or due, every interleaving leads to such states.
  pub Reach-RegionSettled :
      {s u : Shared}
      → Reach calendar sql monitors s u
      → RegionSettled calendar sql m id region t s
      → RegionSettled calendar sql m id region t u
  Reach-RegionSettled here h = h
  Reach-RegionSettled (next r step) h = Step-RegionSettled step (Reach-RegionSettled r h)
