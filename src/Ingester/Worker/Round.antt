-- ===== src/Ingester/Worker/Round.antt =====
-- What one round of aggregation leaves behind.
use eyrie.Base.{
  pair_eq, ℕ, String, ◌≡◌, refl, ap, ◌∙◌, inl, inr, Bool, true, false, ◌&&◌, Option, none, some,
  List, [], ◌∷◌, arith, ◌==◌, nat_eq, string_eq, str_eq_iff, if◌then◌else◌, Bool-cases, get,
}
use eyrie.Monitor.{Monitor}
use eyrie.Ingester.Queue.{
  Calendar, AggregationTask, TaskQueue, normalize_aggregation_date, drain_aggregation_tasks,
  enqueue_aggregation_task,
}
use eyrie.Ingester.Queue.Keys.{CalendarLaws}
use eyrie.Ingester.Tables.{Sql, Tables, find_monitor_config}
use eyrie.Ingester.Aggregate.{Fault, no_fault, aggregate_daily_monitor_historical, aggregate_found}
use eyrie.Ingester.Worker.{IngesterWorker, aggregate_tasks, aggregate_dirty_monitors}
use eyrie.Ingester.Interleaving.Due.{
  is_queued, is_inserted, is_waiting, is_current, is_due, is_queued-enqueue,
}
use eyrie.Ingester.Interleaving.Moves.{IsUtc}
use eyrie.Ingester.Interleaving.Days.{DayExact, DaySettled, Reach-DaySettled}
use eyrie.Ingester.Interleaving.Regions.{RegionDayExact, RegionSettled, Reach-RegionSettled}
use eyrie.Ingester.Interleaving.Refines.{at_rest, aggregate_dirty_monitors-Reach}

-- No call for the monitor and the day of a time fails.
abbrev pub NoFaultOn : String → ℕ → (AggregationTask → Fault) → Type 0
NoFaultOn id t fault =
    (date : ℕ)
    → normalize_aggregation_date date ≡ normalize_aggregation_date t
    → fault (record { monitor_id = id; date = date }) ≡ no_fault

abbrev concerns : String → ℕ → AggregationTask → Bool
concerns id t task =
    task.monitor_id == id && normalize_aggregation_date task.date == normalize_aggregation_date t

module _ (calendar : Calendar) (laws : CalendarLaws calendar) (sql : Sql) (monitors : List Monitor)
    (id : String) (t : ℕ) (fault : AggregationTask → Fault) (fine : NoFaultOn id t fault) where
  done_without_fault :
      (found : Option Monitor) (monitor_id : String) (date : ℕ) (db : Tables)
      → (aggregate_found sql no_fault found monitor_id date db).1 ≡ true
  unfolding aggregate_found
  done_without_fault none monitor_id date db = refl
  done_without_fault (some m) monitor_id date db = refl

  -- A task fails only with a fault of its own.
  task_done :
      (task : AggregationTask) (db : Tables)
      → concerns id t task ≡ true
      → (aggregate_daily_monitor_historical sql monitors
          (fault task)
          task.monitor_id
          task.date
          db).1
        ≡ true
  unfolding aggregate_daily_monitor_historical
  task_done task db same =
      let e : task ≡ record { monitor_id = id; date = task.date } =
        ground (arith, str_eq_iff task.monitor_id id) in
      let f : fault task ≡ no_fault = ap fault e ∙ fine task.date (ground arith) in
      rw f (
        done_without_fault (find_monitor_config monitors task.monitor_id) task.monitor_id task.date
          db)

  requeued_other :
      (done : Bool) (task : AggregationTask) (queue : TaskQueue)
      → is_queued calendar id t queue ≡ false
      → (concerns id t task ≡ true → done ≡ true)
      → is_queued calendar id t (
          if done then queue else enqueue_aggregation_task calendar task.monitor_id task.date queue)
        ≡ false
  requeued_other true task queue h k = h
  requeued_other false task queue h k = elim (Bool-cases (concerns id t task)) [
    | inl same ↦ absurd (let d : false ≡ true = k same in cc)
    | inr other ↦
        is_queued-enqueue calendar laws id task.monitor_id t task.date queue ∙ rw (other, h) refl
  ]

  tasks_not_queued :
      (tasks : List AggregationTask) (w : IngesterWorker)
      → is_queued calendar id t w.dirty_aggregation_tasks ≡ false
      → is_queued calendar id t
          (aggregate_tasks calendar sql monitors fault tasks w).dirty_aggregation_tasks
        ≡ false
  unfolding aggregate_tasks
  tasks_not_queued [] w h = h
  tasks_not_queued (task ∷ tasks) w h =
      tasks_not_queued tasks _
        (requeued_other _ task w.dirty_aggregation_tasks h (task_done task w.db))

  round_not_queued :
      (w : IngesterWorker)
      → is_queued calendar id t
          (aggregate_dirty_monitors calendar sql monitors fault w).dirty_aggregation_tasks
        ≡ false
  unfolding aggregate_dirty_monitors drain_aggregation_tasks is_queued get
  round_not_queued w =
      tasks_not_queued (drain_aggregation_tasks w.dirty_aggregation_tasks).0
        (record w { dirty_aggregation_tasks = [] }) refl

  settled_day :
      (m : Monitor) (w : IngesterWorker)
      → is_queued calendar id t w.dirty_aggregation_tasks ≡ false
      → DaySettled calendar sql m id t (at_rest w)
      → DayExact sql m id t (at_rest w)
  unfolding is_due is_inserted is_waiting
  settled_day m w q (inl due) = absurd (ground arith)
  settled_day m w q (inr exact) = exact

  settled_region :
      (m : Monitor) (region : String) (w : IngesterWorker)
      → is_queued calendar id t w.dirty_aggregation_tasks ≡ false
      → RegionSettled calendar sql m id region t (at_rest w)
      → RegionDayExact sql m id region t (at_rest w)
  unfolding is_due is_inserted is_waiting is_current
  settled_region m region w q (inl due) = absurd (ground arith)
  settled_region m region w q (inr (inl current)) = absurd (ground arith)
  settled_region m region w q (inr (inr exact)) = exact

  -- A round in which the statements for a day do not fail brings that day up to date, whatever happens
  -- to the other tasks of the round: its aggregate, and that of each region, is the one that the day's
  -- rows give, if there are rows.  The day has to be queued or exact before, its monitor configured,
  -- and the database's session in UTC.
  pub aggregate_dirty_monitors-exact :
      (region : String) (m : Monitor) (w : IngesterWorker)
      → IsUtc sql
      → find_monitor_config monitors id ≡ some m
      → DaySettled calendar sql m id t (at_rest w)
      → RegionSettled calendar sql m id region t (at_rest w)
      → DayExact sql m id t (at_rest (aggregate_dirty_monitors calendar sql monitors fault w))
        × RegionDayExact sql m id region t
            (at_rest (aggregate_dirty_monitors calendar sql monitors fault w))
  aggregate_dirty_monitors-exact region m w utc found day regional =
      let run = aggregate_dirty_monitors-Reach calendar sql monitors fault w in
      (
        settled_day m _ (round_not_queued w)
            (Reach-DaySettled calendar laws sql utc monitors id t m found run day),
        settled_region m region _ (round_not_queued w)
            (Reach-RegionSettled calendar laws sql utc monitors id region t m found run regional),
      )
