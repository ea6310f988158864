-- ===== src/Ingester/Interleaving/Moves.antt =====
-- What the steps of the two goroutines do to a day that is due, and to the rows of a day.
use eyrie.Base.{
  pair_eq, ℕ, String, ◌≡◌, ◌⊎◌, Bool, true, false, ◌&&◌, none, some, List, [], ◌∷◌, arith, ◌==◌,
  nat_eq, string_eq, str_eq_iff, keep,
}
use eyrie.Monitor.{Monitor}
use eyrie.History.{MonitorHistorical}
use eyrie.Submission.{CheckerSubmissionRequest}
use eyrie.Ingester.Queue.{Calendar, AggregationTask, normalize_aggregation_date}
use eyrie.Ingester.Queue.Keys.{CalendarLaws, normalize_again}
use eyrie.Ingester.Tables.{Sql, ingested_row, find_monitor_config}
use eyrie.Ingester.Aggregate.{on_day}
use eyrie.Ingester.Aggregate.Exact.{keep-insert_row}
use eyrie.Ingester.Interleaving.{Shared, insert_submission, queue_inserted, take_tasks, requeue}
use eyrie.Ingester.Interleaving.Due.{
  is_task, is_inserted, is_waiting, is_due, is_queued-enqueue, is_waiting-drain,
}

-- The session of the database is in UTC: it reads a row's date as the program does.
abbrev pub IsUtc : Sql → Type 0
IsUtc sql = (t : ℕ) → sql.date_of (sql.column_time t) ≡ normalize_aggregation_date t

-- A submission of the monitor on the day of a time.
abbrev pub same_day : String → ℕ → CheckerSubmissionRequest → Bool
same_day id t submission =
    submission.monitor_id == id
    && normalize_aggregation_date submission.timestamp == normalize_aggregation_date t

abbrev pub rows_of_day : Sql → String → ℕ → Shared → List MonitorHistorical
rows_of_day sql id t s = keep (on_day sql id (normalize_aggregation_date t)) s.db.historical

module _ (calendar : Calendar) (laws : CalendarLaws calendar) (sql : Sql) (utc : IsUtc sql)
    (monitors : List Monitor) (id : String) (t : ℕ) where
  -- Inserting a row of another day leaves the rows of this one alone.
  pub rows_of_day-insert :
      (s : Shared) (submission : CheckerSubmissionRequest) (region : String)
      → same_day id t submission ≡ false
      → rows_of_day sql id t (insert_submission calendar sql monitors submission region s)
        ≡ rows_of_day sql id t s
  unfolding insert_submission on_day ingested_row
  rows_of_day-insert s submission region other =
      keep-insert_row (on_day sql id (normalize_aggregation_date t))
        (ingested_row sql monitors submission region) s.db.historical
        (rw (utc submission.timestamp) other)

  pub insertion_due :
      (s : Shared) (submission : CheckerSubmissionRequest) (region : String)
      → s.inserted ≡ none
      → (is_due calendar id t s ≡ true) ⊎ (same_day id t submission ≡ true)
      → is_due calendar id t (insert_submission calendar sql monitors submission region s) ≡ true
  unfolding insert_submission is_due is_inserted
  insertion_due s submission region free h = ground arith

  pub queueing_due :
      (s : Shared) (monitor_id : String) (timestamp : ℕ)
      → s.inserted ≡ some (monitor_id, timestamp)
      → is_due calendar id t s ≡ true
      → is_due calendar id t (queue_inserted calendar sql monitors monitor_id timestamp s) ≡ true
  unfolding queue_inserted is_due is_inserted
  queueing_due s monitor_id timestamp e due =
      ground (arith, is_queued-enqueue calendar laws id monitor_id t timestamp s.queue)

  pub taking_due :
      (s : Shared)
      → s.waiting ≡ []
      → is_due calendar id t s ≡ true
      → is_due calendar id t (take_tasks calendar sql monitors s) ≡ true
  unfolding take_tasks is_due is_waiting
  taking_due s none_waiting due = ground (arith, is_waiting-drain calendar laws id t s.queue)

  is_waiting_other :
      (task : AggregationTask) (rest : List AggregationTask)
      → is_task id (normalize_aggregation_date t) task ≡ false
      → is_waiting id t (task ∷ rest) ≡ is_waiting id t rest
  unfolding is_waiting
  is_waiting_other task rest h = ground arith

  -- A task of another day is taken off the list.
  pub passing_due :
      (s : Shared) (task : AggregationTask) (rest : List AggregationTask) (u : Shared)
      → s.waiting ≡ task ∷ rest
      → is_task id (normalize_aggregation_date t) task ≡ false
      → (u.queue ≡ s.queue) × (u.inserted ≡ s.inserted) × (u.waiting ≡ rest)
      → is_due calendar id t s ≡ true
      → is_due calendar id t u ≡ true
  unfolding is_due
  passing_due s task rest u w other same due = ground (arith, is_waiting_other task rest)

  -- What a statement writes into the aggregates has no part in it.
  pub statement_due :
      (s u : Shared)
      → (u.queue ≡ s.queue) × (u.inserted ≡ s.inserted) × (u.waiting ≡ s.waiting)
      → is_due calendar id t s ≡ true
      → is_due calendar id t u ≡ true
  unfolding is_due
  statement_due s u same due = ground arith

  pub requeue_due :
      (s : Shared) (task : AggregationTask) (rest : List AggregationTask)
      → (s.waiting ≡ task ∷ rest) ⊎ (s.waiting ≡ rest)
      → is_due calendar id t s ≡ true
      → is_due calendar id t (requeue calendar sql monitors task rest s) ≡ true
  unfolding requeue is_due is_task
  requeue_due s task rest w due = ground (
    arith,
    is_queued-enqueue calendar laws id task.monitor_id t task.date s.queue,
    is_waiting_other task rest,
    normalize_again t,
  )

  -- A task of this day that fails is due again.
  pub requeue_again :
      (s : Shared) (task : AggregationTask) (rest : List AggregationTask)
      → is_task id (normalize_aggregation_date t) task ≡ true
      → is_due calendar id t (requeue calendar sql monitors task rest s) ≡ true
  unfolding requeue is_due is_task
  requeue_again s task rest same = ground (
    arith,
    is_queued-enqueue calendar laws id task.monitor_id t task.date s.queue,
    normalize_again t,
  )

  -- The monitor of a skipped task is not configured, so the task is not one of this monitor's.
  pub stale_other :
      (m : Monitor) (task : AggregationTask)
      → find_monitor_config monitors id ≡ some m
      → find_monitor_config monitors task.monitor_id ≡ none
      → is_task id (normalize_aggregation_date t) task ≡ false
  unfolding is_task
  stale_other m task found missing = ground (arith, str_eq_iff task.monitor_id id)
