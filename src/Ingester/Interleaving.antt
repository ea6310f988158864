-- ===== src/Ingester/Interleaving.antt =====
-- worker_ingester.go: its two goroutines as steps.  The message loop inserts a row and then queues its
-- day; the aggregation loop takes the queue, and runs the two statements of each task.  Between any two
-- of these steps the other goroutine may run.
pub mod Due
pub mod Moves
pub mod Days
pub mod Regions
pub mod Idle
pub mod Refines
use eyrie.Base.{
  pair_eq, contains_char, split_at_last, LinearOrder, sort_by, Ascending, sort_by-Perm,
  sort_by-Ascending, count-sort_by, unique_from, count-unique_from, contains-unique_from,
  insert_sorted_comm, String-discrete, ℕ, zero, suc, ◌+◌, ◌-◌, ◌*◌, ◌/◌, ◌%◌, ◌≤◌, ◌<◌, String, ◌≡◌,
  refl, sym, ap, ap₂, ◌∙◌, ◌≢◌, ◌↔◌, ◌⊎◌, inl, inr, Bool, true, false, not, ◌&&◌, ◌||◌, Option,
  none, some, List, [], ◌∷◌, ◌++◌, map, Perm, arith, ltb, leb, Equality, ◌==◌, nat_eq, string_eq,
  str_eq_iff, nat_beq_iff, if◌then◌else◌, ltb→lt, leb→le, Bool-cases, Option-cases, length,
  is_empty, length-append, keep, length-keep, find_first, count, count-append, All, All-append,
  contains, concat, join, contains_text, trim_space, to_lower, itoa, text_leb, text_leb_total,
  text_leb_antisymm, text_leb_trans, sort, insert_sorted, sort-Perm, sort-sort, Map, get, put,
  get-put, get-put_self, equality_refl, UniqueKeys, put-UniqueKeys, length-put,
}
use eyrie.Monitor.{Monitor}
use eyrie.Submission.{CheckerSubmissionRequest}
use eyrie.Ingester.Queue.{
  Calendar, AggregationTask, TaskQueue, enqueue_aggregation_task, drain_aggregation_tasks,
}
use eyrie.Ingester.Tables.{Sql, Tables, ingested_row, insert_row, find_monitor_config}
use eyrie.Ingester.Aggregate.{aggregate_days, aggregate_regions}

-- `inserted` is a day whose row is in the table and which is not queued yet; `waiting` are the tasks
-- that were drained, and `current` is the one between its two statements.
pub record Shared : Type 0 where
  pub db : Tables
  pub queue : TaskQueue
  pub inserted : Option (String × ℕ)
  pub waiting : List AggregationTask
  pub current : Option AggregationTask

module _ (calendar : Calendar) (sql : Sql) (monitors : List Monitor) where
  unfoldable pub insert_submission : CheckerSubmissionRequest → String → Shared → Shared
  insert_submission submission region s = record s {
    db = record s.db {
      historical = insert_row (ingested_row sql monitors submission region) s.db.historical;
    };
    inserted = some (submission.monitor_id, submission.timestamp);
  }

  unfoldable pub queue_inserted : String → ℕ → Shared → Shared
  queue_inserted monitor_id timestamp s = record s {
    queue = enqueue_aggregation_task calendar monitor_id timestamp s.queue;
    inserted = none;
  }

  unfoldable pub take_tasks : Shared → Shared
  take_tasks s =
      let (tasks, queue) = drain_aggregation_tasks s.queue in
      record s { queue = queue; waiting = tasks }

  unfoldable pub run_days : Monitor → AggregationTask → List AggregationTask → Shared → Shared
  run_days m task rest s = record s {
    db = aggregate_days sql m task.monitor_id task.date s.db;
    waiting = rest;
    current = some task;
  }

  unfoldable pub run_regions : Monitor → AggregationTask → Shared → Shared
  run_regions m task s = record s {
    db = aggregate_regions sql m task.monitor_id task.date s.db;
    current = none;
  }

  unfoldable pub requeue : AggregationTask → List AggregationTask → Shared → Shared
  requeue task rest s = record s {
    queue = enqueue_aggregation_task calendar task.monitor_id task.date s.queue;
    waiting = rest;
    current = none;
  }

  pub data Step : Shared → Shared → Type 0 where
    -- the message loop
    insertion :
        (s : Shared) (submission : CheckerSubmissionRequest) (region : String)
        → s.inserted ≡ none
        → Step s (insert_submission submission region s)
    queueing :
        (s : Shared) (monitor_id : String) (timestamp : ℕ)
        → s.inserted ≡ some (monitor_id, timestamp)
        → Step s (queue_inserted monitor_id timestamp s)
    -- the aggregation loop
    taking : (s : Shared) → s.waiting ≡ [] → s.current ≡ none → Step s (take_tasks s)
    stale :
        (s : Shared) (task : AggregationTask) (rest : List AggregationTask)
        → s.current ≡ none
        → s.waiting ≡ task ∷ rest
        → find_monitor_config monitors task.monitor_id ≡ none
        → Step s (record s { waiting = rest })
    days_done :
        (s : Shared) (m : Monitor) (task : AggregationTask) (rest : List AggregationTask)
        → s.current ≡ none
        → s.waiting ≡ task ∷ rest
        → find_monitor_config monitors task.monitor_id ≡ some m
        → Step s (run_days m task rest s)
    -- no connection, or the first statement fails
    days_failed :
        (s : Shared) (task : AggregationTask) (rest : List AggregationTask)
        → s.current ≡ none
        → s.waiting ≡ task ∷ rest
        → Step s (requeue task rest s)
    regions_done :
        (s : Shared) (m : Monitor) (task : AggregationTask)
        → s.current ≡ some task
        → find_monitor_config monitors task.monitor_id ≡ some m
        → Step s (run_regions m task s)
    regions_failed :
        (s : Shared) (task : AggregationTask)
        → s.current ≡ some task
        → Step s (requeue task s.waiting s)

  pub data Reach (s : Shared) : Shared → Type 0 where
    here : Reach s s
    next : {t u : Shared} → Reach s t → Step t u → Reach s u
