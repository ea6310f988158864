-- ===== src/Ingester/Worker.antt =====
-- worker_ingester.go: one message of `Start`, one round of `runPeriodicAggregation`, and the seed.
-- Connections and statements that fail, the clock and the parser of dates are parameters; tracing,
-- metrics, logging and sleeping are left out.
pub mod Round
pub mod Seed
pub mod Redelivery
use eyrie.Base.{
  pair_eq, contains_char, split_at_last, LinearOrder, sort_by, Ascending, sort_by-Perm,
  sort_by-Ascending, count-sort_by, unique_from, count-unique_from, insert_sorted_comm,
  String-discrete, ℕ, zero, suc, ◌+◌, ◌-◌, ◌*◌, ◌/◌, ◌%◌, ◌≤◌, ◌<◌, String, ◌≡◌, refl, sym, ap, ap₂,
  ◌∙◌, ◌≢◌, ◌↔◌, ◌⊎◌, inl, inr, Bool, true, false, not, ◌&&◌, ◌||◌, Option, none, some, List, [],
  ◌∷◌, ◌++◌, map, Perm, arith, ltb, leb, Equality, ◌==◌, nat_eq, string_eq, str_eq_iff, nat_beq_iff,
  if◌then◌else◌, ltb→lt, leb→le, Bool-cases, Option-cases, length, is_empty, length-append, keep,
  length-keep, find_first, count, count-append, All, All-append, contains, concat, join,
  contains_text, trim_space, to_lower, itoa, text_leb, text_leb_total, text_leb_antisymm,
  text_leb_trans, sort, insert_sorted, sort-Perm, sort-sort, Map, get, put, get-put, get-put_self,
  equality_refl, UniqueKeys, put-UniqueKeys, length-put,
}
use eyrie.Monitor.{Monitor, day}
use eyrie.Submission.{CheckerSubmissionRequest}
use eyrie.Processor.Handle.{Disposition, acked, nacked}
use eyrie.History.{MonitorHistorical}
use eyrie.Config.{Float64, DatasetConfig}
use eyrie.Ingester.Queue.{
  Calendar, AggregationTask, TaskQueue, enqueue_aggregation_task, drain_aggregation_tasks,
  normalize_aggregation_date,
}
use eyrie.Ingester.Tables.{Sql, Tables, ingested_row, insert_row}
use eyrie.Ingester.Aggregate.{Fault, aggregate_daily_monitor_historical}

pub record IngesterWorker : Type 0 where
  pub db : Tables
  pub dirty_aggregation_tasks : TaskQueue

unfoldable pub new_ingester_worker : Tables → IngesterWorker
new_ingester_worker db = record { db = db; dirty_aggregation_tasks = [] }

-- What one message meets outside the program.
pub record IngestEnv : Type 0 where
  pub connection_fails : Bool
  pub insert_fails : Bool
  pub nackable : Bool

-- What the seed meets: the clock, the calls that fail, the driver's text for a date, and the parser,
-- which takes a layout and reads the clock time that the text shows.
pub record SeedEnv : Type 0 where
  pub now : ℕ
  pub connection_fails : Bool
  pub query_fails : Bool
  pub date_text : ℕ → Option String
  pub parse : String → String → Option ℕ

unfoldable pub aggregation_seed_lookback : (fl : Float64) → DatasetConfig fl → ℕ
aggregation_seed_lookback fl cfg =
    let days = if cfg.retention_days == 0 then 30 else cfg.retention_days in days * day

-- `message.Metadata["region"]`, or the default
unfoldable pub region_of : Option (Map String String) → String
region_of none = "default"
region_of (some metadata) = elim (get "region" metadata) [ none ↦ "default" | some r ↦ r ]

unfoldable pub parse_layouts : (String → String → Option ℕ) → List String → String → Option ℕ
parse_layouts parse [] trimmed = none
parse_layouts parse (layout ∷ layouts) trimmed =
    let rest = parse_layouts parse layouts trimmed in
    elim (parse layout trimmed) [ none ↦ rest | some t ↦ some (normalize_aggregation_date t) ]

unfoldable pub parse_aggregation_date : (String → String → Option ℕ) → String → Option ℕ
unfolding parse_layouts
parse_aggregation_date parse raw =
    parse_layouts parse
      ("2006-01-02" ∷ "2006-01-02T15:04:05.999999999Z07:00" ∷ "2006-01-02T15:04:05Z07:00" ∷ [])
      (trim_space raw)

module _ (calendar : Calendar) (sql : Sql) (monitors : List Monitor) where
  -- `none` is an error; nothing is queued then.
  unfoldable pub ingest_monitor_historical :
      IngestEnv → CheckerSubmissionRequest → String → IngesterWorker → Option IngesterWorker
  ingest_monitor_historical env submission region w =
      if env.connection_fails || env.insert_fails
      then none
      else some (record {
        db = record w.db {
          historical = insert_row (ingested_row sql monitors submission region) w.db.historical;
        };
        dirty_aggregation_tasks =
            enqueue_aggregation_task calendar submission.monitor_id submission.timestamp
              w.dirty_aggregation_tasks;
      })

  unfoldable pub refuse : IngestEnv → Disposition
  refuse env = if env.nackable then nacked else acked

  -- The first `Option` is a body that does not unmarshal.
  unfoldable pub process_message :
      IngestEnv
      → Option CheckerSubmissionRequest
      → Option (Map String String)
      → IngesterWorker
      → IngesterWorker × Disposition
  unfolding ingest_monitor_historical refuse region_of
  process_message env none metadata w = (w, refuse env)
  process_message env (some request) metadata w =
      elim (ingest_monitor_historical env request (region_of metadata) w) [
        | none ↦ (w, refuse env)
        | some w' ↦ (w', acked)
      ]

  -- The loop over the drained tasks: a task that fails is queued again.
  unfoldable pub aggregate_tasks :
      (AggregationTask → Fault) → List AggregationTask → IngesterWorker → IngesterWorker
  aggregate_tasks fault [] w = w
  aggregate_tasks fault (task ∷ tasks) w =
      let (db, done) =
        aggregate_daily_monitor_historical sql monitors (fault task) task.monitor_id task.date
          w.db in
      aggregate_tasks fault tasks (record {
        db = db;
        dirty_aggregation_tasks =
            if done
            then w.dirty_aggregation_tasks
            else enqueue_aggregation_task calendar task.monitor_id task.date
                w.dirty_aggregation_tasks;
      })

  unfoldable pub aggregate_dirty_monitors :
      (AggregationTask → Fault) → IngesterWorker → IngesterWorker
  unfolding aggregate_tasks
  aggregate_dirty_monitors fault w =
      let (tasks, queue) = drain_aggregation_tasks w.dirty_aggregation_tasks in
      aggregate_tasks fault tasks (record w { dirty_aggregation_tasks = queue })

  -- The rows of the seed's query: the pairs of monitor and date of the rows since a time.
  unfoldable pub seed_pairs : ℕ → List MonitorHistorical → List (String × ℕ)
  seed_pairs since rows = unique_from [] (
      map (λ h. (h.monitor_id, sql.date_of h.created_at)) (keep (λ h. leb since h.created_at) rows))

  -- A row whose date does not scan or parse is skipped.
  unfoldable pub seed_row : SeedEnv → String × ℕ → TaskQueue → TaskQueue
  unfolding parse_aggregation_date
  seed_row env (monitor_id, date) queue = elim (env.date_text date) [
    | none ↦ queue
    | some text ↦ elim (parse_aggregation_date env.parse text) [
      | none ↦ queue
      | some parsed ↦ enqueue_aggregation_task calendar monitor_id parsed queue
    ]
  ]

  unfoldable pub seed_rows : SeedEnv → List (String × ℕ) → TaskQueue → TaskQueue
  unfolding seed_row
  seed_rows env [] queue = queue
  seed_rows env (pair ∷ pairs) queue = seed_rows env pairs (seed_row env pair queue)

  unfoldable pub seed_recent_aggregation_tasks : SeedEnv → ℕ → IngesterWorker → IngesterWorker
  unfolding seed_pairs seed_rows
  seed_recent_aggregation_tasks env lookback w =
      if env.connection_fails || env.query_fails then w else record w {
        dirty_aggregation_tasks =
            seed_rows env (seed_pairs (env.now - lookback) w.db.historical)
              w.dirty_aggregation_tasks;
      }

  -- What happens before the first tick: the seed, and a round of aggregation.
  unfoldable pub start_aggregation :
      (fl : Float64)
      → DatasetConfig fl
      → SeedEnv
      → (AggregationTask → Fault)
      → IngesterWorker
      → IngesterWorker
  unfolding seed_recent_aggregation_tasks aggregate_dirty_monitors
  start_aggregation fl cfg env fault w =
      aggregate_dirty_monitors fault
        (seed_recent_aggregation_tasks env (aggregation_seed_lookback fl cfg) w)
