-- ===== src/Ingester/Worker/Redelivery.antt =====
-- A submission that the queue delivers again.
use eyrie.Base.{
  ℕ, ◌<◌, ◌≤◌, ap, none, count, pair_eq, String, ◌≡◌, refl, ◌∙◌, inl, inr, Bool, true, false, ◌||◌,
  Option, some, List, [], ◌∷◌, arith, nat_eq, string_eq, if◌then◌else◌, Bool-cases, Map, put_again,
  equality_refl,
}
use eyrie.Monitor.{Monitor}
use eyrie.History.{MonitorHistorical}
use eyrie.Submission.{CheckerSubmissionRequest}
use eyrie.Ingester.Queue.{
  Calendar, AggregationTask, drain_aggregation_tasks, aggregation_task_key,
  normalize_aggregation_date, enqueue_aggregation_task,
}
use eyrie.Ingester.Aggregate.{
  Fault, no_fault, connection_fault, daily_fault, region_fault, aggregate_found, aggregate_days,
  aggregate_regions, aggregate_daily_monitor_historical,
}
use eyrie.Ingester.Tables.{Sql, Tables, find_monitor_config, insert_row, same_key, ingested_row}
use eyrie.Ingester.Worker.{
  IngesterWorker, IngestEnv, ingest_monitor_historical, process_message, region_of, aggregate_tasks,
  aggregate_dirty_monitors,
}

same_key_refl : (row : MonitorHistorical) → same_key row row ≡ true
unfolding same_key
same_key_refl row =
    ground
      (arith, equality_refl row.monitor_id, equality_refl row.region, equality_refl row.created_at)

insert_row_again :
    (row : MonitorHistorical) (rows : List MonitorHistorical)
    → insert_row row (insert_row row rows) ≡ insert_row row rows
unfolding insert_row
insert_row_again row [] = ground (arith, same_key_refl row)
insert_row_again row (r ∷ rows) = ground (arith, same_key_refl row, insert_row_again row rows)

insert_row_adds :
    (row : MonitorHistorical) (rows : List MonitorHistorical)
    → 0 < count (λ h. same_key h row) (insert_row row rows)
unfolding insert_row
insert_row_adds row [] = ground (arith, same_key_refl row)
insert_row_adds row (r ∷ rows) = ground (arith, insert_row_adds row rows)

insert_row_grows :
    (p : MonitorHistorical → Bool) (row : MonitorHistorical) (rows : List MonitorHistorical)
    → count p rows ≤ count p (insert_row row rows)
unfolding insert_row
insert_row_grows p row [] = ground arith
insert_row_grows p row (r ∷ rows) = ground (arith, insert_row_grows p row rows)

insert_row_known :
    (row : MonitorHistorical) (rows : List MonitorHistorical)
    → 0 < count (λ h. same_key h row) rows
    → insert_row row rows ≡ rows
unfolding insert_row
insert_row_known row [] h = ground arith
insert_row_known row (r ∷ rows) h = ground (arith, insert_row_known row rows)

-- What a stored submission leaves behind.
abbrev stored :
    Calendar
    → Sql
    → List Monitor
    → CheckerSubmissionRequest
    → String
    → IngesterWorker
    → IngesterWorker
stored calendar sql monitors submission region w = record {
  db = record w.db {
    historical = insert_row (ingested_row sql monitors submission region) w.db.historical;
  };
  dirty_aggregation_tasks =
      enqueue_aggregation_task calendar submission.monitor_id submission.timestamp
        w.dirty_aggregation_tasks;
}

module _ (calendar : Calendar) (sql : Sql) (monitors : List Monitor)
    (submission : CheckerSubmissionRequest) (metadata : Option (Map String String)) where
  after_message :
      (failing : Bool) (env : IngestEnv) (w : IngesterWorker)
      → (env.connection_fails || env.insert_fails) ≡ failing
      → (process_message calendar sql monitors env (some submission) metadata w).0
        ≡ (if failing then w else stored calendar sql monitors submission (region_of metadata) w)
  unfolding process_message ingest_monitor_historical
  after_message true env w e = rw (e, process_message, ingest_monitor_historical) refl
  after_message false env w e = rw (e, process_message, ingest_monitor_historical) refl

  stored_again :
      (region : String) (w : IngesterWorker)
      → stored calendar sql monitors submission region
          (stored calendar sql monitors submission region w)
        ≡ stored calendar sql monitors submission region w
  unfolding enqueue_aggregation_task
  stored_again region w = ground (
    arith,
    insert_row_again (ingested_row sql monitors submission region) w.db.historical,
    put_again
        (aggregation_task_key calendar submission.monitor_id
          (normalize_aggregation_date submission.timestamp))
        (record {
          monitor_id = submission.monitor_id;
          date = normalize_aggregation_date submission.timestamp;
        })
        w.dirty_aggregation_tasks,
  )

  again_at_once :
      (env env' : IngestEnv) (w : IngesterWorker)
      → (env.connection_fails || env.insert_fails) ≡ false
      → (process_message calendar sql monitors env'
          (some submission)
          metadata
          (process_message calendar sql monitors env (some submission) metadata w).0).0
        ≡ (process_message calendar sql monitors env (some submission) metadata w).0
  again_at_once env env' w fine =
      rw (after_message false env w fine)
        (elim (Bool-cases (env'.connection_fails || env'.insert_fails)) [
          | inl failed ↦ after_message true env' _ failed
          | inr again ↦ after_message false env' _ again ∙ stored_again (region_of metadata) w
        ])

-- What the worker may do between two deliveries.
pub data Event : Type 0 where
  message_event : IngestEnv → Option CheckerSubmissionRequest → Option (Map String String) → Event
  round_event : (AggregationTask → Fault) → Event

module _ (calendar : Calendar) (sql : Sql) (monitors : List Monitor) where
  abbrev pub after_event : Event → IngesterWorker → IngesterWorker
  after_event (message_event env body metadata) w =
      (process_message calendar sql monitors env body metadata w).0
  after_event (round_event fault) w = aggregate_dirty_monitors calendar sql monitors fault w

  abbrev pub after_events : List Event → IngesterWorker → IngesterWorker
  after_events [] w = w
  after_events (event ∷ events) w = after_events events (after_event event w)

  -- A row with the key stays.
  abbrev Known : MonitorHistorical → IngesterWorker → Type 0
  Known row w = 0 < count (λ h. same_key h row) w.db.historical

  aggregate_found-historical :
      (fault : Fault) (found : Option Monitor) (monitor_id : String) (date : ℕ) (db : Tables)
      → (aggregate_found sql fault found monitor_id date db).0.historical ≡ db.historical
  unfolding aggregate_found aggregate_days aggregate_regions
  aggregate_found-historical fault none monitor_id date db = refl
  aggregate_found-historical no_fault (some m) monitor_id date db = refl
  aggregate_found-historical connection_fault (some m) monitor_id date db = refl
  aggregate_found-historical daily_fault (some m) monitor_id date db = refl
  aggregate_found-historical region_fault (some m) monitor_id date db = refl

  aggregate_tasks-historical :
      (fault : AggregationTask → Fault) (tasks : List AggregationTask) (w : IngesterWorker)
      → (aggregate_tasks calendar sql monitors fault tasks w).db.historical ≡ w.db.historical
  unfolding aggregate_tasks aggregate_daily_monitor_historical
  aggregate_tasks-historical fault [] w = refl
  aggregate_tasks-historical fault (task ∷ tasks) w =
      aggregate_tasks-historical fault tasks _
      ∙ aggregate_found-historical (fault task) (find_monitor_config monitors task.monitor_id)
          task.monitor_id task.date w.db

  message-Known :
      (row : MonitorHistorical) (env : IngestEnv) (body : Option CheckerSubmissionRequest)
      (metadata : Option (Map String String)) (w : IngesterWorker)
      → Known row w
      → Known row (process_message calendar sql monitors env body metadata w).0
  unfolding process_message
  message-Known row env none metadata w h = h
  message-Known row env (some submission) metadata w h =
      elim (Bool-cases (env.connection_fails || env.insert_fails)) [
        | inl failed ↦
            rw (after_message calendar sql monitors submission metadata true env w failed) h
        | inr fine ↦ rw (after_message calendar sql monitors submission metadata false env w fine) (
            omega (
              arith,
              insert_row_grows (λ h. same_key h row)
                  (ingested_row sql monitors submission (region_of metadata)) w.db.historical,
            ))
      ]

  events-Known :
      (row : MonitorHistorical) (events : List Event) (w : IngesterWorker)
      → Known row w
      → Known row (after_events events w)
  events-Known row [] w h = h
  events-Known row (message_event env body metadata ∷ events) w h =
      events-Known row events _ (message-Known row env body metadata w h)
  events-Known row (round_event fault ∷ events) w h =
      events-Known row events (aggregate_dirty_monitors calendar sql monitors fault w) (
        unfold aggregate_dirty_monitors in
        rw
          (aggregate_tasks-historical fault (drain_aggregation_tasks w.dirty_aggregation_tasks).0
            (record w {
              dirty_aggregation_tasks = (drain_aggregation_tasks w.dirty_aggregation_tasks).1;
            }))
          h)

  -- Once a submission is stored, a second delivery of the message never changes the stored tables,
  -- whatever messages and rounds of aggregation came between: it queues the submission's day, or does
  -- nothing where it fails.  Directly after the first delivery it changes nothing at all.
  pub process_message_again :
      (submission : CheckerSubmissionRequest) (metadata : Option (Map String String))
      (env env' : IngestEnv) (w : IngesterWorker) (events : List Event)
      → (env.connection_fails || env.insert_fails) ≡ false
      → let once = (process_message calendar sql monitors env (some submission) metadata w).0 in
        let later = after_events events once in
        let again =
          (process_message calendar sql monitors env' (some submission) metadata later).0 in
        (again.db ≡ later.db)
        × (again.dirty_aggregation_tasks ≡ (
            if env'.connection_fails || env'.insert_fails
            then later.dirty_aggregation_tasks
            else enqueue_aggregation_task calendar submission.monitor_id submission.timestamp
                later.dirty_aggregation_tasks))
        × ((process_message calendar sql monitors env' (some submission) metadata once).0 ≡ once)
  process_message_again submission metadata env env' w events fine =
      let once = (process_message calendar sql monitors env (some submission) metadata w).0 in
      let later = after_events events once in
      let row = ingested_row sql monitors submission (region_of metadata) in
      let known : Known row once =
        rw (after_message calendar sql monitors submission metadata false env w fine)
          (insert_row_adds row w.db.historical) in
      let same : insert_row row later.db.historical ≡ later.db.historical =
        insert_row_known row later.db.historical (events-Known row events once known) in
      let run =
        after_message calendar sql monitors submission metadata
          (env'.connection_fails || env'.insert_fails) env' later refl in
      (
        ap (λ (v : IngesterWorker). v.db) run ∙ ground (arith, same),
        ap (λ (v : IngesterWorker). v.dirty_aggregation_tasks) run ∙ ground arith,
        again_at_once calendar sql monitors submission metadata env env' w fine,
      )
