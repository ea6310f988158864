-- ===== src/Ingester/Interleaving/Refines.antt =====
-- A round of aggregation, run as a whole, is one of the interleavings.
use eyrie.Base.{
  pair_eq, String, ◌≡◌, refl, inl, inr, ◌||◌, Option, none, some, List, [], ◌∷◌, nat_eq, string_eq,
  Bool-cases, Map,
}
use eyrie.Monitor.{Monitor}
use eyrie.Submission.{CheckerSubmissionRequest}
use eyrie.Ingester.Queue.{Calendar, AggregationTask}
use eyrie.Ingester.Tables.{Sql, find_monitor_config}
use eyrie.Ingester.Aggregate.{
  Fault, no_fault, connection_fault, daily_fault, region_fault, aggregate_daily_monitor_historical,
}
use eyrie.Ingester.Worker.{
  IngesterWorker, IngestEnv, ingest_monitor_historical, process_message, region_of, aggregate_tasks,
  aggregate_dirty_monitors,
}
use eyrie.Ingester.Interleaving.{
  Shared, Reach, insertion, queueing, taking, stale, days_done, days_failed, regions_done,
  regions_failed, here, next, insert_submission, queue_inserted, take_tasks, run_days, run_regions,
  requeue,
}

-- The worker between two tasks of a round.
abbrev pub in_round : IngesterWorker → List AggregationTask → Shared
in_round w tasks = record {
  db = w.db;
  queue = w.dirty_aggregation_tasks;
  inserted = none;
  waiting = tasks;
  current = none;
}

abbrev pub at_rest : IngesterWorker → Shared
at_rest w = in_round w []

module _ (calendar : Calendar) (sql : Sql) (monitors : List Monitor) where
  pub Reach-trans :
      {s t u : Shared}
      → Reach calendar sql monitors s t
      → Reach calendar sql monitors t u
      → Reach calendar sql monitors s u
  Reach-trans r here = r
  Reach-trans r (next q step) = next (Reach-trans r q) step

  -- The worker after one task.
  abbrev after_task : AggregationTask → Fault → IngesterWorker → IngesterWorker
  after_task task fault w = aggregate_tasks calendar sql monitors (λ _. fault) (task ∷ []) w

  task-Reach :
      (task : AggregationTask) (rest : List AggregationTask) (fault : Fault) (w : IngesterWorker)
      (found : Option Monitor)
      → find_monitor_config monitors task.monitor_id ≡ found
      → Reach calendar sql monitors
          (in_round w (task ∷ rest))
          (in_round (after_task task fault w) rest)
  unfolding aggregate_tasks aggregate_daily_monitor_historical run_days run_regions requeue
  task-Reach task rest fault w none e =
      rw e (next here (stale (in_round w (task ∷ rest)) task rest refl refl e))
  task-Reach task rest no_fault w (some m) e =
      let s = in_round w (task ∷ rest) in
      rw e (
        next (next here (days_done s m task rest refl refl e))
          (regions_done (run_days calendar sql monitors m task rest s) m task refl e))
  task-Reach task rest connection_fault w (some m) e =
      rw e (next here (days_failed (in_round w (task ∷ rest)) task rest refl refl))
  task-Reach task rest daily_fault w (some m) e =
      rw e (next here (days_failed (in_round w (task ∷ rest)) task rest refl refl))
  task-Reach task rest region_fault w (some m) e =
      let s = in_round w (task ∷ rest) in
      rw e (
        next (next here (days_done s m task rest refl refl e))
          (regions_failed (run_days calendar sql monitors m task rest s) task refl))

  tasks-Reach :
      (fault : AggregationTask → Fault) (tasks : List AggregationTask) (w : IngesterWorker)
      → Reach calendar sql monitors
          (in_round w tasks)
          (at_rest (aggregate_tasks calendar sql monitors fault tasks w))
  unfolding aggregate_tasks
  tasks-Reach fault [] w = here
  tasks-Reach fault (task ∷ tasks) w =
      Reach-trans (task-Reach task tasks (fault task) w _ refl) (tasks-Reach fault tasks _)

  -- A round of aggregation is a run of the steps, whichever tasks fail and wherever they do.
  pub aggregate_dirty_monitors-Reach :
      (fault : AggregationTask → Fault) (w : IngesterWorker)
      → Reach calendar sql monitors
          (at_rest w)
          (at_rest (aggregate_dirty_monitors calendar sql monitors fault w))
  unfolding aggregate_dirty_monitors take_tasks
  aggregate_dirty_monitors-Reach fault w =
      Reach-trans (next here (taking (at_rest w) refl refl)) (tasks-Reach fault _ _)

  -- So is a message, whatever it holds and whether it is stored or not.
  pub process_message-Reach :
      (env : IngestEnv) (body : Option CheckerSubmissionRequest)
      (metadata : Option (Map String String)) (w : IngesterWorker)
      → Reach calendar sql monitors
          (at_rest w)
          (at_rest (process_message calendar sql monitors env body metadata w).0)
  unfolding process_message ingest_monitor_historical insert_submission queue_inserted
  process_message-Reach env none metadata w = here
  process_message-Reach env (some request) metadata w =
      elim (Bool-cases (env.connection_fails || env.insert_fails)) [
        | inl failed ↦ rw (failed, process_message, ingest_monitor_historical) here
        | inr stored ↦
            rw (stored, process_message, ingest_monitor_historical)
              (next (next here (insertion (at_rest w) request (region_of metadata) refl)) (
                queueing
                  (insert_submission calendar sql monitors request (region_of metadata) (at_rest w))
                  request.monitor_id request.timestamp refl))
      ]
