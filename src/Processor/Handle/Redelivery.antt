-- ===== src/Processor/Handle/Redelivery.antt =====
-- When a message may be delivered again, and what a second delivery does.
use eyrie.Base.{
  String, ◌≡◌, refl, inl, inr, Option, none, some, List, arith, nat_eq, string_eq, Option-cases,
}
use eyrie.Monitor.{Monitor}
use eyrie.Submission.{CheckerSubmissionRequest}
use eyrie.Config.{Float64, DatasetConfig}
use eyrie.History.{MonitorHistorical}
use eyrie.Incident.{JsonCodec, IncidentEvaluation}
use eyrie.Processor.Db.{Db, Env, load_incident_state, store_incident_state}
use eyrie.Processor.Sync.{sync_programmatic_incident}
use eyrie.Processor.Handle.{
  World, acked, nacked, find_monitor, after_sync, transition, compare_states, process_submissions,
  process_monitor, handle,
}

module _ (fl : Float64) (cfg : DatasetConfig fl) (json : JsonCodec) (monitors : List Monitor) where
  after_sync-acked :
      (env : Env) (monitor : Monitor) (evaluation previous : IncidentEvaluation) (w : World)
      (synced : Option (String × Db))
      → (after_sync fl cfg json monitors env monitor evaluation previous w synced).1 ≡ acked
  unfolding after_sync
  after_sync-acked env monitor evaluation previous w none = refl
  after_sync-acked env monitor evaluation previous w (some (id, db)) = ground arith

  transition-nacked :
      (env : Env) (id : String) (monitor : Monitor) (evaluation previous : IncidentEvaluation)
      (w : World)
      → (transition fl cfg json monitors env id monitor evaluation previous w).1 ≡ nacked
      → (transition fl cfg json monitors env id monitor evaluation previous w).0 ≡ w
  unfolding transition
  transition-nacked env id monitor evaluation previous w h =
      elim (Option-cases (store_incident_state json env id evaluation w.db)) [
        | inl e ↦ rw (e, transition)
        | inr e ↦
            let w' : World = record w { db = e.0 } in
            let acks =
              after_sync-acked env monitor evaluation previous w'
                (sync_programmatic_incident json env monitor evaluation e.0) in
            cc (e.1, acks)
      ]

  compare_states-nacked :
      (env : Env) (id : String) (monitor : Monitor) (evaluation : IncidentEvaluation) (w : World)
      (loaded : Option IncidentEvaluation)
      → (compare_states fl cfg json monitors env id monitor evaluation w loaded).1 ≡ nacked
      → (compare_states fl cfg json monitors env id monitor evaluation w loaded).0 ≡ w
  unfolding compare_states
  compare_states-nacked env id monitor evaluation w none h = refl
  compare_states-nacked env id monitor evaluation w (some previous) h =
      ground (arith, transition-nacked env id monitor evaluation previous w)

  process_submissions-nacked :
      (env : Env) (id : String) (monitor : Monitor) (w : World)
      (found : Option (List MonitorHistorical))
      → (process_submissions fl cfg json monitors env id monitor w found).1 ≡ nacked
      → (process_submissions fl cfg json monitors env id monitor w found).0 ≡ w
  unfolding process_submissions
  process_submissions-nacked env id monitor w none h = refl
  process_submissions-nacked env id monitor w (some subs) h =
      compare_states-nacked env id monitor _ w (load_incident_state json env id w.db) h

  process_monitor-nacked :
      (env : Env) (id : String) (w : World) (found : Option Monitor)
      → (process_monitor fl cfg json monitors env id w found).1 ≡ nacked
      → (process_monitor fl cfg json monitors env id w found).0 ≡ w
  unfolding process_monitor
  process_monitor-nacked env id w none h = refl
  process_monitor-nacked env id w (some monitor) h = process_submissions-nacked env id monitor w _ h

  -- A message that is given back to the queue has left the tables and the alert queue as they were.
  pub handle-nacked :
      (env : Env) (request : Option CheckerSubmissionRequest) (w : World)
      → (handle fl cfg json monitors env request w).1 ≡ nacked
      → (handle fl cfg json monitors env request w).0 ≡ w
  unfolding handle
  handle-nacked env none w h = refl
  handle-nacked env (some request) w h =
      process_monitor-nacked env request.monitor_id w (find_monitor monitors request.monitor_id) h
