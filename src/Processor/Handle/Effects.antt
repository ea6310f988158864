-- ===== src/Processor/Handle/Effects.antt =====
-- What one message can do: a rule for the whole handler, the invariant of the incident table, and
-- the alerts that are sent.
use mathlib.Core.Path.{subst}
use eyrie.Base.{
  ◌≤◌, String, ◌≡◌, refl, inl, inr, Option, none, some, List, arith, ◌==◌, nat_eq, string_eq,
  str_eq_iff, Bool-cases, Option-cases, count,
}
use eyrie.Monitor.{Monitor}
use eyrie.Submission.{CheckerSubmissionRequest}
use eyrie.Config.{Float64, DatasetConfig}
use eyrie.History.{MonitorHistorical}
use eyrie.Incident.{JsonCodec, IncidentEvaluation, equal}
use eyrie.Processor.Db.{Db, Env, load_incident_state, store_incident_state}
use eyrie.Processor.Incidents.{is_active}
use eyrie.Processor.Sync.{sync_programmatic_incident}
use eyrie.Processor.Sync.Active.{OneActive, sync_open_incidents}
use eyrie.Processor.Handle.{
  World, find_monitor, publish_alert, after_sync, transition, compare_states, process_submissions,
  process_monitor, handle, evaluate,
}

module _ (fl : Float64) (cfg : DatasetConfig fl) (json : JsonCodec) (monitors : List Monitor) where
  module _ (P : World → Type 0) (env : Env) (w : World) (base : P w)
      (moves : (id : String) (monitor : Monitor) (e previous : IncidentEvaluation)
        → P (transition fl cfg json monitors env id monitor e previous w).0) where
    compare_states_rule :
        (id : String) (monitor : Monitor) (e : IncidentEvaluation)
        (loaded : Option IncidentEvaluation)
        → P (compare_states fl cfg json monitors env id monitor e w loaded).0
    unfolding compare_states
    compare_states_rule id monitor e none = base
    compare_states_rule id monitor e (some previous) = elim (Bool-cases (equal previous e)) [
      | inl same ↦ rw same base
      | inr new ↦ rw new (moves id monitor e previous)
    ]

    process_submissions_rule :
        (id : String) (monitor : Monitor) (found : Option (List MonitorHistorical))
        → P (process_submissions fl cfg json monitors env id monitor w found).0
    unfolding process_submissions
    process_submissions_rule id monitor none = base
    process_submissions_rule id monitor (some subs) =
        compare_states_rule id monitor (evaluate fl cfg json monitors env.now monitor subs)
          (load_incident_state json env id w.db)

    process_monitor_rule :
        (id : String) (found : Option Monitor)
        → P (process_monitor fl cfg json monitors env id w found).0
    unfolding process_monitor
    process_monitor_rule id none = base
    process_monitor_rule id (some monitor) = process_submissions_rule id monitor _

    -- A property that holds before and that the transition gives holds after the message.
    pub handle_rule :
        (request : Option CheckerSubmissionRequest)
        → P (handle fl cfg json monitors env request w).0
    unfolding handle
    handle_rule none = base
    handle_rule (some request) =
        process_monitor_rule request.monitor_id (find_monitor monitors request.monitor_id)

  sync-OneActive :
      (env : Env) (monitor : Monitor) (e : IncidentEvaluation) (db : Db) (id : String) (db' : Db)
      → OneActive db
      → sync_programmatic_incident json env monitor e db ≡ some (id, db')
      → OneActive db'
  sync-OneActive env monitor e db id db' one h j =
      let after = sync_open_incidents json env monitor e db id db' one h in
      elim (Bool-cases (monitor.id == j)) [
        | inl same ↦
            subst (λ k. count (is_active k) db'.incidents ≤ 1) ((str_eq_iff monitor.id j).0 same)
              (ground (arith, after.0))
        | inr other ↦ omega (arith, after.1 j other, one j)
      ]

  after_sync-OneActive :
      (env : Env) (monitor : Monitor) (e previous : IncidentEvaluation) (w : World)
      (synced : Option (String × Db))
      → OneActive w.db
      → sync_programmatic_incident json env monitor e w.db ≡ synced
      → OneActive (after_sync fl cfg json monitors env monitor e previous w synced).0.db
  unfolding after_sync
  after_sync-OneActive env monitor e previous w none one h = one
  after_sync-OneActive env monitor e previous w (some (id, db)) one h =
      let kept = sync-OneActive env monitor e w.db id db one h in
      elim (Option-cases (publish_alert env monitor e previous id w.alerts)) [
        | inl p ↦ rw (p, after_sync) kept
        | inr p ↦ rw (p.1, after_sync) kept
      ]

  store-OneActive :
      (env : Env) (id : String) (e : IncidentEvaluation) (db db' : Db)
      → OneActive db
      → store_incident_state json env id e db ≡ some db'
      → OneActive db'
  unfolding store_incident_state
  store-OneActive env id e db db' one h j =
      let same : db.incidents ≡ db'.incidents = ground (arith, h) in
      subst (λ l. count (is_active j) l ≤ 1) same (one j)

  transition-OneActive :
      (env : Env) (id : String) (monitor : Monitor) (e previous : IncidentEvaluation) (w : World)
      → OneActive w.db
      → OneActive (transition fl cfg json monitors env id monitor e previous w).0.db
  unfolding transition
  transition-OneActive env id monitor e previous w one =
      elim (Option-cases (store_incident_state json env id e w.db)) [
        | inl p ↦ rw (p, transition) one
        | inr p ↦
            rw (p.1, transition)
              (after_sync-OneActive env monitor e previous (record w { db = p.0 }) _
                (store-OneActive env id e w.db p.0 one p.1) refl)
      ]

  -- Whatever arrives, whatever fails: no message leaves a monitor with two open programmatic
  -- incidents, if none had two before.
  pub handle-OneActive :
      (env : Env) (request : Option CheckerSubmissionRequest) (w : World)
      → OneActive w.db
      → OneActive (handle fl cfg json monitors env request w).0.db
  handle-OneActive env request w one =
      handle_rule (λ v. OneActive v.db) env w one
        (λ id monitor e previous. transition-OneActive env id monitor e previous w one) request
