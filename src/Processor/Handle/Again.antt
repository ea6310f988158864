-- ===== src/Processor/Handle/Again.antt =====
-- The same message once more.

use mathlib.Core.Path.{subst}
use eyrie.Base.{
  ℕ, ◌-◌, ◌*◌, String, ◌≡◌, refl, sym, ap, ap₂, ◌∙◌, inl, inr, Bool, true, false, Option, none,
  some, List, map, arith, nat_eq, string_eq, Bool-cases, Option-cases, keep, get, UniqueKeys,
}
use eyrie.Monitor.{Monitor, minute}
use eyrie.Submission.{CheckerSubmissionRequest}
use eyrie.Config.{Float64, DatasetConfig}
use eyrie.History.{MonitorHistorical, MonitorIncident}
use eyrie.Incident.{JsonCodec, IncidentEvaluation, equal, has_active_incident}
use eyrie.Incident.Stored.{JsonRoundTrip}
use eyrie.Processor.Db.{
  in_lookback, read_rows, scan_historical, Db, Env, lookback, evaluation_of, load_incident_state,
  store_incident_state,
}
use eyrie.Processor.Incidents.{
  is_active, latest_started, load_active_programmatic_incident, create_programmatic_incident,
  update_programmatic_incident, resolve_programmatic_incident,
}
use eyrie.Processor.Buckets.{group_submission_by_minute}
use eyrie.Processor.Latest.Keys.{evaluate_latest_incident-UniqueKeys}
use eyrie.Processor.Sync.{sync_found, sync_programmatic_incident}
use eyrie.Processor.Handle.{
  World, Disposition, acked, find_monitor, after_sync, transition, compare_states,
  process_submissions, process_monitor, handle, evaluate,
}
use eyrie.Processor.Handle.Steady.{transition_once}
use eyrie.Processor.Handle.Effects.{handle_rule}

module _ (json : JsonCodec) where
  sync_found-historical :
      (env : Env) (monitor : Monitor) (e : IncidentEvaluation) (db : Db) (active : Bool)
      (found : Option MonitorIncident) (id : String) (db' : Db)
      → sync_found json env monitor e db active found ≡ some (id, db')
      → db'.historical ≡ db.historical
  unfolding sync_found create_programmatic_incident update_programmatic_incident
      resolve_programmatic_incident
  sync_found-historical env monitor e db false none id db' h = ground arith
  sync_found-historical env monitor e db false (some i) id db' h = ground arith
  sync_found-historical env monitor e db true none id db' h = ground arith
  sync_found-historical env monitor e db true (some i) id db' h = ground arith

  sync-historical :
      (env : Env) (monitor : Monitor) (e : IncidentEvaluation) (db : Db) (id : String) (db' : Db)
      → sync_programmatic_incident json env monitor e db ≡ some (id, db')
      → db'.historical ≡ db.historical
  unfolding sync_programmatic_incident load_active_programmatic_incident
  sync-historical env monitor e db id db' h =
      sync_found-historical env monitor e db (has_active_incident e)
        (latest_started (keep (is_active monitor.id) db.incidents)) id db' (ground arith)

module _ (fl : Float64) (cfg : DatasetConfig fl) (json : JsonCodec) (monitors : List Monitor) where
  after_sync-historical :
      (env : Env) (monitor : Monitor) (e previous : IncidentEvaluation) (w : World)
      (synced : Option (String × Db))
      → sync_programmatic_incident json env monitor e w.db ≡ synced
      → (after_sync fl cfg json monitors env monitor e previous w synced).0.db.historical
        ≡ w.db.historical
  unfolding after_sync
  after_sync-historical env monitor e previous w none h = refl
  after_sync-historical env monitor e previous w (some (id, db)) h =
      ground (arith, sync-historical json env monitor e w.db id db h)

  transition-historical :
      (env : Env) (id : String) (monitor : Monitor) (e previous : IncidentEvaluation) (w : World)
      → (transition fl cfg json monitors env id monitor e previous w).0.db.historical
        ≡ w.db.historical
  unfolding transition
  transition-historical env id monitor e previous w =
      elim (Option-cases (store_incident_state json env id e w.db)) [
        | inl p ↦ rw (p, transition) refl
        | inr p ↦
            rw (p.1, transition)
              (after_sync-historical env monitor e previous (record w { db = p.0 }) _ refl
                ∙ (unfold store_incident_state in ground (arith, p.1)))
      ]

  -- What a message does when its monitor and its submissions are found.
  handle_evaluates :
      (env : Env) (request : CheckerSubmissionRequest) (w : World) (monitor : Monitor)
      (subs : List MonitorHistorical)
      → find_monitor monitors request.monitor_id ≡ some monitor
      → lookback env request.monitor_id (env.now - cfg.processing_lookback_minutes * minute) w.db
        ≡ some subs
      → handle fl cfg json monitors env (some request) w
        ≡ compare_states fl cfg json monitors env request.monitor_id monitor
            (evaluate fl cfg json monitors env.now monitor subs)
            w
            (load_incident_state json env request.monitor_id w.db)
  unfolding handle process_monitor process_submissions
  handle_evaluates env request w monitor subs h k = rw h (rw k refl)

  loads_stored :
      (env : Env) (id : String) (db : Db)
      → env.load_state_fails ≡ false
      → load_incident_state json env id db ≡ some (evaluation_of json (get id db.incident_state))
  unfolding load_incident_state
  loads_stored env id db h = ground (arith, h)

  -- The comparison with what the table holds, in the world that `o` left.
  Settled : Env → String → Monitor → IncidentEvaluation → World × Disposition → Type 0
  Settled env' id monitor e r =
      compare_states fl cfg json monitors env' id monitor e r.0
        (load_incident_state json env' id r.0.db)
      ≡ (r.0, acked)

  unchanged-Settled :
      (env' : Env) (id : String) (monitor : Monitor) (e : IncidentEvaluation) (w : World)
      → env'.load_state_fails ≡ false
      → equal (evaluation_of json (get id w.db.incident_state)) e ≡ true
      → Settled env' id monitor e (w, acked)
  unfolding Settled compare_states
  unchanged-Settled env' id monitor e w h same = rw (loads_stored env' id w.db h) (rw same refl)

  compare_states-Settled :
      (env env' : Env) (id : String) (monitor : Monitor) (e : IncidentEvaluation) (w : World)
      → env.store_state_fails ≡ false
      → env'.load_state_fails ≡ false
      → JsonRoundTrip json e
      → UniqueKeys e.failure_reasons_breakdown
      → Settled env' id monitor e (
          compare_states fl cfg json monitors env id monitor e w
            (some (evaluation_of json (get id w.db.incident_state))))
  unfolding compare_states
  compare_states-Settled env env' id monitor e w k h' trip u =
      let previous = evaluation_of json (get id w.db.incident_state) in
      elim (Bool-cases (equal previous e)) [
        | inl same ↦ rw same (unchanged-Settled env' id monitor e w h' same)
        | inr new ↦ rw new (
            unfold Settled in
            transition_once fl cfg json monitors env env' id monitor e previous w k h' trip u)
      ]

  evaluate-UniqueKeys :
      (now : ℕ) (monitor : Monitor) (subs : List MonitorHistorical)
      → UniqueKeys (evaluate fl cfg json monitors now monitor subs).failure_reasons_breakdown
  unfolding evaluate
  evaluate-UniqueKeys now monitor subs =
      let r = group_submission_by_minute fl cfg now subs minute monitor in
      evaluate_latest_incident-UniqueKeys fl cfg r.0 subs r.2 r.1 minute

  lookback_again :
      (env env' : Env) (id : String) (back : ℕ) (db db' : Db) (subs : List MonitorHistorical)
      → lookback env id (env.now - back) db ≡ some subs
      → env'.now ≡ env.now
      → env'.lookback_fails ≡ false
      → env'.lookback_breaks ≡ env.lookback_breaks
      → db'.historical ≡ db.historical
      → lookback env' id (env'.now - back) db' ≡ some subs
  unfolding lookback
  lookback_again env env' id back db db' subs h clock fails breaks same =
      elim (Bool-cases env.lookback_fails) [
        | inl p ↦ ground (arith, h, p)
        | inr p ↦
            let found = λ (n : ℕ) (l : List MonitorHistorical).
              map scan_historical
                (read_rows env.lookback_breaks (keep (in_lookback id (n - back) n) l)) in
            let first : lookback env id (env.now - back) db ≡ some (found env.now db.historical) =
              unfold lookback in ground (arith, p) in
            rw (fails, breaks) (ap₂ (λ n l. some (found n l)) clock same ∙ sym first ∙ h)
      ]

  -- A message that comes a second time, in the same instant, is acknowledged and changes nothing: no
  -- alert, no row.  This holds when its monitor is configured, the first run could read the submissions
  -- and read and store the state, the second can read both, the submissions as far as the first run did,
  -- and encoding/json reads the verdict's two JSON values back as they were, an empty list of regions
  -- being written as null.
  pub handle_again :
      (env env' : Env) (request : CheckerSubmissionRequest) (w : World) (monitor : Monitor)
      (subs : List MonitorHistorical)
      → find_monitor monitors request.monitor_id ≡ some monitor
      → lookback env request.monitor_id (env.now - cfg.processing_lookback_minutes * minute) w.db
        ≡ some subs
      → env.load_state_fails ≡ false
      → env.store_state_fails ≡ false
      → env'.now ≡ env.now
      → env'.lookback_fails ≡ false
      → env'.lookback_breaks ≡ env.lookback_breaks
      → env'.load_state_fails ≡ false
      → JsonRoundTrip json (evaluate fl cfg json monitors env.now monitor subs)
      → let w' = (handle fl cfg json monitors env (some request) w).0 in
        handle fl cfg json monitors env' (some request) w' ≡ (w', acked)
  handle_again env env' request w monitor subs find look load store clock look' breaks load' trip =
      let e = evaluate fl cfg json monitors env.now monitor subs in
      let first = handle_evaluates env request w monitor subs find look in
      let id = request.monitor_id in
      let run = handle fl cfg json monitors env (some request) w in
      let settled : Settled env' id monitor e run =
        subst (Settled env' id monitor e)
          (sym (
            first
            ∙ ap (compare_states fl cfg json monitors env id monitor e w)
                (loads_stored env id w.db load)))
          (compare_states-Settled env env' id monitor e w store load' trip
            (evaluate-UniqueKeys env.now monitor subs)) in
      let rows : run.0.db.historical ≡ w.db.historical =
        handle_rule fl cfg json monitors (λ v. v.db.historical ≡ w.db.historical) env w refl
          (λ i m v p. transition-historical env i m v p w) (some request) in
      let found =
        lookback_again env env' id (cfg.processing_lookback_minutes * minute) w.db run.0.db subs
          look clock look' breaks rows in
      handle_evaluates env' request run.0 monitor subs find found
      ∙ ap
          (λ n.
            compare_states fl cfg json monitors env' id monitor
              (evaluate fl cfg json monitors n monitor subs) run.0
              (load_incident_state json env' id run.0.db))
          clock
      ∙ (unfold Settled in settled)
