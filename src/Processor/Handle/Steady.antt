-- ===== src/Processor/Handle/Steady.antt =====
-- A transition happens once: with the same evaluation the next message changes and sends nothing.
use eyrie.Base.{
  String, ◌≡◌, refl, ap, ◌∙◌, Bool, true, false, Option, none, some, List, arith, nat_eq, string_eq,
  keep, get, put, get-put_self, UniqueKeys,
}
use eyrie.Monitor.{Monitor}
use eyrie.Config.{Float64, DatasetConfig}
use eyrie.History.{MonitorIncident}
use eyrie.Incident.{JsonCodec, IncidentEvaluation, has_active_incident}
use eyrie.Incident.Stored.{
  JsonRoundTrip, parse-regions_json, parse-failure_reasons_json, equal_sorted,
}
use eyrie.Processor.Db.{Db, Env, load_incident_state, store_incident_state, state_row}
use eyrie.Processor.Incidents.{
  is_active, latest_started, load_active_programmatic_incident, create_programmatic_incident,
  update_programmatic_incident, resolve_programmatic_incident,
}
use eyrie.Processor.Sync.{sync_found, sync_programmatic_incident}
use eyrie.Processor.Handle.{World, acked, after_sync, transition, compare_states}

module _ (json : JsonCodec) where
  sync_found-incident_state :
      (env : Env) (monitor : Monitor) (e : IncidentEvaluation) (db : Db) (active : Bool)
      (found : Option MonitorIncident) (id : String) (db' : Db)
      → sync_found json env monitor e db active found ≡ some (id, db')
      → db'.incident_state ≡ db.incident_state
  unfolding sync_found create_programmatic_incident update_programmatic_incident
      resolve_programmatic_incident
  sync_found-incident_state env monitor e db false none id db' h = ground arith
  sync_found-incident_state env monitor e db false (some i) id db' h = ground arith
  sync_found-incident_state env monitor e db true none id db' h = ground arith
  sync_found-incident_state env monitor e db true (some i) id db' h = ground arith

  -- The incident tables are apart from the stored states.
  sync-incident_state :
      (env : Env) (monitor : Monitor) (e : IncidentEvaluation) (db : Db) (id : String) (db' : Db)
      → sync_programmatic_incident json env monitor e db ≡ some (id, db')
      → db'.incident_state ≡ db.incident_state
  unfolding sync_programmatic_incident load_active_programmatic_incident
  sync-incident_state env monitor e db id db' h =
      sync_found-incident_state env monitor e db (has_active_incident e)
        (latest_started (keep (is_active monitor.id) db.incidents)) id db' (ground arith)

module _ (fl : Float64) (cfg : DatasetConfig fl) (json : JsonCodec) (monitors : List Monitor) where
  after_sync-incident_state :
      (env : Env) (monitor : Monitor) (e previous : IncidentEvaluation) (w : World)
      (synced : Option (String × Db))
      → sync_programmatic_incident json env monitor e w.db ≡ synced
      → (after_sync fl cfg json monitors env monitor e previous w synced).0.db.incident_state
        ≡ w.db.incident_state
  unfolding after_sync
  after_sync-incident_state env monitor e previous w none h = refl
  after_sync-incident_state env monitor e previous w (some (id, db)) h =
      ground (arith, sync-incident_state json env monitor e w.db id db h)

  -- The world with the new state stored, before the incident tables are touched.
  abbrev pub stored : Env → String → IncidentEvaluation → World → World
  stored env id e w = record w {
    db = record w.db { incident_state = put id (state_row json env id e) w.db.incident_state };
  }

  store-some :
      (env : Env) (id : String) (e : IncidentEvaluation) (w : World)
      → env.store_state_fails ≡ false
      → store_incident_state json env id e w.db ≡ some (stored env id e w).db
  unfolding store_incident_state
  store-some env id e w h = ground arith

  pub transition-after_sync :
      (env : Env) (id : String) (monitor : Monitor) (e previous : IncidentEvaluation) (w : World)
      → env.store_state_fails ≡ false
      → transition fl cfg json monitors env id monitor e previous w
        ≡ after_sync fl cfg json monitors env monitor e previous
            (stored env id e w)
            (sync_programmatic_incident json env monitor e (stored env id e w).db)
  unfolding transition
  transition-after_sync env id monitor e previous w h = rw (store-some env id e w h, transition)

  -- Whatever happens after it, the new state is stored.
  pub transition-incident_state :
      (env : Env) (id : String) (monitor : Monitor) (e previous : IncidentEvaluation) (w : World)
      → env.store_state_fails ≡ false
      → get id (transition fl cfg json monitors env id monitor e previous w).0.db.incident_state
        ≡ some (state_row json env id e)
  transition-incident_state env id monitor e previous w h =
      ap (λ r. get id (r.0).db.incident_state) (transition-after_sync env id monitor e previous w h)
      ∙ ap (get id) (after_sync-incident_state env monitor e previous (stored env id e w) _ refl)
      ∙ get-put_self id (state_row json env id e) w.db.incident_state

  -- Once the transition to an evaluation has stored its state, a message whose submissions give the
  -- same evaluation and that can read the stored state is acknowledged and changes nothing: no second
  -- alert is sent, and no incident is touched.  This needs encoding/json to read the two JSON values back
  -- as they were, an empty list of regions being written as null, and each failure category to stand
  -- once in the breakdown.
  pub transition_once :
      (env env' : Env) (id : String) (monitor : Monitor) (e previous : IncidentEvaluation)
      (w : World)
      → env.store_state_fails ≡ false
      → env'.load_state_fails ≡ false
      → JsonRoundTrip json e
      → UniqueKeys e.failure_reasons_breakdown
      → let w' = (transition fl cfg json monitors env id monitor e previous w).0 in
        compare_states fl cfg json monitors env' id monitor e w'
          (load_incident_state json env' id w'.db)
        ≡ (w', acked)
  unfolding compare_states load_incident_state
  transition_once env env' id monitor e previous w h k trip u = rw k (
      rw (transition-incident_state env id monitor e previous w h) (
        unfold state_row in
        rw (parse-regions_json json e trip, parse-failure_reasons_json json e trip)
          (rw (equal_sorted e u))))
