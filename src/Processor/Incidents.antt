-- ===== src/Processor/Incidents.antt =====
-- The incident records: `syncProgrammaticIncident` and the transactions that it chooses from.
-- `none` is an error; the transaction is rolled back, and the tables stay as they were.
pub mod Manual
use eyrie.Base.{
  String, Bool, true, false, ◌&&◌, ◌||◌, Option, none, some, List, [], ◌∷◌, ◌++◌, ltb, ◌==◌, nat_eq,
  string_eq, if◌then◌else◌, keep, concat,
}
use eyrie.Monitor.{Monitor}
use eyrie.History.{MonitorIncident, MonitorIncidentEvent}
use eyrie.Incident.{
  JsonCodec, IncidentEvaluation, healthy, programmatic, investigating, resolved, regions_json,
  failure_reasons_json, impact, programmatic_title,
}
use eyrie.Processor.Db.{Db, Env}

unfoldable pub preserve_manual_string : String → String → String → String
preserve_manual_string current previous_auto next_auto =
    if current == "" || current == previous_auto then next_auto else current

abbrev is_none {ℓ} : {A : Type ℓ} → Option A → Bool
is_none none = true
is_none (some _) = false

unfoldable pub is_active : String → MonitorIncident → Bool
is_active monitor_id i =
    i.monitor_id == monitor_id && i.source == programmatic && is_none i.resolved_at

-- `ORDER BY started_at DESC LIMIT 1`; of rows that started together, the one stored first.
abbrev pub later_started : MonitorIncident → Option MonitorIncident → MonitorIncident
later_started i none = i
later_started i (some j) = if ltb i.started_at j.started_at then j else i

unfoldable pub latest_started : List MonitorIncident → Option MonitorIncident
latest_started [] = none
latest_started (i ∷ rest) = some (later_started i (latest_started rest))

-- The outer `none` is an error, the inner one that no incident is active.
unfoldable pub load_active_programmatic_incident :
    Env → String → Db → Option (Option MonitorIncident)
unfolding is_active latest_started
load_active_programmatic_incident env monitor_id db =
    if env.load_incident_fails
    then none
    else some (latest_started (keep (is_active monitor_id) db.incidents))

unfoldable pub incident_event :
    Env → MonitorIncident → String → String → String → MonitorIncidentEvent
incident_event env i event_type title body = record {
  id = env.event_uuid;
  incident_id = i.id;
  monitor_id = i.monitor_id;
  event_type = event_type;
  source = i.source;
  lifecycle_state = i.lifecycle_state;
  impact = i.impact;
  title = title;
  body = body;
  status = i.status;
  scope = i.scope;
  affected_regions = i.affected_regions;
  created_at = env.now;
}

-- `UPDATE monitor_incidents … WHERE id = ?`
unfoldable pub update_where :
    String → (MonitorIncident → MonitorIncident) → List MonitorIncident → List MonitorIncident
update_where id f [] = []
update_where id f (i ∷ rest) = (if i.id == id then f i else i) ∷ update_where id f rest

unfoldable pub resolved_incident : Env → MonitorIncident → MonitorIncident
resolved_incident env r = record r {
  lifecycle_state = resolved;
  status = healthy;
  scope = healthy;
  resolved_at = some env.now;
  updated_at = env.now;
}

unfoldable pub resolve_programmatic_incident : Env → MonitorIncident → Db → Option Db
unfolding resolved_incident incident_event update_where
resolve_programmatic_incident env i db =
    let resolution_body = concat ("Monitor recovered from " ∷ i.scope ∷ " " ∷ i.status ∷ []) in
    let i' = resolved_incident env i in
    if env.write_incident_fails
    then none
    else some (record db {
      incidents = update_where i.id (resolved_incident env) db.incidents;
      events = db.events ++ incident_event env i' "resolved" i.title resolution_body ∷ [];
    })

module _ (json : JsonCodec) where
  unfoldable pub new_incident : Env → Monitor → IncidentEvaluation → MonitorIncident
  new_incident env monitor e = record {
    id = env.incident_uuid;
    monitor_id = monitor.id;
    source = programmatic;
    lifecycle_state = investigating;
    auto_impact = impact e;
    impact = impact e;
    auto_title = programmatic_title e monitor;
    auto_body = e.reason;
    title = programmatic_title e monitor;
    body = e.reason;
    status = e.status;
    scope = e.scope;
    affected_regions = regions_json json e;
    failure_reasons_json = failure_reasons_json json e;
    started_at = env.now;
    resolved_at = none;
    created_at = env.now;
    updated_at = env.now;
  }

  unfoldable pub create_programmatic_incident :
      Env → Monitor → IncidentEvaluation → Db → Option (String × Db)
  unfolding new_incident incident_event
  create_programmatic_incident env monitor e db =
      let i = new_incident env monitor e in
      if env.write_incident_fails
      then none
      else some (
        i.id,
        record db {
          incidents = db.incidents ++ i ∷ [];
          events = db.events ++ incident_event env i "created" i.title i.body ∷ [];
        },
      )

  abbrev lifecycle_or : String → String
  lifecycle_or state = if state == "" then investigating else state

  -- The row `r` after the statement, whose values come from the incident `i` that was read.
  unfoldable pub updated_incident :
      Env → MonitorIncident → Monitor → IncidentEvaluation → MonitorIncident → MonitorIncident
  unfolding preserve_manual_string
  updated_incident env i monitor e r = record r {
    lifecycle_state = lifecycle_or i.lifecycle_state;
    auto_impact = impact e;
    impact = preserve_manual_string i.impact i.auto_impact (impact e);
    auto_title = programmatic_title e monitor;
    auto_body = e.reason;
    title = preserve_manual_string i.title i.auto_title (programmatic_title e monitor);
    body = preserve_manual_string i.body i.auto_body e.reason;
    status = e.status;
    scope = e.scope;
    affected_regions = regions_json json e;
    failure_reasons_json = failure_reasons_json json e;
    updated_at = env.now;
  }

  unfoldable pub update_programmatic_incident :
      Env → MonitorIncident → Monitor → IncidentEvaluation → Db → Option Db
  unfolding updated_incident incident_event update_where
  update_programmatic_incident env i monitor e db =
      let i' = updated_incident env i monitor e i in
      if env.write_incident_fails
      then none
      else some (record db {
        incidents = update_where i.id (updated_incident env i monitor e) db.incidents;
        events = db.events ++ incident_event env i' "updated" i'.title i'.body ∷ [];
      })
