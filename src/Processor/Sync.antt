-- ===== src/Processor/Sync.antt =====
-- `syncProgrammaticIncident`: which of the incident transactions an evaluation calls for.
pub mod Active
pub mod Announced
use eyrie.Base.{String, Bool, true, false, Option, none, some, nat_eq, string_eq}
use eyrie.Monitor.{Monitor}
use eyrie.History.{MonitorIncident}
use eyrie.Incident.{JsonCodec, IncidentEvaluation, has_active_incident}
use eyrie.Processor.Db.{Db, Env}
use eyrie.Processor.Incidents.{
  load_active_programmatic_incident, create_programmatic_incident, update_programmatic_incident,
  resolve_programmatic_incident,
}

abbrev pub with_id : String → Option Db → Option (String × Db)
with_id id none = none
with_id id (some db) = some (id, db)

module _ (json : JsonCodec) where
  -- The switch, by the active incident and by whether the evaluation is an incident.
  unfoldable pub sync_found :
      Env → Monitor → IncidentEvaluation → Db → Bool → Option MonitorIncident → Option (String × Db)
  sync_found env monitor e db false none = some ("", db)
  sync_found env monitor e db false (some i) = with_id i.id (resolve_programmatic_incident env i db)
  sync_found env monitor e db true none = create_programmatic_incident json env monitor e db
  sync_found env monitor e db true (some i) =
      with_id i.id (update_programmatic_incident json env i monitor e db)

  abbrev pub sync_loaded :
      Env
      → Monitor
      → IncidentEvaluation
      → Db
      → Option (Option MonitorIncident)
      → Option (String × Db)
  sync_loaded env monitor e db none = none
  sync_loaded env monitor e db (some found) =
      sync_found env monitor e db (has_active_incident e) found

  unfoldable pub sync_programmatic_incident :
      Env → Monitor → IncidentEvaluation → Db → Option (String × Db)
  unfolding sync_found
  sync_programmatic_incident env monitor e db =
      sync_loaded env monitor e db (load_active_programmatic_incident env monitor.id db)
