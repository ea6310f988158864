-- ===== src/Processor/Sync/Announced.antt =====
-- The incident whose id `syncProgrammaticIncident` answers.
use eyrie.Base.{
  pair_eq, ◌<◌, String, ◌≡◌, refl, sym, ◌⊎◌, inl, inr, Bool, true, false, ◌&&◌, Option, none, some,
  List, [], ◌∷◌, arith, ◌==◌, nat_eq, string_eq, keep, count, count-append, equality_refl,
}
use eyrie.Monitor.{Monitor}
use eyrie.History.{MonitorIncident}
use eyrie.Incident.{JsonCodec, IncidentEvaluation, has_active_incident}
use eyrie.Processor.Db.{Db, Env}
use eyrie.Processor.Incidents.{
  is_active, latest_started, load_active_programmatic_incident, update_where, resolved_incident,
  updated_incident, new_incident, create_programmatic_incident, update_programmatic_incident,
  resolve_programmatic_incident,
}
use eyrie.Processor.Sync.{sync_found, sync_programmatic_incident}
use eyrie.Processor.Sync.Active.{
  count_id, latest_started-keep, latest_started-none, incidents-resolve, incidents-update,
  incidents-create,
}

-- An open incident of the monitor with an id, in the state of a verdict.
abbrev pub is_announced : Monitor → IncidentEvaluation → String → MonitorIncident → Bool
is_announced monitor e id i =
    is_active monitor.id i && i.id == id && i.status == e.status && i.scope == e.scope

-- What an id means, by whether the verdict is an incident, in the incidents before and after.
abbrev pub Announced :
    Monitor
    → IncidentEvaluation
    → Bool
    → String
    → List MonitorIncident
    → List MonitorIncident
    → Type 0
Announced monitor e true id before after = 0 < count (is_announced monitor e id) after
Announced monitor e false id before after =
    ((id ≡ "") × (count (is_active monitor.id) before ≡ 0))
    ⊎ ((0 < count_id (is_active monitor.id) id before)
        × (count_id (is_active monitor.id) id after ≡ 0))

update_announced :
    (json : JsonCodec) (env : Env) (monitor : Monitor) (e : IncidentEvaluation)
    (i : MonitorIncident) (l : List MonitorIncident)
    → 0 < count_id (is_active monitor.id) i.id l
    → 0
      < count
          (is_announced monitor e i.id)
          (update_where i.id (updated_incident json env i monitor e) l)
unfolding update_where updated_incident is_active
update_announced json env monitor e i [] h = omega arith
update_announced json env monitor e i (j ∷ l) h =
    ground (
      arith,
      update_announced json env monitor e i l,
      equality_refl e.status,
      equality_refl e.scope,
    )

resolve_closes :
    (env : Env) (monitor_id id : String) (l : List MonitorIncident)
    → count_id (is_active monitor_id) id (update_where id (resolved_incident env) l) ≡ 0
unfolding update_where resolved_incident is_active
resolve_closes env monitor_id id [] = refl
resolve_closes env monitor_id id (j ∷ l) = ground (arith, resolve_closes env monitor_id id l)

new_announced :
    (json : JsonCodec) (env : Env) (monitor : Monitor) (e : IncidentEvaluation)
    → is_announced monitor e env.incident_uuid (new_incident json env monitor e) ≡ true
unfolding new_incident is_active
new_announced json env monitor e = ground (
  arith,
  equality_refl monitor.id,
  equality_refl env.incident_uuid,
  equality_refl e.status,
  equality_refl e.scope,
)

sync_found-Announced :
    (json : JsonCodec) (env : Env) (monitor : Monitor) (e : IncidentEvaluation) (db : Db)
    (active : Bool) (found : Option MonitorIncident) (id : String) (db' : Db)
    → latest_started (keep (is_active monitor.id) db.incidents) ≡ found
    → sync_found json env monitor e db active found ≡ some (id, db')
    → Announced monitor e active id db.incidents db'.incidents
unfolding sync_found
sync_found-Announced json env monitor e db false none id db' f h =
    inl (ground arith, latest_started-none (is_active monitor.id) db.incidents f)
sync_found-Announced json env monitor e db false (some i) id db' f h =
    let hit = latest_started-keep (is_active monitor.id) db.incidents i f in
    let same : i.id ≡ id = unfold resolve_programmatic_incident in ground arith in
    rw (incidents-resolve env i db id db' h)
      (inr (rw (sym same) (hit.1, resolve_closes env monitor.id i.id db.incidents)))
sync_found-Announced json env monitor e db true none id db' f h =
    let same : env.incident_uuid ≡ id =
      unfold create_programmatic_incident new_incident in ground arith in
    rw (incidents-create json env monitor e db id db' h) (
      rw (sym same) (
        ground (
          arith,
          count-append (is_announced monitor e env.incident_uuid) db.incidents
              (new_incident json env monitor e ∷ []),
          new_announced json env monitor e,
        )))
sync_found-Announced json env monitor e db true (some i) id db' f h =
    let hit = latest_started-keep (is_active monitor.id) db.incidents i f in
    let same : i.id ≡ id = unfold update_programmatic_incident in ground arith in
    rw (incidents-update json env i monitor e db id db' h)
      (rw (sym same) (update_announced json env monitor e i db.incidents hit.1))

pub sync-Announced :
    (json : JsonCodec) (env : Env) (monitor : Monitor) (e : IncidentEvaluation) (db : Db)
    (id : String) (db' : Db)
    → sync_programmatic_incident json env monitor e db ≡ some (id, db')
    → Announced monitor e (has_active_incident e) id db.incidents db'.incidents
unfolding sync_programmatic_incident load_active_programmatic_incident
sync-Announced json env monitor e db id db' h =
    sync_found-Announced json env monitor e db (has_active_incident e)
      (latest_started (keep (is_active monitor.id) db.incidents)) id db' refl (ground arith)

sync_found_answers :
    (json : JsonCodec) (env : Env) (monitor : Monitor) (e : IncidentEvaluation) (db : Db)
    (active : Bool) (found : Option MonitorIncident)
    → env.write_incident_fails ≡ false
    → (id : String) × (db' : Db) × (sync_found json env monitor e db active found ≡ some (id, db'))
unfolding sync_found create_programmatic_incident update_programmatic_incident
    resolve_programmatic_incident
sync_found_answers json env monitor e db false none k = ("", db, refl)
sync_found_answers json env monitor e db false (some i) k = rw k (_, _, refl)
sync_found_answers json env monitor e db true none k = rw k (_, _, refl)
sync_found_answers json env monitor e db true (some i) k = rw k (_, _, refl)

-- Without a failure there is an answer.
pub sync_answers :
    (json : JsonCodec) (env : Env) (monitor : Monitor) (e : IncidentEvaluation) (db : Db)
    → env.load_incident_fails ≡ false
    → env.write_incident_fails ≡ false
    → (id : String) × (db' : Db) × (sync_programmatic_incident json env monitor e db
        ≡ some (id, db'))
unfolding sync_programmatic_incident load_active_programmatic_incident resolve_programmatic_incident
    create_programmatic_incident update_programmatic_incident
sync_answers json env monitor e db l k = rw l (
    sync_found_answers json env monitor e db (has_active_incident e)
      (latest_started (keep (is_active monitor.id) db.incidents)) k)
