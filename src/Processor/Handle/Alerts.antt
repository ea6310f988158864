-- ===== src/Processor/Handle/Alerts.antt =====
-- The alert of a transition, and the transitions that send none.
use eyrie.Base.{
  String, ◌≡◌, refl, ap, ◌∙◌, ◌⊎◌, true, false, Option, none, some, List, [], ◌∷◌, ◌++◌, arith,
  nat_eq, string_eq, get,
}
use eyrie.Monitor.{Monitor}
use eyrie.Alert.{QueuedAlert}
use eyrie.Config.{Float64, DatasetConfig}
use eyrie.Incident.{JsonCodec, IncidentEvaluation}
use eyrie.Processor.Db.{Db, Env, state_row}
use eyrie.Processor.Sync.{sync_programmatic_incident}
use eyrie.Processor.Handle.{
  World, Disposition, acked, alert_message, alert_metadata, publish_alert, after_sync, transition,
}
use eyrie.Monitor.Names.{effective_alert_names}
use eyrie.Incident.{has_active_incident}
use eyrie.Processor.Sync.Announced.{Announced, sync_answers, sync-Announced}
use eyrie.Processor.Handle.Steady.{transition-after_sync, stored, transition-incident_state}

-- The queue entry of an alert.
abbrev pub queued : Env → Monitor → IncidentEvaluation → IncidentEvaluation → String → QueuedAlert
queued env monitor e previous incident_id =
    let a = alert_message env monitor e previous incident_id in
    record { body = a; metadata = alert_metadata a }

module _ (fl : Float64) (cfg : DatasetConfig fl) (json : JsonCodec) (monitors : List Monitor) where
  -- A transition whose incident transaction has an answer.
  transition_alert :
      (env : Env) (id : String) (monitor : Monitor) (e previous : IncidentEvaluation) (w : World)
      (incident_id : String) (db : Db)
      → env.store_state_fails ≡ false
      → env.send_fails ≡ false
      → sync_programmatic_incident json env monitor e (stored fl cfg json monitors env id e w).db
        ≡ some (incident_id, db)
      → transition fl cfg json monitors env id monitor e previous w ≡ (
        record { db = db; alerts = w.alerts ++ queued env monitor e previous incident_id ∷ [] },
        acked,
      )
  transition_alert env id monitor e previous w incident_id db h k s =
      transition-after_sync fl cfg json monitors env id monitor e previous w h
      ∙ (unfold after_sync publish_alert in rw s (ground arith))

  after_sync_lost :
      (env : Env) (monitor : Monitor) (e previous : IncidentEvaluation) (w : World)
      (synced : Option (String × Db))
      → (synced ≡ none) ⊎ (env.send_fails ≡ true)
      → ((after_sync fl cfg json monitors env monitor e previous w synced).0.alerts ≡ w.alerts)
        × ((after_sync fl cfg json monitors env monitor e previous w synced).1 ≡ acked)
  unfolding after_sync
  after_sync_lost env monitor e previous w none h = (refl, refl)
  after_sync_lost env monitor e previous w (some (i, db)) h =
      unfold publish_alert in (ground arith, ground arith)

  -- Where the incident transaction or the queue fails after the state was stored, the message is
  -- acknowledged all the same: no alert is sent, and the new state stays stored.
  pub transition_lost :
      (env : Env) (id : String) (monitor : Monitor) (e previous : IncidentEvaluation) (w : World)
      → env.store_state_fails ≡ false
      → (sync_programmatic_incident json env monitor e (stored fl cfg json monitors env id e w).db
          ≡ none)
        ⊎ (env.send_fails ≡ true)
      → let r = transition fl cfg json monitors env id monitor e previous w in
        (r.0.alerts ≡ w.alerts)
        × (r.1 ≡ acked)
        × (get id r.0.db.incident_state ≡ some (state_row json env id e))
  transition_lost env id monitor e previous w h lost =
      let eq = transition-after_sync fl cfg json monitors env id monitor e previous w h in
      let r =
        after_sync_lost env monitor e previous (stored fl cfg json monitors env id e w) _ lost in
      (
        ap (λ (v : World × Disposition). (v.0).alerts) eq ∙ r.0,
        ap (λ (v : World × Disposition). v.1) eq ∙ r.1,
        transition-incident_state fl cfg json monitors env id monitor e previous w h,
      )

  -- A transition in which no call fails is acknowledged and queues one alert, with the monitor, the
  -- verdict's status and scope, the regions and the alert names of the settings.  If the verdict is an
  -- incident, the alert carries the id of a programmatic incident of the monitor that is then open and has
  -- this status and scope.  If it is healthy, the alert carries the id of an incident that was open and is
  -- not any more, or no id if none was open.
  pub transition_announces :
      (env : Env) (id : String) (monitor : Monitor) (e previous : IncidentEvaluation) (w : World)
      → env.store_state_fails ≡ false
      → env.load_incident_fails ≡ false
      → env.write_incident_fails ≡ false
      → env.send_fails ≡ false
      → let r = transition fl cfg json monitors env id monitor e previous w in
        (a : QueuedAlert) × (r.0.alerts ≡ w.alerts ++ a ∷ [])
        × (r.1 ≡ acked)
        × (a.body.monitor_id ≡ monitor.id)
        × (a.body.status ≡ e.status)
        × (a.body.scope ≡ e.scope)
        × (a.body.affected_regions ≡ e.affected_regions)
        × (a.body.alert_names ≡ effective_alert_names monitor)
        × Announced monitor e
            (has_active_incident e)
            a.body.incident_id
            w.db.incidents
            r.0.db.incidents
  transition_announces env id monitor e previous w h l k s =
      let before = (stored fl cfg json monitors env id e w).db in
      let (incident_id, db, synced) = sync_answers json env monitor e before l k in
      rw (transition_alert env id monitor e previous w incident_id db h s synced) (
        queued env monitor e previous incident_id,
        refl,
        refl,
        unfold alert_message in refl,
        unfold alert_message in refl,
        unfold alert_message in refl,
        unfold alert_message in refl,
        unfold alert_message in refl,
        unfold alert_message in sync-Announced json env monitor e before incident_id db synced,
      )
