-- ===== src/Processor/Handle.antt =====
-- One round of the loop of `ProcessorWorker.Start`: a received message, up to its `Ack` or `Nack`.
-- Tracing, metrics, logging and sleeping are left out.  A message is acknowledged in place of a `Nack`
-- where the queue cannot redeliver it.
use eyrie.Base.{
  ℕ, ◌-◌, ◌*◌, String, not, ◌&&◌, Option, none, some, List, [], ◌∷◌, ◌++◌, ◌==◌, nat_eq, string_eq,
  if◌then◌else◌, is_empty, find_first, concat, join, Map,
}
use eyrie.Monitor.{Monitor, minute}
use eyrie.Monitor.Names.{effective_alert_names}
use eyrie.Submission.{CheckerSubmissionRequest}
pub mod Redelivery
pub mod Steady
pub mod Effects
pub mod Alerts
pub mod Again
use eyrie.Alert.{AlertMessage, QueuedAlert}
use eyrie.Config.{Float64, DatasetConfig}
use eyrie.History.{MonitorHistorical}
use eyrie.Incident.{JsonCodec, IncidentEvaluation, equal, healthy}
use eyrie.Processor.Buckets.{group_submission_by_minute}
use eyrie.Processor.Latest.{evaluate_latest_incident}
use eyrie.Processor.Db.{Db, Env, lookback, load_incident_state, store_incident_state}
use eyrie.Processor.Sync.{sync_programmatic_incident}

-- The tables, and the alerts that were sent to the alerter queue, in order.
pub record World : Type 0 where
  pub db : Db
  pub alerts : List QueuedAlert

pub data Disposition : Type 0 where
  acked nacked : Disposition

-- `if message.Nackable() { message.Nack() } else { message.Ack() }`
unfoldable pub nack : Env → Disposition
nack env = if env.nackable then nacked else acked

unfoldable pub find_monitor : List Monitor → String → Option Monitor
find_monitor monitors monitor_id = find_first (λ m. m.id == monitor_id) monitors

unfoldable pub alert_message :
    Env → Monitor → IncidentEvaluation → IncidentEvaluation → String → AlertMessage
unfolding effective_alert_names
alert_message env monitor current previous incident_id = record {
  monitor_id = monitor.id;
  incident_id = incident_id;
  name = monitor.name;
  status = current.status;
  scope = current.scope;
  reason =
      if current.status == healthy && not (previous.status == healthy)
      then concat ("Monitor recovered from " ∷ previous.scope ∷ " " ∷ previous.status ∷ [])
      else current.reason;
  occurred_at = env.now;
  affected_regions = current.affected_regions;
  alert_names = effective_alert_names monitor;
}

unfoldable pub alert_metadata : AlertMessage → Map String String
alert_metadata a =
    let base = ("monitor_id", a.monitor_id) ∷ ("status", a.status) ∷ ("scope", a.scope) ∷ [] in
    if is_empty a.alert_names then base else base ++ ("alert_names", join "," a.alert_names) ∷ []

unfoldable pub publish_alert :
    Env
    → Monitor
    → IncidentEvaluation
    → IncidentEvaluation
    → String
    → List QueuedAlert
    → Option (List QueuedAlert)
unfolding alert_message alert_metadata
publish_alert env monitor current previous incident_id queue =
    let a = alert_message env monitor current previous incident_id in
    if env.send_fails
    then none
    else some (queue ++ record { body = a; metadata = alert_metadata a } ∷ [])

module _ (fl : Float64) (cfg : DatasetConfig fl) (json : JsonCodec) (monitors : List Monitor) where
  -- The verdict on the submissions of the look-back window.
  unfoldable pub evaluate : ℕ → Monitor → List MonitorHistorical → IncidentEvaluation
  unfolding group_submission_by_minute evaluate_latest_incident
  evaluate now monitor submissions =
      let (buckets, earliest, latest) =
        group_submission_by_minute fl cfg now submissions minute monitor in
      evaluate_latest_incident fl cfg buckets submissions latest earliest minute

  unfoldable pub after_sync :
      Env
      → Monitor
      → IncidentEvaluation
      → IncidentEvaluation
      → World
      → Option (String × Db)
      → World × Disposition
  unfolding publish_alert
  after_sync env monitor evaluation previous w none = (w, acked)
  after_sync env monitor evaluation previous w (some (incident_id, db)) =
      elim (publish_alert env monitor evaluation previous incident_id w.alerts) [
        | none ↦ (record w { db = db }, acked)
        | some alerts ↦ (record { db = db; alerts = alerts }, acked)
      ]

  -- From the stored state on, nothing is redelivered.
  unfoldable pub transition :
      Env → String → Monitor → IncidentEvaluation → IncidentEvaluation → World → World × Disposition
  unfolding after_sync nack
  transition env monitor_id monitor evaluation previous w =
      elim (store_incident_state json env monitor_id evaluation w.db) [
        | none ↦ (w, nack env)
        | some db ↦
            after_sync env monitor evaluation previous (record w { db = db })
              (sync_programmatic_incident json env monitor evaluation db)
      ]

  unfoldable pub compare_states :
      Env
      → String
      → Monitor
      → IncidentEvaluation
      → World
      → Option IncidentEvaluation
      → World × Disposition
  unfolding transition nack
  compare_states env monitor_id monitor evaluation w none = (w, nack env)
  compare_states env monitor_id monitor evaluation w (some previous) =
      if equal previous evaluation
      then (w, acked)
      else transition env monitor_id monitor evaluation previous w

  unfoldable pub process_submissions :
      Env → String → Monitor → World → Option (List MonitorHistorical) → World × Disposition
  unfolding compare_states nack
  process_submissions env monitor_id monitor w none = (w, nack env)
  process_submissions env monitor_id monitor w (some submissions) =
      compare_states env monitor_id monitor (evaluate env.now monitor submissions) w
        (load_incident_state json env monitor_id w.db)

  unfoldable pub process_monitor : Env → String → World → Option Monitor → World × Disposition
  unfolding process_submissions
  process_monitor env monitor_id w none = (w, acked)
  process_monitor env monitor_id w (some monitor) =
      let since = env.now - cfg.processing_lookback_minutes * minute in
      process_submissions env monitor_id monitor w (lookback env monitor_id since w.db)

  -- `none` is a body that does not unmarshal.
  unfoldable pub handle : Env → Option CheckerSubmissionRequest → World → World × Disposition
  unfolding process_monitor find_monitor nack
  handle env none w = (w, nack env)
  handle env (some request) w =
      process_monitor env request.monitor_id w (find_monitor monitors request.monitor_id)
