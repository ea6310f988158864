-- ===== src/Examples/Messages.antt =====
-- Runs of the handler on whole messages, and of what is proved of it.
use mathlib.Core.Path.{subst}
use eyrie.Incident.Stored.{JsonRoundTrip}
use eyrie.Processor.Handle.Again.{handle_again}
use eyrie.Base.{
  ◌-◌, ◌*◌, ◌≤◌, String, ◌≡◌, refl, sym, inl, inr, true, false, some, List, [], ◌∷◌, ◌++◌, arith,
  ◌==◌, nat_eq, string_eq, length, count, contains_text, to_lower, sort, get, put,
}
use eyrie.Config.{exact}
use eyrie.Incident.{
  JsonCodec, programmatic_title, IncidentEvaluation, equal, has_active_incident,
  healthy_incident_evaluation,
}
use eyrie.Processor.Db.{
  scan_historical, lookback, store_incident_state, Db, Env, load_incident_state, state_row,
}
use eyrie.Processor.Evaluate.{
  latest_non_empty_bucket, failed_regions_from_bucket, evaluate_bucket_incident,
}
use eyrie.Monitor.{minute, is_successful_status}
use eyrie.Processor.Times.{times_back}
use eyrie.Processor.Latest.{evaluate_newest}
use eyrie.Processor.Sync.{sync_programmatic_incident}
use eyrie.Processor.Sync.Active.{OneActive, sync_open_incidents}
use eyrie.History.{MonitorHistorical, MonitorIncident}
use eyrie.Processor.Incidents.{
  create_programmatic_incident, load_active_programmatic_incident, new_incident, incident_event,
  is_active,
}
use eyrie.Processor.Handle.{
  find_monitor, evaluate, publish_alert, World, Disposition, acked, nacked, handle, transition,
  compare_states,
}
use eyrie.Alert.{QueuedAlert}
use eyrie.Monitor.Names.{effective_alert_names}
use eyrie.Processor.Sync.Announced.{Announced}
use eyrie.Processor.Handle.Redelivery.{handle-nacked}
use eyrie.Processor.Handle.Steady.{transition_once, stored}
use eyrie.Processor.Handle.Effects.{handle-OneActive}
use eyrie.Processor.Handle.Alerts.{transition_announces, transition_lost}
use eyrie.Processor.Incidents.Manual.{
  updates, NeverGenerated, manual_title_kept, generated_title_follows,
}
use eyrie.Examples.{
  probe, shop, settings, calm, quiet, submission, outage, outage_json, outage-UniqueKeys,
  outage-JsonRoundTrip,
}

abbrev run : Env → World → World × Disposition
run env w = handle exact settings outage_json (shop ∷ []) env (some submission) w

-- A single region that fails: the monitor goes down, an incident is opened, an alert is queued.
outage_opens_incident :
    let r = run calm quiet in
    (r.1 ≡ acked) × (length r.0.db.incidents ≡ 1) × (length r.0.alerts ≡ 1)
unfolding handle lookback load_incident_state equal get healthy_incident_evaluation evaluate put
    latest_non_empty_bucket times_back evaluate_newest failed_regions_from_bucket sort
    is_successful_status evaluate_bucket_incident store_incident_state sync_programmatic_incident
    load_active_programmatic_incident has_active_incident create_programmatic_incident publish_alert
outage_opens_incident = (refl, refl, refl)

quiet-OneActive : OneActive quiet.db
quiet-OneActive j = omega arith

handle-OneActive_example : OneActive (run calm quiet).0.db
handle-OneActive_example =
    handle-OneActive exact settings outage_json (shop ∷ []) calm (some submission) quiet
      quiet-OneActive

abbrev no_store : Env
no_store = record calm { store_state_fails = true }

store_fails-nacked : (run no_store quiet).1 ≡ nacked
unfolding handle lookback load_incident_state equal get healthy_incident_evaluation evaluate put
    latest_non_empty_bucket times_back evaluate_newest failed_regions_from_bucket sort
    is_successful_status evaluate_bucket_incident store_incident_state
store_fails-nacked = refl

handle-nacked_example : (run no_store quiet).0 ≡ quiet
handle-nacked_example =
    handle-nacked exact settings outage_json (shop ∷ []) no_store (some submission) quiet
      store_fails-nacked

abbrev after_outage : Env → World × Disposition
after_outage env =
    transition exact settings outage_json (shop ∷ []) env "shop" shop outage
      healthy_incident_evaluation quiet

transition_once_example :
    compare_states exact settings outage_json
      (shop ∷ [])
      calm
      "shop"
      shop
      outage
      (after_outage calm).0
      (load_incident_state outage_json calm "shop" (after_outage calm).0.db)
    ≡ ((after_outage calm).0, acked)
transition_once_example =
    transition_once exact settings outage_json (shop ∷ []) calm calm "shop" shop outage
      healthy_incident_evaluation quiet refl refl outage-JsonRoundTrip outage-UniqueKeys

abbrev stored_world : World
stored_world = stored exact settings outage_json (shop ∷ []) calm "shop" outage quiet

abbrev opened : MonitorIncident
opened = new_incident outage_json calm shop outage

abbrev created : Db
created = record stored_world.db {
  incidents = opened ∷ [];
  events = incident_event calm opened "created" opened.title opened.body ∷ [];
}

sync_opens :
    sync_programmatic_incident outage_json calm shop outage stored_world.db ≡ some ("i-1", created)
unfolding sync_programmatic_incident load_active_programmatic_incident has_active_incident
    create_programmatic_incident
sync_opens = refl

transition_announces_example :
    let r = after_outage calm in
    (a : QueuedAlert) × (r.0.alerts ≡ [] ++ a ∷ [])
    × (r.1 ≡ acked)
    × (a.body.monitor_id ≡ "shop")
    × (a.body.status ≡ outage.status)
    × (a.body.scope ≡ outage.scope)
    × (a.body.affected_regions ≡ outage.affected_regions)
    × (a.body.alert_names ≡ effective_alert_names shop)
    × Announced shop outage (has_active_incident outage) a.body.incident_id [] r.0.db.incidents
transition_announces_example =
    transition_announces exact settings outage_json (shop ∷ []) calm "shop" shop outage
      healthy_incident_evaluation quiet refl refl refl refl

-- A recovery is stored and read back like any other verdict: its list of regions is null in JSON.
abbrev recovery_json : JsonCodec
recovery_json = record outage_json { marshal_texts = λ l. some "null" }

recovery-JsonRoundTrip : JsonRoundTrip recovery_json healthy_incident_evaluation
unfolding sort healthy_incident_evaluation
recovery-JsonRoundTrip = record {
  regions_text = "null";
  regions_marshal = refl;
  regions_back = inl (refl, refl);
  reasons_back = λ e. cc;
}

abbrev no_queue : Env
no_queue = record calm { send_fails = true }

transition_lost_example :
    ((after_outage no_queue).0.alerts ≡ [])
    × ((after_outage no_queue).1 ≡ acked)
    × (get "shop" (after_outage no_queue).0.db.incident_state
        ≡ some (state_row outage_json no_queue "shop" outage))
transition_lost_example =
    transition_lost exact settings outage_json (shop ∷ []) no_queue "shop" shop outage
      healthy_incident_evaluation quiet refl (inr refl)

sync_open_incidents_example :
    (count (is_active "shop") created.incidents ≡ 1)
    × ((j : String)
        → ("shop" == j) ≡ false
        → count (is_active j) created.incidents ≤ count (is_active j) stored_world.db.incidents)
unfolding has_active_incident
sync_open_incidents_example =
    sync_open_incidents outage_json calm shop outage stored_world.db "i-1" created quiet-OneActive
      sync_opens

abbrev found_reports : List MonitorHistorical
found_reports = scan_historical (probe "eu" 500 (9 * minute)) ∷ []

finds_reports :
    lookback calm "shop" (calm.now - settings.processing_lookback_minutes * minute) quiet.db
    ≡ some found_reports
unfolding lookback scan_historical
finds_reports = refl

finds_shop : find_monitor (shop ∷ []) "shop" ≡ some shop
unfolding find_monitor
finds_shop = refl

reports_give_outage :
    evaluate exact settings outage_json (shop ∷ []) calm.now shop found_reports ≡ outage
unfolding evaluate put scan_historical latest_non_empty_bucket times_back get evaluate_newest
    failed_regions_from_bucket sort is_successful_status evaluate_bucket_incident contains_text
    to_lower
reports_give_outage = refl

handle_again_example : let w' = (run calm quiet).0 in run no_store w' ≡ (w', acked)
handle_again_example =
    handle_again exact settings outage_json (shop ∷ []) calm no_store submission quiet shop
      found_reports finds_shop finds_reports refl refl refl refl refl refl
      (subst (JsonRoundTrip outage_json) (sym reports_give_outage) outage-JsonRoundTrip)

-- An operator renamed the incident.
abbrev renamed : MonitorIncident
renamed = record opened { title = "Payments are down" }

abbrev two_updates : List (Env × IncidentEvaluation)
two_updates = (calm, outage) ∷ (calm, healthy_incident_evaluation) ∷ []

renamed-NeverGenerated : NeverGenerated outage_json shop renamed.title two_updates
unfolding programmatic_title healthy_incident_evaluation
renamed-NeverGenerated = (refl, (refl, tt))

renamed_differs : (renamed.title == renamed.auto_title) ≡ false
unfolding new_incident programmatic_title
renamed_differs = refl

manual_title_kept_example : (updates outage_json shop renamed two_updates).title ≡ renamed.title
manual_title_kept_example =
    manual_title_kept outage_json shop renamed two_updates refl renamed_differs
      renamed-NeverGenerated

opened_is_generated : opened.title ≡ opened.auto_title
unfolding new_incident
opened_is_generated = refl

generated_title_follows_example :
    ((updates outage_json shop opened (two_updates ++ (calm, outage) ∷ [])).title
      ≡ programmatic_title outage shop)
    × ((updates outage_json shop opened (two_updates ++ (calm, outage) ∷ [])).auto_title
        ≡ programmatic_title outage shop)
generated_title_follows_example =
    generated_title_follows outage_json shop opened two_updates calm outage opened_is_generated
