-- ===== src/Alerter/Ntfy.antt =====
-- alerter_ntfy_buffered.go: per monitor, repeated down alerts are suppressed and degraded alerts are
-- collected for a digest.
-- The ntfy client behind it answers each alert with success or failure: `fails`.  A call of `Send` or
-- of the digest loop runs as a whole, with one reading of the clock.  `format_time` is Go's
-- `Time.Format` at `time.DateTime`.
pub mod Flush
pub mod Isolation
pub mod Silence
use eyrie.Base.{
  unique_from, count-unique_from, insert_sorted_comm, String-discrete, ℕ, zero, suc, ◌+◌, ◌-◌, ◌*◌,
  ◌/◌, ◌%◌, ◌≤◌, ◌<◌, String, ◌≡◌, refl, sym, ap, ap₂, ◌∙◌, ◌≢◌, ◌↔◌, ◌⊎◌, inl, inr, Bool, true,
  false, not, ◌&&◌, ◌||◌, Option, none, some, List, [], ◌∷◌, ◌++◌, map, Perm, arith, ltb, leb,
  Equality, ◌==◌, nat_eq, string_eq, str_eq_iff, nat_beq_iff, if◌then◌else◌, ltb→lt, leb→le,
  Bool-cases, Option-cases, length, is_empty, length-append, keep, length-keep, find_first, count,
  count-append, All, All-append, contains, concat, join, contains_text, trim_space, to_lower, itoa,
  text_leb, text_leb_total, text_leb_antisymm, text_leb_trans, sort, insert_sorted, sort-Perm,
  sort-sort, Map, get, put, get-put, get-put_self, equality_refl, UniqueKeys, put-UniqueKeys,
  length-put,
}
use eyrie.Monitor.{minute}
use eyrie.Alert.{AlertMessage}
use eyrie.Incident.{healthy, degraded, down}

pub record MonitorAlertState : Type 0 where
  pub suppress_until : ℕ
  pub degraded_since : ℕ
  pub degraded_buffer : List AlertMessage
  pub notified_unhealthy : Bool

pub record BufferedNtfyAlerter : Type 0 where
  pub suppress_window : ℕ
  pub digest_interval : ℕ
  pub states : Map String MonitorAlertState

unfoldable pub new_buffered_ntfy_alerter : ℕ → ℕ → BufferedNtfyAlerter
new_buffered_ntfy_alerter suppress_window_minutes digest_interval_minutes = record {
  suppress_window = suppress_window_minutes * minute;
  digest_interval = digest_interval_minutes * minute;
  states = [];
}

-- The alerter after a call, the alerts that it handed to the ntfy client, and whether it failed.
pub record Sent : Type 0 where
  pub alerter : BufferedNtfyAlerter
  pub alerts : List AlertMessage
  pub failed : Bool

abbrev pub or_new : Option MonitorAlertState → MonitorAlertState
or_new none = record {
  suppress_until = 0;
  degraded_since = 0;
  degraded_buffer = [];
  notified_unhealthy = false;
}
or_new (some state) = state

unfoldable pub get_or_create_state : BufferedNtfyAlerter → String → MonitorAlertState
get_or_create_state a monitor_id = or_new (get monitor_id a.states)

abbrev pub set_state : String → MonitorAlertState → BufferedNtfyAlerter → BufferedNtfyAlerter
set_state monitor_id state a = record a { states = put monitor_id state a.states }

-- The regions and the reasons of the collected alerts, in order.
abbrev all_regions : List AlertMessage → List String
all_regions [] = []
all_regions (alert ∷ rest) = alert.affected_regions ++ all_regions rest

abbrev all_reasons : List AlertMessage → List String
all_reasons [] = []
all_reasons (alert ∷ rest) =
    let others = all_reasons rest in if alert.reason == "" then others else alert.reason ∷ others

unfoldable pub join_unique_regions : List AlertMessage → String
unfolding unique_from
join_unique_regions alerts = join "; " (unique_from [] (all_regions alerts))

unfoldable pub unique_reasons : List AlertMessage → String
unfolding unique_from
unique_reasons alerts = join "; " (unique_from [] (all_reasons alerts))

abbrev pub keys : Map String MonitorAlertState → List String
keys [] = []
keys ((monitor_id, _) ∷ rest) = monitor_id ∷ keys rest

module _ (format_time : ℕ → String) (fails : AlertMessage → Bool) where
  unfoldable pub build_digest_message : AlertMessage → MonitorAlertState → String
  unfolding join_unique_regions unique_reasons
  build_digest_message first state =
      let regions = join_unique_regions state.degraded_buffer in
      let reasons = unique_reasons state.degraded_buffer in
      concat (
        first.name
        ∷ " has been degraded since "
        ∷ format_time state.degraded_since
        ∷ (if regions == "" then "" else concat (". Regions: " ∷ regions ∷ []))
        ∷ (if reasons == "" then "" else concat (". Issues: " ∷ reasons ∷ []))
        ∷ [])

  -- The body of `flushDigestForMonitor` for a buffer that begins with `first`.
  unfoldable pub flush_state :
      BufferedNtfyAlerter → String → MonitorAlertState → AlertMessage → Sent
  unfolding build_digest_message
  flush_state a monitor_id state first =
      let digest = record first { reason = build_digest_message first state; status = healthy } in
      let emptied = record state { degraded_buffer = [] } in
      if fails digest
      then record { alerter = set_state monitor_id emptied a; alerts = digest ∷ []; failed = true }
      else record {
        alerter = set_state monitor_id (record emptied { notified_unhealthy = true }) a;
        alerts = digest ∷ [];
        failed = false;
      }

  abbrev pub flush_buffer :
      BufferedNtfyAlerter → String → MonitorAlertState → List AlertMessage → Sent
  flush_buffer a monitor_id state [] = record { alerter = a; alerts = []; failed = false }
  flush_buffer a monitor_id state (first ∷ _) = flush_state a monitor_id state first

  abbrev pub flush_found : BufferedNtfyAlerter → String → Option MonitorAlertState → Sent
  flush_found a monitor_id none = record { alerter = a; alerts = []; failed = false }
  flush_found a monitor_id (some state) = flush_buffer a monitor_id state state.degraded_buffer

  -- A failed digest is only logged: callers do not see `failed`.
  unfoldable pub flush_digest_for_monitor : BufferedNtfyAlerter → String → Sent
  unfolding flush_state
  flush_digest_for_monitor a monitor_id = flush_found a monitor_id (get monitor_id a.states)

  unfoldable pub flush_all : BufferedNtfyAlerter → List String → Sent
  unfolding flush_digest_for_monitor
  flush_all a [] = record { alerter = a; alerts = []; failed = false }
  flush_all a (monitor_id ∷ rest) =
      let one = flush_digest_for_monitor a monitor_id in
      let others = flush_all one.alerter rest in
      record others { alerts = one.alerts ++ others.alerts }

  -- A tick of the digest loop.
  unfoldable pub flush_digest : BufferedNtfyAlerter → Sent
  unfolding flush_all
  flush_digest a = flush_all a (keys a.states)

  unfoldable pub handle_down_alert : ℕ → BufferedNtfyAlerter → AlertMessage → Sent
  unfolding get_or_create_state
  handle_down_alert now a alert =
      let state = get_or_create_state a alert.monitor_id in
      let state' = record state {
        suppress_until = now + a.suppress_window;
        degraded_buffer = [];
      } in
      if ltb now state.suppress_until
      then record { alerter = set_state alert.monitor_id state' a; alerts = []; failed = false }
      else if fails alert
      then record {
        alerter = set_state alert.monitor_id state' a;
        alerts = alert ∷ [];
        failed = true;
      }
      else record {
        alerter = set_state alert.monitor_id (record state' { notified_unhealthy = true }) a;
        alerts = alert ∷ [];
        failed = false;
      }

  unfoldable pub handle_degraded_alert : ℕ → BufferedNtfyAlerter → AlertMessage → Sent
  unfolding get_or_create_state
  handle_degraded_alert now a alert =
      let state = get_or_create_state a alert.monitor_id in
      let state' = record state {
        degraded_since =
            if is_empty state.degraded_buffer then alert.occurred_at else state.degraded_since;
        degraded_buffer = state.degraded_buffer ++ alert ∷ [];
      } in
      let ignored = a.digest_interval == 0 || ltb now state.suppress_until in
      record {
        alerter = set_state alert.monitor_id (if ignored then state else state') a;
        alerts = [];
        failed = false;
      }

  -- The cases of `handleHealthyAlert`, by the state of the monitor.
  unfoldable pub recover : BufferedNtfyAlerter → AlertMessage → Option MonitorAlertState → Sent
  unfolding flush_digest_for_monitor
  recover a alert none = record { alerter = a; alerts = alert ∷ []; failed = fails alert }
  recover a alert (some state) =
      let digest = flush_digest_for_monitor a alert.monitor_id in
      if not (is_empty state.degraded_buffer)
      then record digest { failed = false }
      else if not state.notified_unhealthy
      then record { alerter = a; alerts = []; failed = false }
      else if fails alert
      then record { alerter = a; alerts = alert ∷ []; failed = true }
      else record {
        alerter = set_state alert.monitor_id (record state { notified_unhealthy = false }) a;
        alerts = alert ∷ [];
        failed = false;
      }

  unfoldable pub handle_healthy_alert : BufferedNtfyAlerter → AlertMessage → Sent
  unfolding recover
  handle_healthy_alert a alert = recover a alert (get alert.monitor_id a.states)

  unfoldable pub send : ℕ → BufferedNtfyAlerter → AlertMessage → Sent
  unfolding handle_down_alert handle_degraded_alert handle_healthy_alert
  send now a alert =
      if alert.status == down
      then handle_down_alert now a alert
      else if alert.status == degraded
      then handle_degraded_alert now a alert
      else if alert.status == healthy
      then handle_healthy_alert a alert
      else record { alerter = a; alerts = alert ∷ []; failed = fails alert }
