-- ===== src/Processor/Db.antt =====
-- The tables that the processor reads and writes, and its queries.
-- A query that fails leaves the tables alone: a write is one statement or one transaction.
use eyrie.Base.{
  ℕ, zero, suc, String, Bool, false, ◌&&◌, Option, none, some, List, [], ◌∷◌, map, leb, ◌==◌,
  nat_eq, string_eq, if◌then◌else◌, keep, Map, get, put,
}
use eyrie.History.{MonitorHistorical, MonitorIncidentState, MonitorIncident, MonitorIncidentEvent}
use eyrie.Incident.{
  JsonCodec, IncidentEvaluation, healthy_incident_evaluation, regions_json, parse_regions_json,
  failure_reasons_json, parse_failure_reasons_json,
}

pub record Db : Type 0 where
  pub historical : List MonitorHistorical
  pub incident_state : Map String MonitorIncidentState
  pub incidents : List MonitorIncident
  pub events : List MonitorIncidentEvent

-- What one message meets outside the program: the clock, the ids that it draws, and which calls fail.
pub record Env : Type 0 where
  pub now : ℕ
  pub incident_uuid : String
  pub event_uuid : String
  pub lookback_fails : Bool
  -- The rows of the look-back after which reading them breaks off, if it does.
  pub lookback_breaks : Option ℕ
  pub load_state_fails : Bool
  pub store_state_fails : Bool
  pub load_incident_fails : Bool
  pub write_incident_fails : Bool
  pub send_fails : Bool
  pub nackable : Bool

-- The columns that the look-back query does not select keep their zero values.
unfoldable pub scan_historical : MonitorHistorical → MonitorHistorical
scan_historical h = record h {
  tls_cert_not_before = none;
  tls_cert_issuer = none;
  tls_cert_subject = none;
  tls_cert_dn = none;
  tls_cert_fingerprint = none;
  tls_cert_is_expired = false;
  timing_conn_acquired_ms = none;
  timing_first_response_byte_ms = none;
  timing_dns_lookup_start_ms = none;
  timing_dns_lookup_done_ms = none;
  timing_tls_handshake_start_ms = none;
  timing_tls_handshake_done_ms = none;
}

unfoldable pub in_lookback : String → ℕ → ℕ → MonitorHistorical → Bool
in_lookback monitor_id since now h =
    h.monitor_id == monitor_id && leb since h.created_at && leb h.created_at now

-- The loop over `rows.Next()`; the source does not ask `rows.Err()` why the rows ended.
unfoldable pub read_rows {ℓ} : {A : Type ℓ} → Option ℕ → List A → List A
read_rows none rows = rows
read_rows (some n) [] = []
read_rows (some zero) (row ∷ rows) = []
read_rows (some (suc n)) (row ∷ rows) = row ∷ read_rows (some n) rows

unfoldable pub lookback : Env → String → ℕ → Db → Option (List MonitorHistorical)
unfolding scan_historical in_lookback read_rows
lookback env monitor_id since db =
    if env.lookback_fails
    then none
    else some (
        map scan_historical (
          read_rows env.lookback_breaks
            (keep (in_lookback monitor_id since env.now) db.historical)))

module _ (json : JsonCodec) where
  abbrev pub evaluation_of : Option MonitorIncidentState → IncidentEvaluation
  evaluation_of none = healthy_incident_evaluation
  evaluation_of (some row) = record {
    status = row.status;
    scope = row.scope;
    reason = row.reason;
    affected_regions = parse_regions_json json row.affected_regions;
    failure_reasons_breakdown = parse_failure_reasons_json json row.failure_reasons_json;
  }

  unfoldable pub load_incident_state : Env → String → Db → Option IncidentEvaluation
  load_incident_state env monitor_id db =
      if env.load_state_fails then none else some (evaluation_of (get monitor_id db.incident_state))

  unfoldable pub state_row : Env → String → IncidentEvaluation → MonitorIncidentState
  state_row env monitor_id evaluation = record {
    monitor_id = monitor_id;
    status = evaluation.status;
    scope = evaluation.scope;
    affected_regions = regions_json json evaluation;
    reason = evaluation.reason;
    failure_reasons_json = failure_reasons_json json evaluation;
    last_transition_at = env.now;
    updated_at = env.now;
  }

  -- An upsert on the monitor's id.
  unfoldable pub store_incident_state : Env → String → IncidentEvaluation → Db → Option Db
  unfolding state_row
  store_incident_state env monitor_id evaluation db =
      if env.store_state_fails
      then none
      else some (record db {
        incident_state = put monitor_id (state_row env monitor_id evaluation) db.incident_state;
      })
