-- ===== src/Ingester/Tables.antt =====
-- worker_ingester.go: what the ingester writes into `monitor_historical`, and the daily aggregates of
-- monitor_historical.go.  The database is a parameter where it computes: how it keeps a time, which
-- date it reads from one, and how it rounds a division.
use eyrie.Base.{
  pair_eq, ℕ, String, Bool, not, ◌&&◌, ◌||◌, Option, none, some, List, [], ◌∷◌, ltb, leb, ◌==◌,
  nat_eq, string_eq, if◌then◌else◌, find_first, Map,
}
use eyrie.Monitor.{Monitor, is_successful_status}
use eyrie.Submission.{CheckerSubmissionRequest}
use eyrie.History.{MonitorHistorical}

pub record Sql : Type 0 where
  -- what a TIMESTAMPTZ column keeps of a time
  pub column_time : ℕ → ℕ
  -- `DATE(created_at)`, as the first instant of the day in UTC
  pub date_of : ℕ → ℕ
  -- a sum divided by a count, cast to an integer type
  pub quotient : ℕ → ℕ → ℕ

-- The table has no column for the region, which stays empty.
pub record MonitorHistoricalDailyAggregate : Type 0 where
  pub monitor_id : String
  pub region : String
  pub date : ℕ
  pub avg_latency_ms : ℕ
  pub min_latency_ms : ℕ
  pub max_latency_ms : ℕ
  pub success_rate : ℕ

pub record MonitorHistoricalRegionDailyAggregate : Type 0 where
  pub monitor_id : String
  pub region : String
  pub date : ℕ
  pub avg_latency_ms : ℕ
  pub min_latency_ms : ℕ
  pub max_latency_ms : ℕ
  pub success_rate : ℕ

-- The aggregates under their primary keys.
pub record Tables : Type 0 where
  pub historical : List MonitorHistorical
  pub daily : Map (String × ℕ) MonitorHistoricalDailyAggregate
  pub region_daily : Map ((String × String) × ℕ) MonitorHistoricalRegionDailyAggregate

unfoldable pub find_monitor_config : List Monitor → String → Option Monitor
find_monitor_config monitors monitor_id = find_first (λ m. m.id == monitor_id) monitors

-- The verdict for a submission of a monitor that is configured, or is not any more.
unfoldable pub success_of : Option Monitor → String → CheckerSubmissionRequest → Bool
success_of (some m) probe_type submission =
    is_successful_status m submission.status_code submission.success
success_of none probe_type submission =
    if not submission.success && (probe_type == "http" || probe_type == "")
    then leb 200 submission.status_code && ltb submission.status_code 400
    else submission.success

unfoldable pub determine_historical_success :
    List Monitor → String → String → CheckerSubmissionRequest → Bool
unfolding success_of find_monitor_config
determine_historical_success monitors monitor_id probe_type submission =
    success_of (find_monitor_config monitors monitor_id) probe_type submission

-- The row that the INSERT writes.
unfoldable pub historical_row :
    Sql → String → String → Bool → CheckerSubmissionRequest → MonitorHistorical
historical_row sql region probe_type success submission = record {
  monitor_id = submission.monitor_id;
  region = region;
  probe_type = probe_type;
  success = success;
  failure_reason = submission.failure_reason;
  status_code = submission.status_code;
  latency_ms = submission.latency_ms;
  response_body = submission.response_body;
  tls_version = submission.tls_version;
  tls_cipher = submission.tls_cipher;
  tls_expiry = submission.tls_expiry;
  tls_cert_not_before = submission.tls_cert_info.not_before;
  tls_cert_issuer = submission.tls_cert_info.issuer;
  tls_cert_subject = submission.tls_cert_info.subject;
  tls_cert_dn = submission.tls_cert_info.dn;
  tls_cert_fingerprint = submission.tls_cert_info.fingerprint;
  tls_cert_is_expired = submission.tls_cert_info.is_expired;
  timing_conn_acquired_ms = some submission.timings.conn_acquired_ms;
  timing_first_response_byte_ms = some submission.timings.first_response_byte_ms;
  timing_dns_lookup_start_ms = some submission.timings.dns_lookup_start_ms;
  timing_dns_lookup_done_ms = some submission.timings.dns_lookup_done_ms;
  timing_tls_handshake_start_ms = some submission.timings.tls_handshake_start_ms;
  timing_tls_handshake_done_ms = some submission.timings.tls_handshake_done_ms;
  created_at = sql.column_time submission.timestamp;
}

-- The primary key of `monitor_historical`.
unfoldable pub same_key : MonitorHistorical → MonitorHistorical → Bool
same_key a b = a.monitor_id == b.monitor_id && a.region == b.region && a.created_at == b.created_at

-- `ON CONFLICT DO NOTHING`
unfoldable pub insert_row : MonitorHistorical → List MonitorHistorical → List MonitorHistorical
unfolding same_key
insert_row row [] = row ∷ []
insert_row row (h ∷ rest) =
    let inserted = insert_row row rest in if same_key h row then h ∷ rest else h ∷ inserted

-- The row of a submission, with the defaults that the ingester fills in.
unfoldable pub ingested_row :
    Sql → List Monitor → CheckerSubmissionRequest → String → MonitorHistorical
unfolding historical_row determine_historical_success
ingested_row sql monitors submission region =
    let probe_type = if submission.probe_type == "" then "http" else submission.probe_type in
    historical_row sql region probe_type
      (determine_historical_success monitors submission.monitor_id probe_type submission) submission
