-- ===== src/History.antt =====
-- monitor_historical.go: the rows of the database.
-- A time is the number of nanoseconds since Go's zero time, so `IsZero` is `== 0`.
use eyrie.Base.{ℕ, String, Bool, Option, nat_eq, string_eq}

pub record MonitorHistorical : Type 0 where
  pub monitor_id : String
  pub region : String
  pub probe_type : String
  pub success : Bool
  pub failure_reason : Option String
  pub status_code : ℕ
  pub latency_ms : ℕ
  pub response_body : Option String
  pub tls_version : Option String
  pub tls_cipher : Option String
  pub tls_expiry : Option ℕ
  pub tls_cert_not_before : Option ℕ
  pub tls_cert_issuer : Option String
  pub tls_cert_subject : Option String
  pub tls_cert_dn : Option String
  pub tls_cert_fingerprint : Option String
  pub tls_cert_is_expired : Bool
  pub timing_conn_acquired_ms : Option ℕ
  pub timing_first_response_byte_ms : Option ℕ
  pub timing_dns_lookup_start_ms : Option ℕ
  pub timing_dns_lookup_done_ms : Option ℕ
  pub timing_tls_handshake_start_ms : Option ℕ
  pub timing_tls_handshake_done_ms : Option ℕ
  pub created_at : ℕ

pub record MonitorIncidentState : Type 0 where
  pub monitor_id : String
  pub status : String
  pub scope : String
  pub affected_regions : String
  pub reason : String
  pub failure_reasons_json : String
  pub last_transition_at : ℕ
  pub updated_at : ℕ

-- The row also has the column `failure_reasons_json`, which no query reads back into the struct.
pub record MonitorIncident : Type 0 where
  pub id : String
  pub monitor_id : String
  pub source : String
  pub lifecycle_state : String
  pub auto_impact : String
  pub impact : String
  pub auto_title : String
  pub auto_body : String
  pub title : String
  pub body : String
  pub status : String
  pub scope : String
  pub affected_regions : String
  pub failure_reasons_json : String
  pub started_at : ℕ
  pub resolved_at : Option ℕ
  pub created_at : ℕ
  pub updated_at : ℕ

pub record MonitorIncidentEvent : Type 0 where
  pub id : String
  pub incident_id : String
  pub monitor_id : String
  pub event_type : String
  pub source : String
  pub lifecycle_state : String
  pub impact : String
  pub title : String
  pub body : String
  pub status : String
  pub scope : String
  pub affected_regions : String
  pub created_at : ℕ
