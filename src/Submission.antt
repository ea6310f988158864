-- ===== src/Submission.antt =====
-- server.go and checker_tracer.go: what a checker submits for one probe.
use eyrie.Base.{ℕ, String, Bool, Option, nat_eq, string_eq, Map}

pub record TlsCertificateInfo : Type 0 where
  pub version : Option String
  pub cipher : Option String
  pub not_before : Option ℕ
  pub not_after : Option ℕ
  pub issuer : Option String
  pub subject : Option String
  pub dn : Option String
  pub fingerprint : Option String
  pub is_expired : Bool

pub record CheckerTraceTimings : Type 0 where
  pub conn_acquired_ms : ℕ
  pub first_response_byte_ms : ℕ
  pub dns_lookup_start_ms : ℕ
  pub dns_lookup_done_ms : ℕ
  pub tls_handshake_start_ms : ℕ
  pub tls_handshake_done_ms : ℕ

pub record CheckerSubmissionRequest : Type 0 where
  pub monitor_id : String
  pub probe_type : String
  pub success : Bool
  pub failure_reason : Option String
  pub latency_ms : ℕ
  pub status_code : ℕ
  pub response_headers : Map String String
  pub response_body : Option String
  pub tls_version : Option String
  pub tls_cipher : Option String
  pub tls_expiry : Option ℕ
  pub tls_cert_info : TlsCertificateInfo
  pub timestamp : ℕ
  pub timings : CheckerTraceTimings
