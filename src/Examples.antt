-- ===== src/Examples.antt =====
-- Concrete data that the examples share: a monitor, its submissions, settings, tables and calls.
use eyrie.Base.{
  insert_sorted_comm, String-discrete, ℕ, zero, suc, ◌+◌, ◌-◌, ◌*◌, ◌/◌, ◌%◌, ◌≤◌, ◌<◌, String, ◌≡◌,
  refl, sym, ap, ap₂, ◌∙◌, ◌≢◌, ◌↔◌, ◌⊎◌, inl, inr, Bool, true, false, not, ◌&&◌, ◌||◌, Option,
  none, some, List, [], ◌∷◌, ◌++◌, map, Perm, arith, ltb, leb, Equality, ◌==◌, nat_eq, string_eq,
  str_eq_iff, nat_beq_iff, if◌then◌else◌, ltb→lt, leb→le, Bool-cases, Option-cases, length,
  is_empty, length-append, keep, length-keep, find_first, count, count-append, All, All-append,
  contains, concat, join, contains_text, trim_space, to_lower, itoa, text_leb, text_leb_total,
  text_leb_antisymm, text_leb_trans, sort, insert_sorted, sort-Perm, sort-sort, Map, get, put,
  get-put, get-put_self, equality_refl, UniqueKeys, put-UniqueKeys, length-put,
}
use eyrie.Monitor.{
  Monitor, MonitorTcpConfig, MonitorIcmpConfig, MonitorRedisConfig, MonitorDsnConfig,
  MonitorGrpcConfig, minute,
}
use eyrie.History.{MonitorHistorical, MonitorIncident}
use eyrie.Base.Int.{pos}
use eyrie.Config.{DatasetConfig, exact}
use eyrie.Incident.Stored.{JsonRoundTrip}
use eyrie.Incident.{JsonCodec, Breakdown, IncidentEvaluation, down, local, global, degraded}
use eyrie.Incident.Stored.{JsonRoundTrip}
use eyrie.Processor.Buckets.{SubmissionBucket, Buckets}
use eyrie.Processor.Db.{Db, Env}
use eyrie.Processor.Handle.{World}
use eyrie.Submission.{CheckerSubmissionRequest}
mod Alerts
mod Configuration
mod Verdicts
mod Messages
mod Ingestion
mod Retention
mod Serving

abbrev pub no_dsn : MonitorDsnConfig
no_dsn = record { dsn = ""; timeout_seconds = none }

-- An HTTP monitor with the default expectations.
abbrev pub shop : Monitor
shop = record {
  id = "shop";
  name = "Shop";
  description = none;
  interval = "1m";
  type = "http";
  checker_names = [];
  alert_names = "ops" ∷ [];
  method = "";
  skip_tls_verify = false;
  url = "https://shop.example";
  headers = none;
  expected_status_codes = [];
  timeout_seconds = none;
  jq_assertion = none;
  http = none;
  tcp = record {
    address = "";
    use_tls = false;
    skip_tls_verify = false;
    send = none;
    expect_contains = none;
    timeout_seconds = none;
  };
  icmp = record { host = ""; count = 0; timeout_seconds = none };
  redis = record {
    address = "";
    password = none;
    database = 0;
    use_tls = false;
    skip_tls_verify = false;
    timeout_seconds = none;
  };
  postgres = no_dsn;
  mysql = no_dsn;
  mssql = no_dsn;
  clickhouse = no_dsn;
  grpc = record {
    address = "";
    service = "";
    use_tls = false;
    skip_tls_verify = false;
    timeout_seconds = none;
  };
}

abbrev pub settings : DatasetConfig exact
settings = record {
  retention_days = 30;
  cleanup_interval_minutes = pos 60;
  cleanup_batch_size = pos 1000;
  processing_lookback_minutes = 10;
  per_region_failure_threshold_percent = record { num = 50; den = 1 };
  failure_threshold_percent = record { num = 60; den = 1 };
  degraded_threshold_minutes = 0;
  degraded_threshold_consecutive_buckets = 2;
  failure_threshold_minutes = 5;
}

abbrev pub probe : String → ℕ → ℕ → MonitorHistorical
probe region code at = record {
  monitor_id = "shop";
  region = region;
  probe_type = "http";
  success = code == 200;
  failure_reason = if code == 200 then none else some "i/o timeout";
  status_code = code;
  latency_ms = 12;
  response_body = none;
  tls_version = none;
  tls_cipher = none;
  tls_expiry = none;
  tls_cert_not_before = none;
  tls_cert_issuer = none;
  tls_cert_subject = none;
  tls_cert_dn = none;
  tls_cert_fingerprint = none;
  tls_cert_is_expired = false;
  timing_conn_acquired_ms = none;
  timing_first_response_byte_ms = none;
  timing_dns_lookup_start_ms = none;
  timing_dns_lookup_done_ms = none;
  timing_tls_handshake_start_ms = none;
  timing_tls_handshake_done_ms = none;
  created_at = at;
}

-- Two reports from `eu`, one of them a failure, and one success from `us`.
abbrev pub reports : List MonitorHistorical
reports = probe "eu" 500 60 ∷ probe "us" 200 61 ∷ probe "eu" 200 62 ∷ []

-- Two regions, of which `eu` fails.
abbrev pub half_failing : SubmissionBucket
half_failing = record {
  timestamp_minute = 0;
  regions = ("eu", false) ∷ ("us", true) ∷ [];
  failure_count = 1;
  total_count = 2;
}

abbrev pub two_minutes : Buckets
two_minutes = (0, half_failing) ∷ (minute, half_failing) ∷ []

abbrev pub outage : IncidentEvaluation
outage = record {
  status = down;
  scope = local;
  reason = "Probe failures detected in all reporting regions (eu)";
  affected_regions = "eu" ∷ [];
  failure_reasons_breakdown = ("timeout", "eu" ∷ []) ∷ [];
}

-- `encoding/json` on the two values of `outage`.
abbrev pub outage_json : JsonCodec
outage_json = record {
  marshal_texts = λ l. some "[\"eu\"]";
  unmarshal_texts = λ s. if s == "[\"eu\"]" then some ("eu" ∷ []) else none;
  marshal_breakdown = λ m. some "{\"timeout\":[\"eu\"]}";
  unmarshal_breakdown =
      λ s. if s == "{\"timeout\":[\"eu\"]}" then some (("timeout", "eu" ∷ []) ∷ []) else none;
}

abbrev pub calm : Env
calm = record {
  now = 10 * minute;
  incident_uuid = "i-1";
  event_uuid = "e-1";
  lookback_fails = false;
  lookback_breaks = none;
  load_state_fails = false;
  store_state_fails = false;
  load_incident_fails = false;
  write_incident_fails = false;
  send_fails = false;
  nackable = true;
}

abbrev pub empty_db : Db
empty_db = record { historical = []; incident_state = []; incidents = []; events = [] }

abbrev pub reported_db : Db
reported_db = record empty_db { historical = probe "eu" 500 (9 * minute) ∷ [] }

abbrev pub quiet : World
quiet = record { db = reported_db; alerts = [] }

abbrev pub submission : CheckerSubmissionRequest
submission = record {
  monitor_id = "shop";
  probe_type = "http";
  success = false;
  failure_reason = some "i/o timeout";
  latency_ms = 12;
  status_code = 500;
  response_headers = [];
  response_body = none;
  tls_version = none;
  tls_cipher = none;
  tls_expiry = none;
  tls_cert_info = record {
    version = none;
    cipher = none;
    not_before = none;
    not_after = none;
    issuer = none;
    subject = none;
    dn = none;
    fingerprint = none;
    is_expired = false;
  };
  timestamp = 9 * minute;
  timings = record {
    conn_acquired_ms = 0;
    first_response_byte_ms = 0;
    dns_lookup_start_ms = 0;
    dns_lookup_done_ms = 0;
    tls_handshake_start_ms = 0;
    tls_handshake_done_ms = 0;
  };
}

pub outage-UniqueKeys : UniqueKeys outage.failure_reasons_breakdown
unfolding get
outage-UniqueKeys = (refl, tt)

pub outage-JsonRoundTrip : JsonRoundTrip outage_json outage
unfolding sort trim_space
outage-JsonRoundTrip = record {
  regions_text = "[\"eu\"]";
  regions_marshal = refl;
  regions_back = inr (record { trimmed = refl; present = refl }, refl);
  reasons_back =
      λ _. ("{\"timeout\":[\"eu\"]}", record { trimmed = refl; present = refl }, refl, refl);
}
