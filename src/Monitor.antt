-- ===== src/Monitor.antt =====
-- config_monitor.go and the part of config_server.go about registered checkers: the monitors that
-- the operator configures, with the effective values that the workers read.
-- Integers that the configuration keeps non-negative are ℕ; a pointer or a `null` value is an Option.
pub mod Names
pub mod Checker
use eyrie.Base.{
  ℕ, String, Bool, ◌||◌, Option, none, some, List, [], ◌∷◌, Map, ◌==◌, string_eq, nat_eq, ◌*◌,
  if◌then◌else◌, is_empty, contains, not,
}

abbrev pub second : ℕ
second = 1_000_000_000

abbrev pub minute : ℕ
minute = 60 * second

abbrev pub hour : ℕ
hour = 60 * minute

abbrev pub day : ℕ
day = 24 * hour

pub record MonitorHttpConfig : Type 0 where
  pub method : String
  pub skip_tls_verify : Option Bool
  pub ca_cert_path : String
  pub client_cert_path : String
  pub client_key_path : String
  pub client_key_password : String
  pub url : String
  pub headers : Option (Map String String)
  pub expected_status_codes : List ℕ
  pub timeout_seconds : Option ℕ
  pub jq_assertion : Option String

pub record MonitorTcpConfig : Type 0 where
  pub address : String
  pub use_tls : Bool
  pub skip_tls_verify : Bool
  pub send : Option String
  pub expect_contains : Option String
  pub timeout_seconds : Option ℕ

pub record MonitorIcmpConfig : Type 0 where
  pub host : String
  pub count : ℕ
  pub timeout_seconds : Option ℕ

pub record MonitorRedisConfig : Type 0 where
  pub address : String
  pub password : Option String
  pub database : ℕ
  pub use_tls : Bool
  pub skip_tls_verify : Bool
  pub timeout_seconds : Option ℕ

-- The four SQL probes have one shape of settings.
pub record MonitorDsnConfig : Type 0 where
  pub dsn : String
  pub timeout_seconds : Option ℕ

pub record MonitorGrpcConfig : Type 0 where
  pub address : String
  pub service : String
  pub use_tls : Bool
  pub skip_tls_verify : Bool
  pub timeout_seconds : Option ℕ

pub record Monitor : Type 0 where
  pub id : String
  pub name : String
  pub description : Option String
  pub interval : String
  pub type : String
  pub checker_names : List String
  pub alert_names : List String
  pub method : String
  pub skip_tls_verify : Bool
  pub url : String
  pub headers : Option (Map String String)
  pub expected_status_codes : List ℕ
  pub timeout_seconds : Option ℕ
  pub jq_assertion : Option String
  pub http : Option MonitorHttpConfig
  pub tcp : MonitorTcpConfig
  pub icmp : MonitorIcmpConfig
  pub redis : MonitorRedisConfig
  pub postgres : MonitorDsnConfig
  pub mysql : MonitorDsnConfig
  pub mssql : MonitorDsnConfig
  pub clickhouse : MonitorDsnConfig
  pub grpc : MonitorGrpcConfig

pub record Group : Type 0 where
  pub id : String
  pub name : String
  pub description : Option String
  pub monitor_ids : List String

pub record MonitorConfig : Type 0 where
  pub monitors : List Monitor
  pub groups : List Group

pub record RegisteredChecker : Type 0 where
  pub name : String
  pub region : String
  pub api_key : String

unfoldable pub effective_name : RegisteredChecker → String
effective_name c = if c.name == "" then c.region else c.name

-- The explicit type, or the first probe with an address, or HTTP.
unfoldable pub effective_type : Monitor → String
effective_type m =
    if not (m.type == "")
    then m.type
    else if not (m.postgres.dsn == "")
    then "postgres"
    else if not (m.mysql.dsn == "")
    then "mysql"
    else if not (m.mssql.dsn == "")
    then "mssql"
    else if not (m.clickhouse.dsn == "")
    then "clickhouse"
    else if not (m.grpc.address == "")
    then "grpc"
    else if not (m.redis.address == "")
    then "redis"
    else if not (m.icmp.host == "")
    then "icmp"
    else if not (m.tcp.address == "")
    then "tcp"
    else "http"

abbrev empty_http : MonitorHttpConfig
empty_http = record {
  method = "";
  skip_tls_verify = none;
  ca_cert_path = "";
  client_cert_path = "";
  client_key_path = "";
  client_key_password = "";
  url = "";
  headers = none;
  expected_status_codes = [];
  timeout_seconds = none;
  jq_assertion = none;
}

abbrev or_else {ℓ} : {A : Type ℓ} → Option A → Option A → Option A
or_else none b = b
or_else (some a) b = some a

abbrev or_default {ℓ} : {A : Type ℓ} → Option A → A → A
or_default none b = b
or_default (some a) b = a

-- The HTTP settings with the legacy top-level fields and the defaults filled in.
unfoldable pub effective_http : Monitor → MonitorHttpConfig
effective_http m =
    let cfg = or_default m.http empty_http in
    let method = if cfg.method == "" then m.method else cfg.method in
    let codes =
      if is_empty cfg.expected_status_codes
      then m.expected_status_codes
      else cfg.expected_status_codes in
    record cfg {
      method = if method == "" then "GET" else method;
      skip_tls_verify = some (or_default cfg.skip_tls_verify m.skip_tls_verify);
      url = if cfg.url == "" then m.url else cfg.url;
      headers = or_else cfg.headers m.headers;
      expected_status_codes = if is_empty codes then 200 ∷ [] else codes;
      timeout_seconds = or_else cfg.timeout_seconds m.timeout_seconds;
      jq_assertion = or_else cfg.jq_assertion m.jq_assertion;
    }

-- Seconds, or the default, in nanoseconds.
abbrev seconds_or : Option ℕ → ℕ → ℕ
seconds_or none d = d
seconds_or (some s) d = s * second

unfoldable pub effective_timeout : Monitor → ℕ → ℕ
unfolding effective_type effective_http
effective_timeout m default_seconds =
    let t = effective_type m in
    if t == "http"
    then seconds_or (effective_http m).timeout_seconds default_seconds
    else if t == "tcp"
    then seconds_or m.tcp.timeout_seconds default_seconds
    else if t == "icmp"
    then seconds_or m.icmp.timeout_seconds default_seconds
    else if t == "redis"
    then seconds_or m.redis.timeout_seconds default_seconds
    else if t == "postgres"
    then seconds_or m.postgres.timeout_seconds default_seconds
    else if t == "mysql"
    then seconds_or m.mysql.timeout_seconds default_seconds
    else if t == "mssql"
    then seconds_or m.mssql.timeout_seconds default_seconds
    else if t == "clickhouse"
    then seconds_or m.clickhouse.timeout_seconds default_seconds
    else if t == "grpc"
    then seconds_or m.grpc.timeout_seconds default_seconds
    else default_seconds

-- HTTP probes go by the status code alone, all others by what the checker says.
unfoldable pub is_successful_status : Monitor → ℕ → Bool → Bool
unfolding effective_type effective_http
is_successful_status m status_code explicit_success =
    if effective_type m == "http"
    then contains (effective_http m).expected_status_codes status_code
    else explicit_success

unfoldable pub runs_on_checker : Monitor → String → Bool
runs_on_checker m checker_name = is_empty m.checker_names || contains m.checker_names checker_name
