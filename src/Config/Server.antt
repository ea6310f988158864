-- ===== src/Config/Server.antt =====
-- config_server.go: the settings of the server, and their validation.
pub mod Unique
use Prim.Native.String.{◌++◌}
use eyrie.Base.{
  pair_eq, ℕ, suc, String, ◌⊎◌, inl, inr, Bool, true, false, not, ◌||◌, Option, none, some, List,
  [], ◌∷◌, map, ◌==◌, nat_eq, string_eq, if◌then◌else◌, contains, trim_space, to_lower, itoa, Map,
  get, put,
}
use eyrie.Base.Int.{ℤ, pos, negsuc, is_positive}
use eyrie.Monitor.{RegisteredChecker, effective_name}
use eyrie.Config.{Float64, DatasetConfig}

pub record WebhookAlertingConfig : Type 0 where
  pub name : String
  pub enabled : Bool
  pub url : String
  pub hmac_secret : String
  pub custom_headers : Map String String

pub record SlackAlertingConfig : Type 0 where
  pub name : String
  pub enabled : Bool
  pub webhook_url : String

pub record DiscordAlertingConfig : Type 0 where
  pub name : String
  pub enabled : Bool
  pub webhook_url : String

pub record TeamsAlertingConfig : Type 0 where
  pub name : String
  pub enabled : Bool
  pub webhook_url : String

pub record NtfyAlertingConfig : Type 0 where
  pub name : String
  pub enabled : Bool
  pub topic_url : String
  pub access_token : String
  pub username : String
  pub password : String
  pub suppress_window_minutes : ℤ
  pub digest_interval_minutes : ℤ

pub record ListenConfig : Type 0 where
  pub host : String
  pub port : ℕ
  pub log_level : ℤ

pub record MetadataConfig : Type 0 where
  pub title : String
  pub show_last_updated : Bool
  pub frontend_design : String

pub record DatabaseConfig : Type 0 where
  pub path : String
  pub read_concurrency_limit : ℤ

pub record RedisCacheConfig : Type 0 where
  pub address : String
  pub username : String
  pub password : String
  pub db : ℕ
  pub prefix : String
  pub tls : Bool
  pub skip_tls_verify : Bool

pub record CacheConfig : Type 0 where
  pub backend : String
  pub redis : RedisCacheConfig

pub record QueueConfig : Type 0 where
  pub producer_address : String
  pub consumer_address : String

pub record TaskQueueConfig : Type 0 where
  pub processor : QueueConfig
  pub ingester : QueueConfig
  pub alerter : QueueConfig

pub record AlertingConfig : Type 0 where
  pub webhook : List WebhookAlertingConfig
  pub slack : List SlackAlertingConfig
  pub discord : List DiscordAlertingConfig
  pub teams : List TeamsAlertingConfig
  pub ntfy : List NtfyAlertingConfig

pub record SentryConfig (fl : Float64) : Type 0 where
  pub dsn : String
  pub error_sample_rate : fl.F
  pub traces_sample_rate : fl.F
  pub profiling_sample_rate : fl.F
  pub debug : Bool
  pub trace_outgoing_requests : Bool
  pub disable_metrics : Bool
  pub disable_logs : Bool

pub record ServerConfig (fl : Float64) : Type 0 where
  pub server : ListenConfig
  pub metadata : MetadataConfig
  pub registered_checkers : List RegisteredChecker
  pub database : DatabaseConfig
  pub cache : CacheConfig
  pub task_queue : TaskQueueConfig
  pub dataset : DatasetConfig fl
  pub alerting : AlertingConfig
  pub sentry : SentryConfig fl

pub data ServerConfigError : Type 0 where
  region_required api_key_required duplicate_checker duplicate_api_key : String → ServerConfigError
  read_concurrency_limit_negative redis_address_required backend_unknown : ServerConfigError
  alert_name_required : String → ServerConfigError
  duplicate_alert_name : String → String → String → ServerConfigError
  cleanup_interval_not_positive cleanup_batch_size_not_positive : ServerConfigError
  frontend_design_unknown : ServerConfigError

-- The loop over the checkers, with the names and the keys seen so far.
unfoldable pub validate_checkers :
    List String → List String → List RegisteredChecker → Option ServerConfigError
unfolding effective_name
validate_checkers seen_names seen_keys [] = none
validate_checkers seen_names seen_keys (c ∷ checkers) =
    let rest = validate_checkers (effective_name c ∷ seen_names) (c.api_key ∷ seen_keys) checkers in
    if c.region == ""
    then some (region_required (effective_name c))
    else if c.api_key == ""
    then some (api_key_required (effective_name c))
    else if contains seen_names (effective_name c)
    then some (duplicate_checker (effective_name c))
    else if contains seen_keys c.api_key
    then some (duplicate_api_key (effective_name c))
    else rest

unfoldable pub is_negative : ℤ → Bool
is_negative (pos n) = false
is_negative (negsuc n) = true

unfoldable pub validate_backend : CacheConfig → Option ServerConfigError
validate_backend cache =
    let backend = to_lower (trim_space cache.backend) in
    if backend == "" || backend == "memory"
    then none
    else if backend == "redis"
    then if cache.redis.address == "" then some redis_address_required else none
    else some backend_unknown

-- `path[idx]`
unfoldable pub alert_location : String → ℕ → String
alert_location path idx = path ++ ("[" ++ (itoa idx ++ "]"))

-- An error, or the names seen so far with the place of each.
unfoldable pub validate_alert_name :
    Map String String → String → ℕ → String → ServerConfigError ⊎ Map String String
unfolding alert_location
validate_alert_name seen path idx name =
    if trim_space name == ""
    then inl (alert_name_required (alert_location path idx))
    else elim (get (trim_space name) seen) [
      | some previous ↦
          inl (duplicate_alert_name (alert_location path idx) (trim_space name) previous)
      | none ↦ inr (put (trim_space name) (alert_location path idx) seen)
    ]

-- The loop over the alerts of one kind, from an index on.
unfoldable pub validate_alert_names :
    Map String String → String → ℕ → List String → ServerConfigError ⊎ Map String String
unfolding validate_alert_name
validate_alert_names seen path idx [] = inr seen
validate_alert_names seen path idx (name ∷ names) = elim (validate_alert_name seen path idx name) [
  | inl e ↦ inl e
  | inr seen' ↦ validate_alert_names seen' path (suc idx) names
]

-- The kinds, each with the path of its section and its names.
unfoldable pub alert_sections : AlertingConfig → List (String × List String)
alert_sections a =
    ("alerting.webhook", map (λ c. c.name) a.webhook)
    ∷ ("alerting.slack", map (λ c. c.name) a.slack)
    ∷ ("alerting.discord", map (λ c. c.name) a.discord)
    ∷ ("alerting.teams", map (λ c. c.name) a.teams)
    ∷ ("alerting.ntfy", map (λ c. c.name) a.ntfy)
    ∷ []

unfoldable pub validate_sections :
    Map String String → List (String × List String) → ServerConfigError ⊎ Map String String
unfolding validate_alert_names
validate_sections seen [] = inr seen
validate_sections seen ((path, names) ∷ sections) = elim (validate_alert_names seen path 0 names) [
  | inl e ↦ inl e
  | inr seen' ↦ validate_sections seen' sections
]

unfoldable pub validate_dataset : {fl : Float64} → DatasetConfig fl → Option ServerConfigError
validate_dataset d =
    if not (is_positive d.cleanup_interval_minutes)
    then some cleanup_interval_not_positive
    else if not (is_positive d.cleanup_batch_size)
    then some cleanup_batch_size_not_positive
    else none

unfoldable pub validate_design : String → Option ServerConfigError
validate_design frontend_design =
    let design = to_lower (trim_space frontend_design) in
    if design == "" || design == "hearth" || design == "neobrutalism"
    then none
    else some frontend_design_unknown

-- The first error of two checks.
abbrev pub first_error :
    Option ServerConfigError → Option ServerConfigError → Option ServerConfigError
first_error (some e) rest = some e
first_error none rest = rest

abbrev pub error_of {ℓ} : {A : Type ℓ} → ServerConfigError ⊎ A → Option ServerConfigError
error_of (inl e) = some e
error_of (inr a) = none

unfoldable pub validate_server_config : {fl : Float64} → ServerConfig fl → Option ServerConfigError
unfolding validate_checkers is_negative validate_backend validate_sections alert_sections
    validate_dataset validate_design
validate_server_config c = first_error (validate_checkers [] [] c.registered_checkers) (
    if is_negative c.database.read_concurrency_limit
    then some read_concurrency_limit_negative
    else first_error (validate_backend c.cache) (
        first_error (error_of (validate_sections [] (alert_sections c.alerting)))
          (first_error (validate_dataset c.dataset) (validate_design c.metadata.frontend_design))))
