-- ===== src/Examples/Serving.antt =====
-- Runs of the server: its settings, a submission, its alerters and its cache.
use eyrie.Base.{
  if◌then◌else◌, pair_eq, ℕ, ◌*◌, ◌≤◌, String, ◌≡◌, refl, inr, true, false, none, some, List, [],
  ◌∷◌, ◌++◌, arith, ◌==◌, nat_eq, string_eq, count, contains, map, trim_space, to_lower, get, put,
  itoa,
}
use mathlib.Core.List.Perm
use eyrie.Base.Int.{pos, negsuc, is_positive}
use eyrie.Monitor.{RegisteredChecker, effective_name, minute}
use eyrie.Config.{exact}
use eyrie.Config.Server.{
  ServerConfig, QueueConfig, WebhookAlertingConfig, NtfyAlertingConfig, alert_sections,
  validate_server_config, duplicate_alert_name, cleanup_batch_size_not_positive,
}
use eyrie.Config.Server.Unique.{all_names, validate_server_config_unique}
use eyrie.Server.{SubmitEnv, Queues, checker_submission, queued_submission, request_id, ok}
use eyrie.Server.Accepted.{checker_submission_accepted}
use eyrie.Ingester.Worker.{region_of}
use eyrie.Alert.{AlertMessage}
use eyrie.Alerter.Build.{build_alerters}
use eyrie.Alerter.Build.Unique.{build_alerters_unique}
use eyrie.Alerter.Presentation.{Texts, build_deduplication_key}
use eyrie.Alerter.Presentation.Deduplication.{build_deduplication_key_same}
use eyrie.Uptime.Cache.{TtlCache, new_ttl_cache, cache_set, get_or_load}
use eyrie.Uptime.Cache.Fresh.{loaded_value_served}
use eyrie.Ingester.Tables.{Tables}
use eyrie.Server.Uptime.{ReadEnv, DailyCache}
use eyrie.Server.Page.{build_uptime_data_response}
use eyrie.Server.Page.Complete.{some_of, shows, stands_alone, build_uptime_data_response_complete}
use eyrie.Monitor.{MonitorConfig}
use eyrie.Examples.{settings, submission, shop, probe}

abbrev frankfurt : RegisteredChecker
frankfurt = record { name = "frankfurt"; region = "eu"; api_key = "k-eu" }

abbrev virginia : RegisteredChecker
virginia = record { name = ""; region = "us"; api_key = "k-us" }

abbrev queue : QueueConfig
queue = record { producer_address = "mem://tasks"; consumer_address = "mem://tasks" }

abbrev ops_hook : WebhookAlertingConfig
ops_hook = record {
  name = "ops ";
  enabled = true;
  url = "https://ops.example.com";
  hmac_secret = "";
  custom_headers = [];
}

abbrev pager : NtfyAlertingConfig
pager = record {
  name = "pager";
  enabled = true;
  topic_url = "https://ntfy.example.com/eyrie";
  access_token = "";
  username = "";
  password = "";
  suppress_window_minutes = pos 0;
  digest_interval_minutes = pos 60;
}

abbrev config : ServerConfig exact
config = record {
  server = record { host = "0.0.0.0"; port = 8600; log_level = pos 0 };
  metadata = record { title = "Status"; show_last_updated = true; frontend_design = "Hearth" };
  registered_checkers = frankfurt ∷ virginia ∷ [];
  database = record { path = "eyrie.db"; read_concurrency_limit = pos 0 };
  cache = record {
    backend = "memory";
    redis = record {
      address = "";
      username = "";
      password = "";
      db = 0;
      prefix = "eyrie:uptime-cache";
      tls = false;
      skip_tls_verify = false;
    };
  };
  task_queue = record { processor = queue; ingester = queue; alerter = queue };
  dataset = settings;
  alerting = record {
    webhook = ops_hook ∷ [];
    slack = [];
    discord = [];
    teams = [];
    ntfy = pager ∷ [];
  };
  sentry = record {
    dsn = "";
    error_sample_rate = record { num = 1; den = 1 };
    traces_sample_rate = record { num = 1; den = 1 };
    profiling_sample_rate = record { num = 1; den = 10 };
    debug = false;
    trace_outgoing_requests = false;
    disable_metrics = false;
    disable_logs = false;
  };
}

config_valid : validate_server_config config ≡ none
unfolding validate_server_config to_lower trim_space get put
config_valid = refl

-- A negative batch size is refused.
negative_batch :
    validate_server_config
      (record config { dataset = record settings { cleanup_batch_size = negsuc 0 } })
    ≡ some cleanup_batch_size_not_positive
unfolding validate_server_config to_lower trim_space get put
negative_batch = refl

-- Spaces around a name do not make it another name, and the kinds of alerts share their names.
ops_twice :
    validate_server_config (record config {
      alerting = record config.alerting { ntfy = record pager { name = "ops" } ∷ [] };
    })
    ≡ some (duplicate_alert_name "alerting.ntfy[0]" "ops" "alerting.webhook[0]")
unfolding validate_server_config to_lower trim_space get put itoa
ops_twice = refl

validate_server_config_unique_example :
    (count (λ r. effective_name r == "us") config.registered_checkers ≤ 1)
    × (count (λ r. r.api_key == "k-us") config.registered_checkers ≤ 1)
    × (count (λ a. trim_space a == "ops") (all_names (alert_sections config.alerting)) ≤ 1)
    × (is_positive config.dataset.cleanup_interval_minutes ≡ true)
    × (is_positive config.dataset.cleanup_batch_size ≡ true)
validate_server_config_unique_example =
    validate_server_config_unique config "us" "k-us" "ops" config_valid

build_alerters_unique_example : count (λ a. a.name == "ops") (build_alerters config) ≤ 1
build_alerters_unique_example = build_alerters_unique config "ops" config_valid

ops_built : count (λ a. a.name == "ops") (build_alerters config) ≡ 1
unfolding build_alerters trim_space
ops_built = refl

abbrev at_noon : SubmitEnv
at_noon = record {
  now = minute;
  processor_received_at = "12:00:00";
  ingester_received_at = "12:00:01";
  marshal_fails = false;
  processor_send_fails = false;
  ingester_send_fails = false;
}

abbrev empty_queues : Queues
empty_queues = record { processor = []; ingester = [] }

checker_submission_accepted_example :
    (checker_submission at_noon config "k-us" (some submission) empty_queues ≡ (
      record {
        processor =
            [] ++ queued_submission "12:00:00" (request_id at_noon submission) submission "us" ∷ [];
        ingester =
            [] ++ queued_submission "12:00:01" (request_id at_noon submission) submission "us" ∷ [];
      },
      ok tt,
    ))
    × (region_of (
          some
            (queued_submission "12:00:01" (request_id at_noon submission) submission "us").metadata)
        ≡ "us")
checker_submission_accepted_example =
    checker_submission_accepted at_noon config (frankfurt ∷ []) [] virginia submission empty_queues
      config_valid refl refl refl refl

abbrev texts : Texts
texts = record { sha256_hex = λ t. t; date_time = λ t. itoa t; rfc3339 = λ t. itoa t }

-- Without an incident, and with its regions in the given order.
abbrev outage_in : List String → AlertMessage
outage_in regions = record {
  monitor_id = "shop";
  incident_id = "";
  name = "Shop";
  status = "down";
  scope = "global";
  reason = "";
  occurred_at = minute;
  affected_regions = regions;
  alert_names = [];
}

build_deduplication_key_same_example :
    build_deduplication_key texts (outage_in ("us" ∷ "eu" ∷ []))
    ≡ build_deduplication_key texts (outage_in ("eu" ∷ "us" ∷ []))
build_deduplication_key_same_example =
    build_deduplication_key_same texts (outage_in ("us" ∷ "eu" ∷ [])) (outage_in ("eu" ∷ "us" ∷ []))
      refl (inr (refl, refl, refl, Perm.swap "eu" "us" []))

abbrev cache : TtlCache ℕ
cache = new_ttl_cache (5 * minute)

loaded_value_served_example :
    get_or_load
      (3 * minute, 3 * minute)
      (3 * minute, 3 * minute)
      (3 * minute)
      "shop:1"
      none
      (cache_set (2 * minute) "blog:1" 2 (cache_set minute "shop:1" 1 cache))
    ≡ (cache_set (2 * minute) "blog:1" 2 (cache_set minute "shop:1" 1 cache), some 1)
unfolding new_ttl_cache
loaded_value_served_example =
    loaded_value_served minute (2 * minute) (3 * minute, 3 * minute) (3 * minute, 3 * minute)
      (3 * minute) "shop:1" "blog:1" 1 2 none cache refl (omega arith) (omega arith)

-- The first fetches find nothing but raw rows, since nothing is aggregated.
abbrev reading : String → ReadEnv
reading monitor_id = record {
  now = minute;
  calendar = record { format_date = λ d. itoa d };
  rfc3339 = λ t. itoa t;
  first_look = (minute, minute);
  second_look = (minute, minute);
  stored_at = minute;
  before_fails = false;
  today_fails = false;
  raw_fails = false;
  raw_breaks = none;
  tls_fails = true;
}

-- A group with a monitor that is not configured any more, and a monitor in no group.
abbrev grouped : MonitorConfig
grouped = record {
  monitors = shop ∷ record shop { id = "blog" } ∷ [];
  groups =
      record { id = "web"; name = "Web"; description = none; monitor_ids = "gone" ∷ "shop" ∷ [] }
      ∷ [];
}

abbrev one_row : Tables
one_row = record { historical = probe "eu" 500 60 ∷ []; daily = []; region_daily = [] }

abbrev fresh_cache : DailyCache
fresh_cache = new_ttl_cache (5 * minute)

build_uptime_data_response_complete_example :
    let shown =
      (build_uptime_data_response reading minute grouped one_row fresh_cache).1.monitors in
    (some_of (shows "blog") shown ≡ contains (map (λ m. m.id) grouped.monitors) "blog")
    × (count (stands_alone "blog") shown ≡ (
        if some_of (λ g. contains g.monitor_ids "blog") grouped.groups
        then 0
        else count (λ m. m.id == "blog") grouped.monitors))
build_uptime_data_response_complete_example =
    build_uptime_data_response_complete reading minute grouped one_row fresh_cache "blog"
