-- ===== src/Server/Uptime.antt =====
-- server.go: what the status page reads for one monitor, from the aggregates or from the raw rows.
-- A query that fails is `none`; the cache is the one in memory.
pub mod Regions
use Prim.Native.String.{◌++◌ as join_text}
use eyrie.Base.{
  pair_eq, sort_by, ℕ, ◌+◌, ◌-◌, ◌/◌, String, Bool, true, false, ◌&&◌, ◌||◌, Option, none, some,
  List, [], ◌∷◌, ◌++◌, map, ltb, leb, ◌==◌, nat_eq, string_eq, if◌then◌else◌, length, is_empty,
  keep, Map, put,
}
use eyrie.Base.Int.{ℤ, pos, negsuc, int_eq}
use eyrie.Monitor.{Monitor, day, is_successful_status}
use eyrie.History.{MonitorHistorical}
use eyrie.Processor.Db.{read_rows}
use eyrie.Cleanup.{utc_day_start}
use eyrie.Ingester.Queue.{Calendar}
use eyrie.Ingester.Tables.{Tables, MonitorHistoricalDailyAggregate, find_monitor_config}
use eyrie.Ingester.Aggregate.{DailyTable}
use eyrie.Uptime.Cache.{TtlCache, get_or_load}
use eyrie.Uptime.Summaries.{
  UptimeDataHistorical, UptimeDataTlsInfo, summarize_uptime_historical_aggregates, add_to_days,
  total_latency, failed_rows,
}

-- The clock, the texts of dates, the clocks of the cache, and the queries that fail.
pub record ReadEnv : Type 0 where
  pub now : ℕ
  pub calendar : Calendar
  pub rfc3339 : ℕ → String
  pub first_look : ℕ × ℕ
  pub second_look : ℕ × ℕ
  pub stored_at : ℕ
  pub before_fails : Bool
  pub today_fails : Bool
  pub raw_fails : Bool
  -- The rows after which reading the raw rows of a monitor breaks off, if it does; only the reading by
  -- region asks `rows.Err()`, and then it is `raw_fails`.
  pub raw_breaks : Option ℕ
  pub tls_fails : Bool

unfoldable pub aggregate_cache_key : Calendar → String → ℕ → String
unfolding utc_day_start
aggregate_cache_key calendar monitor_id d =
    join_text monitor_id (join_text ":" (calendar.format_date (utc_day_start d)))

abbrev by_date : MonitorHistoricalDailyAggregate → MonitorHistoricalDailyAggregate → Bool
by_date a b = leb a.date b.date

abbrev pub unless {ℓ} : {A : Type ℓ} → Bool → A → Option A
unless true a = none
unless false a = some a

unfoldable pub load_historical_daily_aggregates_before_date :
    Bool → String → ℕ → DailyTable → Option (List MonitorHistoricalDailyAggregate)
unfolding utc_day_start
load_historical_daily_aggregates_before_date fails monitor_id before_date table = unless fails (
    sort_by by_date (
      keep (λ a. a.monitor_id == monitor_id && ltb a.date (utc_day_start before_date))
        (map (λ e. e.1) table)))

unfoldable pub load_historical_daily_aggregates_for_date :
    Bool → String → ℕ → DailyTable → Option (List MonitorHistoricalDailyAggregate)
unfolding utc_day_start
load_historical_daily_aggregates_for_date fails monitor_id d table = unless fails (
    sort_by by_date
      (keep (λ a. a.monitor_id == monitor_id && a.date == utc_day_start d) (map (λ e. e.1) table)))

abbrev pub DailyCache : Type 0
DailyCache = TtlCache (List MonitorHistoricalDailyAggregate)

-- The days before today come from the cache.
unfoldable pub historical_daily_aggregates_before_date :
    ReadEnv
    → String
    → ℕ
    → DailyTable
    → DailyCache
    → DailyCache × Option (List MonitorHistoricalDailyAggregate)
unfolding load_historical_daily_aggregates_before_date aggregate_cache_key
historical_daily_aggregates_before_date env monitor_id before_date table cache =
    get_or_load env.first_look env.second_look env.stored_at
      (aggregate_cache_key env.calendar monitor_id before_date)
      (load_historical_daily_aggregates_before_date env.before_fails monitor_id before_date table)
      cache

-- The summary of both parts, unless there is nothing.
unfoldable pub summarize_days :
    ℕ
    → Option (List MonitorHistoricalDailyAggregate)
    → Option (List MonitorHistoricalDailyAggregate)
    → Option UptimeDataHistorical
summarize_days now none todays = none
summarize_days now (some before) none = none
summarize_days now (some before) (some todays) =
    if is_empty (before ++ todays)
    then none
    else some (summarize_uptime_historical_aggregates now (before ++ todays))

unfoldable pub fetch_from_aggregate_monitor_historical :
    ReadEnv → String → Tables → DailyCache → DailyCache × Option UptimeDataHistorical
unfolding historical_daily_aggregates_before_date load_historical_daily_aggregates_for_date
    summarize_days utc_day_start
fetch_from_aggregate_monitor_historical env monitor_id db cache =
    let today = utc_day_start env.now in
    let (cache', before) =
      historical_daily_aggregates_before_date env monitor_id today db.daily cache in
    (
      cache',
      summarize_days env.now before
          (load_historical_daily_aggregates_for_date env.today_fails monitor_id today db.daily),
    )

-- The latest row of a monitor.
unfoldable pub latest_row :
    Option MonitorHistorical → List MonitorHistorical → Option MonitorHistorical
latest_row best [] = best
latest_row none (h ∷ rows) = latest_row (some h) rows
latest_row (some best) (h ∷ rows) =
    latest_row (if ltb best.created_at h.created_at then some h else some best) rows

abbrev or_empty_text : Option String → String
or_empty_text none = ""
or_empty_text (some t) = t

abbrev is_present {ℓ} : {A : Type ℓ} → Option A → Bool
is_present none = false
is_present (some _) = true

-- A `null.String` is zero when it is not valid.
unfoldable pub tls_info : (ℕ → String) → Option MonitorHistorical → Option UptimeDataTlsInfo
tls_info rfc3339 none = none
tls_info rfc3339 (some h) =
    if is_present h.tls_version || is_present h.tls_cert_issuer || is_present h.tls_cert_subject
    then some (record {
      version = or_empty_text h.tls_version;
      cipher = or_empty_text h.tls_cipher;
      not_after = elim h.tls_expiry [ none ↦ "" | some t ↦ rfc3339 t ];
      issuer = or_empty_text h.tls_cert_issuer;
      subject = or_empty_text h.tls_cert_subject;
      dn = or_empty_text h.tls_cert_dn;
      is_expired = h.tls_cert_is_expired;
      is_https = is_present h.tls_version;
    })
    else none

unfoldable pub fetch_latest_tls_info :
    ReadEnv → String → List MonitorHistorical → Option UptimeDataTlsInfo
unfolding latest_row tls_info
fetch_latest_tls_info env monitor_id rows =
    if env.tls_fails
    then none
    else tls_info env.rfc3339 (latest_row none (keep (λ h. h.monitor_id == monitor_id) rows))

-- Whole days from a date to now, towards zero.
unfoldable pub days_since : ℕ → ℕ → ℤ
days_since now date =
    if leb date now
    then pos ((now - date) / day)
    else if (date - now) / day == 0
    then pos 0
    else negsuc ((date - now) / day - 1)

unfoldable pub add_raw_days :
    ℕ → Monitor → Map ℕ (List MonitorHistorical) → UptimeDataHistorical → UptimeDataHistorical
unfolding total_latency failed_rows days_since
add_raw_days now m [] u = u
add_raw_days now m ((date, rows) ∷ days) u = add_raw_days now m days (record u {
  latency_ms = u.latency_ms + total_latency rows / length rows;
  daily_downtimes =
      put (days_since now date) (failed_rows (is_successful_status m) rows) u.daily_downtimes;
})

-- From the rows of the monitor on.
unfoldable pub summarize_raw :
    ReadEnv
    → String
    → List MonitorHistorical
    → Option Monitor
    → List MonitorHistorical
    → Option UptimeDataHistorical
unfolding add_to_days add_raw_days fetch_latest_tls_info
summarize_raw env monitor_id all found [] = none
summarize_raw env monitor_id all none (h ∷ rows) = none
summarize_raw env monitor_id all (some m) (h ∷ rows) =
    let days = add_to_days (h ∷ rows) [] in
    let u =
      add_raw_days env.now m days
        (record { latency_ms = 0; monitor_age = length days; daily_downtimes = []; tls = none }) in
    some (record u {
      latency_ms = u.latency_ms / length days;
      tls = fetch_latest_tls_info env monitor_id all;
    })

unfoldable pub or_raw :
    ReadEnv
    → List Monitor
    → String
    → Tables
    → Option UptimeDataHistorical
    → Option UptimeDataHistorical
unfolding summarize_raw read_rows
or_raw env monitors monitor_id db (some result) = some result
or_raw env monitors monitor_id db none =
    if env.raw_fails
    then none
    else summarize_raw env monitor_id db.historical (find_monitor_config monitors monitor_id)
        (read_rows env.raw_breaks (keep (λ h. h.monitor_id == monitor_id) db.historical))

-- The aggregates first, and the raw rows where they give nothing.
unfoldable pub fetch_from_raw_monitor_historical :
    ReadEnv → List Monitor → String → Tables → DailyCache → DailyCache × Option UptimeDataHistorical
unfolding fetch_from_aggregate_monitor_historical or_raw
fetch_from_raw_monitor_historical env monitors monitor_id db cache =
    let (cache', result) = fetch_from_aggregate_monitor_historical env monitor_id db cache in
    (cache', or_raw env monitors monitor_id db result)
