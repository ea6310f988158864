-- ===== src/Uptime/Summaries.antt =====
-- uptime_aggregate_summaries.go: the summaries of the daily aggregates, and the same from raw rows.
-- Days are counted from today; a later day counts below 0.
pub mod Agree
use eyrie.Base.{
  pair_eq, sort_by, ℕ, ◌+◌, ◌-◌, ◌*◌, ◌/◌, String, Bool, not, Option, none, some, List, [], ◌∷◌,
  ◌++◌, map, leb, ◌==◌, nat_eq, string_eq, if◌then◌else◌, length, is_empty, count, text_leb, Map,
  get, put,
}
use eyrie.Base.Int.{ℤ, pos, negsuc, int_eq}
use eyrie.Monitor.{day, Monitor, is_successful_status}
use eyrie.History.{MonitorHistorical}
use eyrie.Cleanup.{utc_day_start}
use eyrie.Ingester.Tables.{MonitorHistoricalDailyAggregate, MonitorHistoricalRegionDailyAggregate}

pub record UptimeDataTlsInfo : Type 0 where
  pub version : String
  pub cipher : String
  pub not_after : String
  pub issuer : String
  pub subject : String
  pub dn : String
  pub is_expired : Bool
  pub is_https : Bool

pub record UptimeDataHistorical : Type 0 where
  pub latency_ms : ℕ
  pub monitor_age : ℕ
  pub daily_downtimes : Map ℤ ℕ
  pub tls : Option UptimeDataTlsInfo

pub record UptimeDataByRegionMonitor : Type 0 where
  pub region : String
  pub age : ℕ
  pub response_time_ms : ℕ
  pub downtimes : Map ℤ ℕ

unfoldable pub days_ago : ℕ → ℕ → ℤ
unfolding utc_day_start
days_ago now date =
    let today = utc_day_start now in
    let that_day = utc_day_start date in
    if leb that_day today
    then pos ((today - that_day) / day)
    else negsuc ((that_day - today) / day - 1)

-- The minutes of a day that its success rate leaves.
unfoldable pub downtime_minutes : ℕ → ℕ
downtime_minutes success_rate = (100 - success_rate) * 1440 / 100

-- The loop, over the summary with the sum of the latencies in the place of the average.
unfoldable pub add_aggregates :
    ℕ → List MonitorHistoricalDailyAggregate → UptimeDataHistorical → UptimeDataHistorical
unfolding days_ago downtime_minutes
add_aggregates now [] s = s
add_aggregates now (row ∷ rows) s = add_aggregates now rows (record {
  latency_ms = s.latency_ms + row.avg_latency_ms;
  monitor_age = s.monitor_age + 1;
  daily_downtimes =
      put (days_ago now row.date) (downtime_minutes row.success_rate) s.daily_downtimes;
  tls = s.tls;
})

unfoldable pub summarize_uptime_historical_aggregates :
    ℕ → List MonitorHistoricalDailyAggregate → UptimeDataHistorical
unfolding add_aggregates
summarize_uptime_historical_aggregates now rows =
    let s =
      add_aggregates now rows
        (record { latency_ms = 0; monitor_age = 0; daily_downtimes = []; tls = none }) in
    if s.monitor_age == 0 then s else record s { latency_ms = s.latency_ms / s.monitor_age }

abbrev or_new : String → Option UptimeDataByRegionMonitor → UptimeDataByRegionMonitor
or_new region none = record { region = region; age = 0; response_time_ms = 0; downtimes = [] }
or_new region (some m) = m

unfoldable pub add_region_aggregate :
    ℕ
    → MonitorHistoricalRegionDailyAggregate
    → UptimeDataByRegionMonitor
    → UptimeDataByRegionMonitor
unfolding days_ago downtime_minutes
add_region_aggregate now row m = record m {
  age = m.age + 1;
  response_time_ms = m.response_time_ms + row.avg_latency_ms;
  downtimes = put (days_ago now row.date) (downtime_minutes row.success_rate) m.downtimes;
}

unfoldable pub add_region_aggregates :
    ℕ
    → List MonitorHistoricalRegionDailyAggregate
    → Map String UptimeDataByRegionMonitor
    → Map String UptimeDataByRegionMonitor
unfolding add_region_aggregate
add_region_aggregates now [] by_region = by_region
add_region_aggregates now (row ∷ rows) by_region = add_region_aggregates now rows (
    put row.region (add_region_aggregate now row (or_new row.region (get row.region by_region)))
      by_region)

unfoldable pub average_response : UptimeDataByRegionMonitor → UptimeDataByRegionMonitor
average_response m =
    if m.age == 0 then m else record m { response_time_ms = m.response_time_ms / m.age }

unfoldable pub by_name : UptimeDataByRegionMonitor → UptimeDataByRegionMonitor → Bool
by_name a b = text_leb a.region b.region

unfoldable pub summarize_region_historical_aggregates :
    ℕ → List MonitorHistoricalRegionDailyAggregate → List UptimeDataByRegionMonitor
unfolding add_region_aggregates average_response by_name
summarize_region_historical_aggregates now rows =
    sort_by by_name (map (λ e. average_response e.1) (add_region_aggregates now rows []))

-- The monitor's own test, or the checker's verdict where there is no monitor.
unfoldable pub resolve_success_predicate : Option Monitor → ℕ → Bool → Bool
resolve_success_predicate none status_code explicit_success = explicit_success
resolve_success_predicate (some m) status_code explicit_success =
    is_successful_status m status_code explicit_success

abbrev pub or_no_rows : Option (List MonitorHistorical) → List MonitorHistorical
or_no_rows none = []
or_no_rows (some rows) = rows

-- The rows of each day, in order.  Rows come in UTC.
unfoldable pub add_to_days :
    List MonitorHistorical → Map ℕ (List MonitorHistorical) → Map ℕ (List MonitorHistorical)
unfolding utc_day_start
add_to_days [] days = days
add_to_days (h ∷ rows) days =
    let d = utc_day_start h.created_at in
    add_to_days rows (put d (or_no_rows (get d days) ++ h ∷ []) days)

unfoldable pub total_latency : List MonitorHistorical → ℕ
total_latency [] = 0
total_latency (h ∷ rows) = h.latency_ms + total_latency rows

-- One minute for each row that is not successful.
unfoldable pub failed_rows : (ℕ → Bool → Bool) → List MonitorHistorical → ℕ
failed_rows is_successful rows = count (λ h. not (is_successful h.status_code h.success)) rows

unfoldable pub add_days :
    ℕ
    → (ℕ → Bool → Bool)
    → Map ℕ (List MonitorHistorical)
    → UptimeDataByRegionMonitor
    → UptimeDataByRegionMonitor
unfolding total_latency failed_rows days_ago
add_days now is_successful [] m = m
add_days now is_successful ((date, rows) ∷ days) m =
    let added : UptimeDataByRegionMonitor = record m {
      age = m.age + 1;
      response_time_ms = m.response_time_ms + total_latency rows / length rows;
      downtimes = put (days_ago now date) (failed_rows is_successful rows) m.downtimes;
    } in
    add_days now is_successful days (if is_empty rows then m else added)

unfoldable pub summarize_region :
    ℕ → (ℕ → Bool → Bool) → String × List MonitorHistorical → UptimeDataByRegionMonitor
unfolding add_to_days add_days average_response
summarize_region now is_successful (region, rows) = average_response (
    add_days now is_successful (add_to_days rows [])
      (record { region = region; age = 0; response_time_ms = 0; downtimes = [] }))

unfoldable pub summarize_uptime_region_historical_rows :
    ℕ → Map String (List MonitorHistorical) → Option Monitor → List UptimeDataByRegionMonitor
unfolding summarize_region resolve_success_predicate by_name
summarize_uptime_region_historical_rows now region_data source =
    sort_by by_name (map (summarize_region now (resolve_success_predicate source)) region_data)
