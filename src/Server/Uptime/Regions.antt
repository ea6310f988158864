-- ===== src/Server/Uptime/Regions.antt =====
-- server.go: what the status page reads for one monitor by region.

use eyrie.Base.{
  pair_eq, sort_by, ℕ, String, Bool, ◌&&◌, Option, none, some, List, [], ◌∷◌, ◌++◌, map, ltb, leb,
  ◌==◌, nat_eq, string_eq, if◌then◌else◌, is_empty, keep, Map, get, put,
}
use eyrie.Base.Int.{int_eq}
use eyrie.Monitor.{Monitor}
use eyrie.History.{MonitorHistorical}
use eyrie.Cleanup.{utc_day_start}
use eyrie.Ingester.Tables.{Tables, MonitorHistoricalRegionDailyAggregate, find_monitor_config}
use eyrie.Ingester.Aggregate.{RegionTable}
use eyrie.Uptime.Cache.{TtlCache, get_or_load}
use eyrie.Uptime.Summaries.{
  UptimeDataByRegionMonitor, summarize_region_historical_aggregates,
  summarize_uptime_region_historical_rows, or_no_rows,
}
use eyrie.Server.Uptime.{ReadEnv, aggregate_cache_key, unless}

abbrev by_region_date :
    MonitorHistoricalRegionDailyAggregate → MonitorHistoricalRegionDailyAggregate → Bool
by_region_date a b = leb a.date b.date

unfoldable pub load_historical_region_daily_aggregates_before_date :
    Bool → String → ℕ → RegionTable → Option (List MonitorHistoricalRegionDailyAggregate)
unfolding utc_day_start
load_historical_region_daily_aggregates_before_date fails monitor_id before_date table =
    unless fails (
      sort_by by_region_date (
        keep (λ a. a.monitor_id == monitor_id && ltb a.date (utc_day_start before_date))
          (map (λ e. e.1) table)))

unfoldable pub load_historical_region_daily_aggregates_for_date :
    Bool → String → ℕ → RegionTable → Option (List MonitorHistoricalRegionDailyAggregate)
unfolding utc_day_start
load_historical_region_daily_aggregates_for_date fails monitor_id d table = unless fails (
    sort_by by_region_date
      (keep (λ a. a.monitor_id == monitor_id && a.date == utc_day_start d) (map (λ e. e.1) table)))

abbrev pub RegionCache : Type 0
RegionCache = TtlCache (List MonitorHistoricalRegionDailyAggregate)

unfoldable pub historical_region_daily_aggregates_before_date :
    ReadEnv
    → String
    → ℕ
    → RegionTable
    → RegionCache
    → RegionCache × Option (List MonitorHistoricalRegionDailyAggregate)
unfolding load_historical_region_daily_aggregates_before_date aggregate_cache_key
historical_region_daily_aggregates_before_date env monitor_id before_date table cache =
    get_or_load env.first_look env.second_look env.stored_at
      (aggregate_cache_key env.calendar monitor_id before_date)
      (load_historical_region_daily_aggregates_before_date env.before_fails monitor_id before_date
        table)
      cache

unfoldable pub summarize_region_days :
    ℕ
    → Option (List MonitorHistoricalRegionDailyAggregate)
    → Option (List MonitorHistoricalRegionDailyAggregate)
    → Option (List UptimeDataByRegionMonitor)
summarize_region_days now none todays = none
summarize_region_days now (some before) none = none
summarize_region_days now (some before) (some todays) =
    if is_empty (before ++ todays)
    then none
    else some (summarize_region_historical_aggregates now (before ++ todays))

unfoldable pub fetch_monitor_historical_grouped_by_region_from_aggregates :
    ReadEnv → String → Tables → RegionCache → RegionCache × Option (List UptimeDataByRegionMonitor)
unfolding historical_region_daily_aggregates_before_date
    load_historical_region_daily_aggregates_for_date summarize_region_days utc_day_start
fetch_monitor_historical_grouped_by_region_from_aggregates env monitor_id db cache =
    let today = utc_day_start env.now in
    let (cache', before) =
      historical_region_daily_aggregates_before_date env monitor_id today db.region_daily cache in
    (
      cache',
      summarize_region_days env.now before (
          load_historical_region_daily_aggregates_for_date env.today_fails monitor_id today
            db.region_daily),
    )

-- The rows of each region, in order.
unfoldable pub group_by_region :
    List MonitorHistorical
    → Map String (List MonitorHistorical)
    → Map String (List MonitorHistorical)
group_by_region [] regions = regions
group_by_region (h ∷ rows) regions =
    group_by_region rows (put h.region (or_no_rows (get h.region regions) ++ h ∷ []) regions)

unfoldable pub fetch_monitor_historical_grouped_by_region_raw :
    ReadEnv → String → Tables → Option (Map String (List MonitorHistorical))
unfolding group_by_region
fetch_monitor_historical_grouped_by_region_raw env monitor_id db =
    unless env.raw_fails (group_by_region (keep (λ h. h.monitor_id == monitor_id) db.historical) [])

unfoldable pub or_raw_regions :
    ReadEnv
    → List Monitor
    → String
    → Tables
    → Option (List UptimeDataByRegionMonitor)
    → Option (List UptimeDataByRegionMonitor)
unfolding fetch_monitor_historical_grouped_by_region_raw
or_raw_regions env monitors monitor_id db (some result) = some result
or_raw_regions env monitors monitor_id db none =
    elim (fetch_monitor_historical_grouped_by_region_raw env monitor_id db) [
      | none ↦ none
      | some region_data ↦ elim (find_monitor_config monitors monitor_id) [
        | none ↦ none
        | some m ↦ some (summarize_uptime_region_historical_rows env.now region_data (some m))
      ]
    ]

unfoldable pub fetch_monitor_historical_grouped_by_region :
    ReadEnv
    → List Monitor
    → String
    → Tables
    → RegionCache
    → RegionCache × Option (List UptimeDataByRegionMonitor)
unfolding fetch_monitor_historical_grouped_by_region_from_aggregates or_raw_regions
fetch_monitor_historical_grouped_by_region env monitors monitor_id db cache =
    let (cache', result) =
      fetch_monitor_historical_grouped_by_region_from_aggregates env monitor_id db cache in
    (cache', or_raw_regions env monitors monitor_id db result)
