-- ===== src/Server/Page.antt =====
-- server.go: the status page, which shows the configured monitors in their groups.
-- The fetches of the monitors run in the order of the configuration, one of those that goroutines take;
-- each has a clock and failing queries of its own.
pub mod Complete
use eyrie.Base.{
  pair_eq, sort_by, ℕ, String, Bool, false, not, ◌||◌, Option, none, some, List, [], ◌∷◌, ◌++◌, map,
  nat_eq, string_eq, keep, contains, text_leb, Map, get, put,
}
use eyrie.Base.Int.{ℤ}
use eyrie.Monitor.{Monitor, Group, MonitorConfig}
use eyrie.Ingester.Tables.{Tables}
use eyrie.Uptime.Summaries.{UptimeDataHistorical, UptimeDataTlsInfo}
use eyrie.Server.Uptime.{ReadEnv, DailyCache, fetch_from_raw_monitor_historical}

pub record UptimeDataHandlerSingleMonitor : Type 0 where
  pub id : String
  pub name : String
  pub description : Option String
  pub response_time_ms : ℕ
  pub age : ℕ
  pub downtimes : Map ℤ ℕ
  pub tls : Option UptimeDataTlsInfo

pub data UptimeDataHandlerMonitorType : Type 0 where
  single_monitor monitor_group : UptimeDataHandlerMonitorType

pub record UptimeDataHandlerMonitorGroup : Type 0 where
  pub kind : UptimeDataHandlerMonitorType
  pub id : String
  pub name : String
  pub description : Option String
  pub monitors : List UptimeDataHandlerSingleMonitor

pub record UptimeDataHandlerResponse : Type 0 where
  pub last_updated : ℕ
  pub monitors : List UptimeDataHandlerMonitorGroup

-- Also the zero value of the type, as far as it is shown.
abbrev pub no_historical : UptimeDataHistorical
no_historical = record { latency_ms = 0; monitor_age = 0; daily_downtimes = []; tls = none }

abbrev pub or_no_historical : Option UptimeDataHistorical → UptimeDataHistorical
or_no_historical none = no_historical
or_no_historical (some historical) = historical

-- A later monitor with the same ID replaces an earlier one.
unfoldable pub index_monitors : List Monitor → Map String Monitor → Map String Monitor
index_monitors [] by_id = by_id
index_monitors (m ∷ monitors) by_id = index_monitors monitors (put m.id m by_id)

unfoldable pub fetch_all :
    (String → ReadEnv)
    → List Monitor
    → List Monitor
    → Tables
    → DailyCache
    → Map String UptimeDataHistorical
    → DailyCache × Map String UptimeDataHistorical
unfolding fetch_from_raw_monitor_historical
fetch_all env configured [] db cache fetched = (cache, fetched)
fetch_all env configured (m ∷ monitors) db cache fetched =
    let (cache', result) = fetch_from_raw_monitor_historical (env m.id) configured m.id db cache in
    fetch_all env configured monitors db cache' (put m.id (or_no_historical result) fetched)

unfoldable pub single_monitor_of :
    Map String UptimeDataHistorical → Monitor → UptimeDataHandlerSingleMonitor
single_monitor_of fetched m =
    let historical = or_no_historical (get m.id fetched) in
    record {
      id = m.id;
      name = m.name;
      description = m.description;
      response_time_ms = historical.latency_ms;
      age = historical.monitor_age;
      downtimes = historical.daily_downtimes;
      tls = historical.tls;
    }

-- An ID that is not configured is skipped.
unfoldable pub group_monitors :
    Map String Monitor
    → Map String UptimeDataHistorical
    → List String
    → List UptimeDataHandlerSingleMonitor
unfolding single_monitor_of
group_monitors by_id fetched [] = []
group_monitors by_id fetched (monitor_id ∷ monitor_ids) =
    let rest = group_monitors by_id fetched monitor_ids in
    elim (get monitor_id by_id) [ none ↦ rest | some m ↦ single_monitor_of fetched m ∷ rest ]

unfoldable pub shown_group :
    Map String Monitor → Map String UptimeDataHistorical → Group → UptimeDataHandlerMonitorGroup
unfolding group_monitors
shown_group by_id fetched g = record {
  kind = monitor_group;
  id = g.id;
  name = g.name;
  description = g.description;
  monitors = group_monitors by_id fetched g.monitor_ids;
}

unfoldable pub in_group : List Group → String → Bool
in_group [] monitor_id = false
in_group (g ∷ groups) monitor_id = contains g.monitor_ids monitor_id || in_group groups monitor_id

unfoldable pub shown_single :
    Map String UptimeDataHistorical → Monitor → UptimeDataHandlerMonitorGroup
unfolding single_monitor_of
shown_single fetched m = record {
  kind = single_monitor;
  id = m.id;
  name = m.name;
  description = m.description;
  monitors = single_monitor_of fetched m ∷ [];
}

unfoldable pub by_group_id : UptimeDataHandlerMonitorGroup → UptimeDataHandlerMonitorGroup → Bool
by_group_id a b = text_leb a.id b.id

-- The groups, and the monitors that are in none of them.
unfoldable pub shown_groups :
    MonitorConfig → Map String UptimeDataHistorical → List UptimeDataHandlerMonitorGroup
unfolding shown_group shown_single in_group index_monitors
shown_groups config fetched =
    map (shown_group (index_monitors config.monitors []) fetched) config.groups
    ++ map (shown_single fetched) (keep (λ m. not (in_group config.groups m.id)) config.monitors)

unfoldable pub build_uptime_data_response :
    (String → ReadEnv)
    → ℕ
    → MonitorConfig
    → Tables
    → DailyCache
    → DailyCache × UptimeDataHandlerResponse
unfolding fetch_all shown_groups by_group_id
build_uptime_data_response env now config db cache =
    let (cache', fetched) = fetch_all env config.monitors config.monitors db cache [] in
    (
      cache',
      record { last_updated = now; monitors = sort_by by_group_id (shown_groups config fetched) },
    )
