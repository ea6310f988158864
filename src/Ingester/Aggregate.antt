-- ===== src/Ingester/Aggregate.antt =====
-- worker_ingester.go: the two statements that compute the aggregates of one monitor and one day.
pub mod Exact
use eyrie.Base.{
  pair_eq, contains_char, split_at_last, LinearOrder, sort_by, Ascending, sort_by-Perm,
  sort_by-Ascending, count-sort_by, unique_from, count-unique_from, insert_sorted_comm,
  String-discrete, ℕ, zero, suc, ◌+◌, ◌-◌, ◌*◌, ◌/◌, ◌%◌, ◌≤◌, ◌<◌, String, ◌≡◌, refl, sym, ap, ap₂,
  ◌∙◌, ◌≢◌, ◌↔◌, ◌⊎◌, inl, inr, Bool, true, false, not, ◌&&◌, ◌||◌, Option, none, some, List, [],
  ◌∷◌, ◌++◌, map, Perm, arith, ltb, leb, Equality, ◌==◌, nat_eq, string_eq, str_eq_iff, nat_beq_iff,
  if◌then◌else◌, ltb→lt, leb→le, Bool-cases, Option-cases, length, is_empty, length-append, keep,
  length-keep, find_first, count, count-append, All, All-append, contains, concat, join,
  contains_text, trim_space, to_lower, itoa, text_leb, text_leb_total, text_leb_antisymm,
  text_leb_trans, sort, insert_sorted, sort-Perm, sort-sort, Map, get, put, get-put, get-put_self,
  equality_refl, UniqueKeys, put-UniqueKeys, length-put,
}
use eyrie.Monitor.{Monitor, effective_type, effective_http}
use eyrie.History.{MonitorHistorical}
use eyrie.Ingester.Tables.{
  Sql, Tables, MonitorHistoricalDailyAggregate, MonitorHistoricalRegionDailyAggregate,
  find_monitor_config,
}

-- `CASE WHEN status_code IN (…)`, or `CASE WHEN success`
pub data SuccessCountExpression : Type 0 where
  status_code_in : List ℕ → SuccessCountExpression
  success_column : SuccessCountExpression

unfoldable pub build_success_count_expression : Monitor → SuccessCountExpression
unfolding effective_type effective_http
build_success_count_expression m =
    if effective_type m == "http"
    then status_code_in (effective_http m).expected_status_codes
    else success_column

-- Whether the expression counts a row.
unfoldable pub counts_row : SuccessCountExpression → MonitorHistorical → Bool
counts_row (status_code_in codes) h = contains codes h.status_code
counts_row success_column h = h.success

unfoldable pub sum_latency : List MonitorHistorical → ℕ
sum_latency [] = 0
sum_latency (h ∷ rest) = h.latency_ms + sum_latency rest

unfoldable pub min_latency : MonitorHistorical → List MonitorHistorical → ℕ
min_latency h [] = h.latency_ms
min_latency h (k ∷ rest) =
    let least = min_latency k rest in if ltb least h.latency_ms then least else h.latency_ms

unfoldable pub max_latency : MonitorHistorical → List MonitorHistorical → ℕ
max_latency h [] = h.latency_ms
max_latency h (k ∷ rest) =
    let greatest = max_latency k rest in
    if ltb h.latency_ms greatest then greatest else h.latency_ms

-- The WHERE clause of both statements.
unfoldable pub on_day : Sql → String → ℕ → MonitorHistorical → Bool
on_day sql monitor_id date h = h.monitor_id == monitor_id && sql.date_of h.created_at == date

unfoldable pub of_region : String → MonitorHistorical → Bool
of_region region h = h.region == region

-- One line of the first SELECT, for a group that has a row.
unfoldable pub daily_aggregate :
    Sql
    → SuccessCountExpression
    → String
    → ℕ
    → MonitorHistorical
    → List MonitorHistorical
    → MonitorHistoricalDailyAggregate
unfolding sum_latency min_latency max_latency counts_row
daily_aggregate sql expression monitor_id date h rest = record {
  monitor_id = monitor_id;
  region = "";
  date = date;
  avg_latency_ms = sql.quotient (sum_latency (h ∷ rest)) (length (h ∷ rest));
  min_latency_ms = min_latency h rest;
  max_latency_ms = max_latency h rest;
  success_rate = sql.quotient (count (counts_row expression) (h ∷ rest) * 100) (length (h ∷ rest));
}

-- One line of the second SELECT.
unfoldable pub region_daily_aggregate :
    Sql
    → SuccessCountExpression
    → String
    → String
    → ℕ
    → MonitorHistorical
    → List MonitorHistorical
    → MonitorHistoricalRegionDailyAggregate
unfolding sum_latency min_latency max_latency counts_row
region_daily_aggregate sql expression monitor_id region date h rest = record {
  monitor_id = monitor_id;
  region = region;
  date = date;
  avg_latency_ms = sql.quotient (sum_latency (h ∷ rest)) (length (h ∷ rest));
  min_latency_ms = min_latency h rest;
  max_latency_ms = max_latency h rest;
  success_rate = sql.quotient (count (counts_row expression) (h ∷ rest) * 100) (length (h ∷ rest));
}

abbrev pub DailyTable : Type 0
DailyTable = Map (String × ℕ) MonitorHistoricalDailyAggregate

abbrev pub RegionTable : Type 0
RegionTable = Map ((String × String) × ℕ) MonitorHistoricalRegionDailyAggregate

-- The WHERE clause fixes both columns of the GROUP BY: there is one group, or none.
unfoldable pub upsert_daily :
    Sql → SuccessCountExpression → String → ℕ → List MonitorHistorical → DailyTable → DailyTable
unfolding daily_aggregate
upsert_daily sql expression monitor_id date [] table = table
upsert_daily sql expression monitor_id date (h ∷ rest) table =
    put (monitor_id, date) (daily_aggregate sql expression monitor_id date h rest) table

unfoldable pub upsert_region :
    Sql
    → SuccessCountExpression
    → String
    → String
    → ℕ
    → List MonitorHistorical
    → RegionTable
    → RegionTable
unfolding region_daily_aggregate
upsert_region sql expression monitor_id region date [] table = table
upsert_region sql expression monitor_id region date (h ∷ rest) table =
    put ((monitor_id, region), date)
      (region_daily_aggregate sql expression monitor_id region date h rest) table

-- One group for each region that occurs.
unfoldable pub upsert_regions :
    Sql
    → SuccessCountExpression
    → String
    → List String
    → ℕ
    → List MonitorHistorical
    → RegionTable
    → RegionTable
unfolding upsert_region of_region
upsert_regions sql expression monitor_id [] date rows table = table
upsert_regions sql expression monitor_id (region ∷ regions) date rows table =
    upsert_regions sql expression monitor_id regions date rows
      (upsert_region sql expression monitor_id region date (keep (of_region region) rows) table)

-- The first statement.
unfoldable pub aggregate_days : Sql → Monitor → String → ℕ → Tables → Tables
unfolding upsert_daily on_day build_success_count_expression
aggregate_days sql m monitor_id date db = record db {
  daily =
      upsert_daily sql (build_success_count_expression m) monitor_id date
        (keep (on_day sql monitor_id date) db.historical) db.daily;
}

-- The second statement.
unfoldable pub aggregate_regions : Sql → Monitor → String → ℕ → Tables → Tables
unfolding upsert_regions on_day build_success_count_expression
aggregate_regions sql m monitor_id date db =
    let rows = keep (on_day sql monitor_id date) db.historical in
    record db {
      region_daily =
          upsert_regions sql (build_success_count_expression m) monitor_id
            (unique_from [] (map (λ h. h.region) rows)) date rows db.region_daily;
    }

-- Where the database refuses, if it does.
pub data Fault : Type 0 where
  no_fault connection_fault daily_fault region_fault : Fault

-- The tables afterwards, and whether the call succeeded.  What the first statement wrote stays when
-- the second one fails.
unfoldable pub aggregate_found : Sql → Fault → Option Monitor → String → ℕ → Tables → Tables × Bool
unfolding aggregate_days aggregate_regions
aggregate_found sql fault none monitor_id date db = (db, true)
aggregate_found sql no_fault (some m) monitor_id date db =
    (aggregate_regions sql m monitor_id date (aggregate_days sql m monitor_id date db), true)
aggregate_found sql connection_fault (some m) monitor_id date db = (db, false)
aggregate_found sql daily_fault (some m) monitor_id date db = (db, false)
aggregate_found sql region_fault (some m) monitor_id date db =
    (aggregate_days sql m monitor_id date db, false)

unfoldable pub aggregate_daily_monitor_historical :
    Sql → List Monitor → Fault → String → ℕ → Tables → Tables × Bool
unfolding aggregate_found find_monitor_config
aggregate_daily_monitor_historical sql monitors fault monitor_id date db =
    aggregate_found sql fault (find_monitor_config monitors monitor_id) monitor_id date db
