-- ===== src/Uptime/Summaries/Agree.antt =====
-- What the summaries keep of their rows.
use eyrie.Base.{
  pair_eq, ℕ, ◌+◌, ◌/◌, ◌≤◌, ◌≡◌, none, List, [], ◌∷◌, arith, nat_eq, string_eq, length, put,
}
use eyrie.Base.Int.{int_eq}
use eyrie.Ingester.Tables.{MonitorHistoricalDailyAggregate}
use eyrie.Uptime.Summaries.{
  UptimeDataHistorical, add_aggregates, summarize_uptime_historical_aggregates, downtime_minutes,
  days_ago,
}

-- A day has at most 1440 minutes of downtime, and none at a success rate of 100.
downtime_minutes_bounds : (rate : ℕ) → (downtime_minutes rate ≤ 1440) × (downtime_minutes 100 ≡ 0)
unfolding downtime_minutes
downtime_minutes_bounds rate = omega arith

sum_avg : List MonitorHistoricalDailyAggregate → ℕ
sum_avg [] = 0
sum_avg (row ∷ rows) = row.avg_latency_ms + sum_avg rows

add_aggregates_sums :
    (now : ℕ) (rows : List MonitorHistoricalDailyAggregate) (s : UptimeDataHistorical)
    → ((add_aggregates now rows s).monitor_age ≡ s.monitor_age + length rows)
      × ((add_aggregates now rows s).latency_ms ≡ s.latency_ms + sum_avg rows)
unfolding add_aggregates sum_avg
add_aggregates_sums now [] s = omega arith
add_aggregates_sums now (row ∷ rows) s =
    let ih = add_aggregates_sums now rows (record {
      latency_ms = s.latency_ms + row.avg_latency_ms;
      monitor_age = s.monitor_age + 1;
      daily_downtimes =
          put (days_ago now row.date) (downtime_minutes row.success_rate) s.daily_downtimes;
      tls = s.tls;
    }) in
    omega arith

-- The age of a monitor is the number of its days, and its latency their average, rounded down.
summary_of_days :
    (now : ℕ) (row : MonitorHistoricalDailyAggregate) (rows : List MonitorHistoricalDailyAggregate)
    → ((summarize_uptime_historical_aggregates now (row ∷ rows)).monitor_age ≡ length (row ∷ rows))
      × ((summarize_uptime_historical_aggregates now (row ∷ rows)).latency_ms
          ≡ sum_avg (row ∷ rows) / length (row ∷ rows))
unfolding summarize_uptime_historical_aggregates
summary_of_days now row rows = ground (
  arith,
  add_aggregates_sums now (row ∷ rows)
      (record { latency_ms = 0; monitor_age = 0; daily_downtimes = []; tls = none }),
)
