-- ===== src/Examples/Ingestion.antt =====
-- Runs of the ingester, and of what is proved of it.
use eyrie.Base.{
  pair_eq, contains_char, sort_by, ℕ, zero, suc, ◌+◌, ◌-◌, ◌*◌, ◌/◌, ◌%◌, ◌<◌, String, ◌≡◌, refl,
  ap, ◌↔◌, inl, inr, true, false, ◌&&◌, none, some, [], ◌∷◌, arith, ◌==◌, nat_eq, string_eq,
  if◌then◌else◌, count, trim_space, text_leb, get, put,
}
use eyrie.Monitor.{minute, day, is_successful_status}
use eyrie.Config.{exact}
use eyrie.Ingester.Queue.{
  Calendar, AggregationTask, normalize_aggregation_date, aggregation_task_key,
  enqueue_aggregation_task, drain_aggregation_tasks, not_after,
}
use eyrie.Ingester.Queue.Keys.{CalendarLaws, aggregation_task_key_unique}
use eyrie.Ingester.Tables.{
  Sql, MonitorHistoricalDailyAggregate, MonitorHistoricalRegionDailyAggregate, find_monitor_config,
  ingested_row,
}
use eyrie.Ingester.Aggregate.{
  no_fault, daily_fault, success_column, daily_aggregate, region_daily_aggregate,
  build_success_count_expression, counts_row, on_day, aggregate_daily_monitor_historical,
}
use eyrie.Ingester.Bounds.{RoundsToNearest, InRange, aggregate_bounds}
use eyrie.Ingester.Verdict.{counts_row-ingested}
use eyrie.Ingester.Worker.{
  IngesterWorker, IngestEnv, SeedEnv, new_ingester_worker, process_message,
  aggregate_dirty_monitors, aggregation_seed_lookback, start_aggregation, parse_aggregation_date,
}
use eyrie.Ingester.Worker.Round.{aggregate_dirty_monitors-exact}
use eyrie.Ingester.Worker.Seed.{CanRead, recent, start_aggregation-exact}
use eyrie.Ingester.Worker.Redelivery.{round_event, after_events, process_message_again}
use eyrie.Ingester.Interleaving.{Reach}
use eyrie.Ingester.Interleaving.Due.{is_due, is_queued, is_task}
use eyrie.Ingester.Interleaving.Moves.{IsUtc}
use eyrie.Ingester.Interleaving.Days.{DayExact, DaySettled}
use eyrie.Ingester.Interleaving.Regions.{RegionDayExact, RegionSettled}
use eyrie.Ingester.Interleaving.Idle.{IsIdle, Reach-exact}
use eyrie.Ingester.Interleaving.Refines.{
  at_rest, Reach-trans, aggregate_dirty_monitors-Reach, process_message-Reach,
}
use eyrie.Examples.{shop, settings, probe, submission}

-- A calendar that shows a day by as many marks.
marks : ℕ → String
marks zero = ""
marks (suc n) = String.◌∷◌ "d" (marks n)

no_bar-marks : (n : ℕ) → contains_char "|" (marks n) ≡ false
unfolding marks contains_char
no_bar-marks zero = refl
no_bar-marks (suc n) = no_bar-marks n

marks_injective : (m n : ℕ) → marks m ≡ marks n → m ≡ n
unfolding marks
marks_injective zero zero e = refl
marks_injective zero (suc n) e = cc
marks_injective (suc m) zero e = cc
marks_injective (suc m) (suc n) e = ap suc (marks_injective m n (cc))

abbrev wall : Calendar
wall = record { format_date = λ date. marks (date / day) }

wall-CalendarLaws : CalendarLaws wall
wall-CalendarLaws = record {
  no_bar = λ date. no_bar-marks (date / day);
  injective = λ i j e. let q = marks_injective (i * day / day) (j * day / day) e in omega arith;
}

-- A database that keeps microseconds, in a session in UTC, and rounds half up.
abbrev duck : Sql
duck = record {
  column_time = λ t. t - t % 1000;
  date_of = normalize_aggregation_date;
  quotient = λ n d. (2 * n + d) / (2 * d);
}

duck-IsUtc : IsUtc duck
unfolding normalize_aggregation_date
duck-IsUtc t = omega arith

duck-RoundsToNearest : RoundsToNearest duck
duck-RoundsToNearest n d h = grind arith

abbrev first : AggregationTask
first = record { monitor_id = "shop"; date = 0 }

abbrev second_day : AggregationTask
second_day = record { monitor_id = "shop"; date = day }

drained :
    (drain_aggregation_tasks (("b", second_day) ∷ ("a", first) ∷ [])).0 ≡ first ∷ second_day ∷ []
unfolding drain_aggregation_tasks not_after sort_by text_leb
drained = refl

aggregation_task_key_unique_example :
    (aggregation_task_key wall "shop" minute ≡ aggregation_task_key wall "shop" (2 * minute)) ↔ (
      ◌≡◌ {A = String} "shop" "shop"
      × (normalize_aggregation_date minute ≡ normalize_aggregation_date (2 * minute)))
aggregation_task_key_unique_example =
    aggregation_task_key_unique wall wall-CalendarLaws "shop" "shop" minute (2 * minute)

abbrev one_failed : MonitorHistoricalDailyAggregate
one_failed =
    daily_aggregate duck success_column "shop" 0 (probe "eu" 500 60) (probe "us" 200 61 ∷ [])

abbrev one_failed_in_eu : MonitorHistoricalRegionDailyAggregate
one_failed_in_eu =
    region_daily_aggregate duck success_column "shop" "eu" 0 (probe "eu" 500 60)
      (probe "us" 200 61 ∷ [])

aggregate_bounds_example :
    InRange one_failed.min_latency_ms one_failed.avg_latency_ms one_failed.max_latency_ms
      one_failed.success_rate
    × InRange one_failed_in_eu.min_latency_ms one_failed_in_eu.avg_latency_ms
        one_failed_in_eu.max_latency_ms one_failed_in_eu.success_rate
aggregate_bounds_example =
    aggregate_bounds duck duck-RoundsToNearest success_column "shop" "eu" 0 (probe "eu" 500 60)
      (probe "us" 200 61 ∷ [])

half_of_two : one_failed.success_rate ≡ 50
unfolding daily_aggregate
half_of_two = refl

found_shop : find_monitor_config (shop ∷ []) "shop" ≡ some shop
unfolding find_monitor_config
found_shop = refl

counts_row-ingested_example :
    (counts_row
        (build_success_count_expression shop)
        (ingested_row duck (shop ∷ []) submission "eu")
      ≡ (ingested_row duck (shop ∷ []) submission "eu").success)
    × (is_successful_status shop
          (ingested_row duck (shop ∷ []) submission "eu").status_code
          (ingested_row duck (shop ∷ []) submission "eu").success
        ≡ (ingested_row duck (shop ∷ []) submission "eu").success)
counts_row-ingested_example = counts_row-ingested duck (shop ∷ []) shop submission "eu" found_shop

-- One message and a round of aggregation, from an empty database on.
abbrev started : IngesterWorker
started = new_ingester_worker (record { historical = []; daily = []; region_daily = [] })

abbrev steady : IngestEnv
steady = record { connection_fails = false; insert_fails = false; nackable = true }

abbrev received : IngesterWorker
received =
    (process_message wall duck (shop ∷ []) steady (some submission) (some (("region", "eu") ∷ []))
      started).0

abbrev aggregated : IngesterWorker
aggregated = aggregate_dirty_monitors wall duck (shop ∷ []) (λ _. no_fault) received

-- A round between the deliveries, which empties the queue.
abbrev between : IngesterWorker
between = after_events wall duck (shop ∷ []) (round_event (λ _. no_fault) ∷ []) received

abbrev delivered_again : IngesterWorker → IngesterWorker
delivered_again w =
    (process_message wall duck (shop ∷ []) steady (some submission) (some (("region", "eu") ∷ []))
      w).0

process_message_again_example :
    ((delivered_again between).db ≡ between.db)
    × ((delivered_again between).dirty_aggregation_tasks
        ≡ enqueue_aggregation_task wall submission.monitor_id submission.timestamp
            between.dirty_aggregation_tasks)
    × (delivered_again received ≡ received)
process_message_again_example =
    process_message_again wall duck (shop ∷ []) submission (some (("region", "eu") ∷ [])) steady
      steady started (round_event (λ _. no_fault) ∷ []) refl

started_day : DaySettled wall duck shop "shop" minute (at_rest started)
unfolding new_ingester_worker
started_day = inr tt

started_region : RegionSettled wall duck shop "shop" "eu" minute (at_rest started)
unfolding new_ingester_worker
started_region = inr (inr tt)

aggregated-IsIdle : IsIdle (at_rest aggregated)
unfolding aggregate_dirty_monitors process_message new_ingester_worker
    aggregate_daily_monitor_historical drain_aggregation_tasks sort_by enqueue_aggregation_task put
aggregated-IsIdle = record {
  nothing_queued = refl;
  nothing_inserted = refl;
  nothing_waiting = refl;
  nothing_current = refl;
}

Reach-exact_example :
    DayExact duck shop "shop" minute (at_rest aggregated)
    × RegionDayExact duck shop "shop" "eu" minute (at_rest aggregated)
Reach-exact_example =
    Reach-exact wall wall-CalendarLaws duck duck-IsUtc (shop ∷ []) "shop" "eu" minute shop
      found_shop {s = at_rest started} {u = at_rest aggregated} started_day started_region
      (Reach-trans wall duck (shop ∷ [])
        (process_message-Reach wall duck (shop ∷ []) steady (some submission)
          (some (("region", "eu") ∷ [])) started)
        (aggregate_dirty_monitors-Reach wall duck (shop ∷ []) (λ _. no_fault) received))
      aggregated-IsIdle

aggregate_dirty_monitors-Reach_example :
    Reach wall duck
      (shop ∷ [])
      (at_rest received)
      (at_rest (aggregate_dirty_monitors wall duck (shop ∷ []) (λ _. daily_fault) received))
aggregate_dirty_monitors-Reach_example =
    aggregate_dirty_monitors-Reach wall duck (shop ∷ []) (λ _. daily_fault) received

received_due : is_due wall "shop" minute (at_rest received) ≡ true
unfolding is_due is_queued is_task process_message new_ingester_worker normalize_aggregation_date
    marks get enqueue_aggregation_task put aggregation_task_key
received_due = refl

aggregate_dirty_monitors-exact_example :
    DayExact duck shop "shop" minute (at_rest aggregated)
    × RegionDayExact duck shop "shop" "eu" minute (at_rest aggregated)
aggregate_dirty_monitors-exact_example =
    aggregate_dirty_monitors-exact wall wall-CalendarLaws duck (shop ∷ []) "shop" minute
      (λ _. no_fault) (λ date same. refl) "eu" shop received duck-IsUtc found_shop
      (inl received_due) (inl received_due)

-- A restart after an outage: a row without its aggregates.
abbrev restarted : IngesterWorker
restarted =
    new_ingester_worker
      (record { historical = probe "eu" 500 minute ∷ []; daily = []; region_daily = [] })

abbrev clock : SeedEnv
clock = record {
  now = 2 * day;
  connection_fails = false;
  query_fails = false;
  date_text = λ date. if date == 0 then some "0001-01-01" else none;
  parse = λ layout text. if layout == "2006-01-02" && text == "0001-01-01" then some 0 else none;
}

clock-CanRead : CanRead clock (normalize_aggregation_date minute)
unfolding normalize_aggregation_date parse_aggregation_date trim_space
clock-CanRead = record {
  connected = refl;
  queried = refl;
  text = "0001-01-01";
  shown = refl;
  parsed = refl;
}

restarted_recent :
    0
    < count
        (recent duck "shop" minute (clock.now - aggregation_seed_lookback exact settings))
        restarted.db.historical
unfolding new_ingester_worker aggregation_seed_lookback on_day normalize_aggregation_date
restarted_recent = omega arith

start_aggregation-exact_example :
    DayExact duck shop "shop" minute (
      at_rest
        (start_aggregation wall duck (shop ∷ []) exact settings clock (λ _. no_fault) restarted))
    × RegionDayExact duck shop "shop" "eu" minute (
        at_rest
          (start_aggregation wall duck (shop ∷ []) exact settings clock (λ _. no_fault) restarted))
start_aggregation-exact_example =
    start_aggregation-exact wall wall-CalendarLaws duck (shop ∷ []) "shop" minute clock
      clock-CanRead "eu" shop exact settings (λ _. no_fault) restarted (λ date same. refl)
      duck-IsUtc found_shop restarted_recent
