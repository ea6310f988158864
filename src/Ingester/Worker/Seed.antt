-- ===== src/Ingester/Worker/Seed.antt =====
-- What the seed brings back after a restart.
use eyrie.Base.{
  pair_eq, contains-unique_from, ℕ, ◌-◌, ◌<◌, String, ◌≡◌, ◌∙◌, inl, inr, Bool, true, false, ◌&&◌,
  some, List, [], ◌∷◌, map, arith, leb, ◌==◌, nat_eq, string_eq, Bool-cases, Option-cases, keep,
  count, contains, equality_refl,
}
use eyrie.Monitor.{Monitor}
use eyrie.History.{MonitorHistorical}
use eyrie.Config.{Float64, DatasetConfig}
use eyrie.Ingester.Queue.{
  Calendar, AggregationTask, TaskQueue, normalize_aggregation_date, enqueue_aggregation_task,
}
use eyrie.Ingester.Queue.Keys.{CalendarLaws, normalize_again}
use eyrie.Ingester.Tables.{Sql, find_monitor_config}
use eyrie.Ingester.Aggregate.{Fault, on_day}
use eyrie.Ingester.Worker.{
  IngesterWorker, SeedEnv, aggregation_seed_lookback, parse_aggregation_date, seed_pairs, seed_row,
  seed_rows, seed_recent_aggregation_tasks, start_aggregation,
}
use eyrie.Ingester.Worker.Round.{NoFaultOn, aggregate_dirty_monitors-exact}
use eyrie.Ingester.Interleaving.Due.{is_queued, is_queued-enqueue, is_due}
use eyrie.Ingester.Interleaving.Moves.{IsUtc}
use eyrie.Ingester.Interleaving.Days.{DayExact}
use eyrie.Ingester.Interleaving.Regions.{RegionDayExact}
use eyrie.Ingester.Interleaving.Refines.{at_rest}

-- The seed runs its query, and reads back the date of a day from the driver's text.
pub record CanRead (env : SeedEnv) (date : ℕ) : Type 0 where
  pub connected : env.connection_fails ≡ false
  pub queried : env.query_fails ≡ false
  pub text : String
  pub shown : env.date_text date ≡ some text
  pub parsed : parse_aggregation_date env.parse text ≡ some date

-- A row of the day in the window.
abbrev pub recent : Sql → String → ℕ → ℕ → MonitorHistorical → Bool
recent sql id t since h = on_day sql id (normalize_aggregation_date t) h && leb since h.created_at

module _ (calendar : Calendar) (laws : CalendarLaws calendar) (sql : Sql) (monitors : List Monitor)
    (id : String) (t : ℕ) (env : SeedEnv) (can : CanRead env (normalize_aggregation_date t)) where
  enqueued :
      (queue : TaskQueue)
      → is_queued calendar id t
          (enqueue_aggregation_task calendar id (normalize_aggregation_date t) queue)
        ≡ true
  enqueued queue = ground (
    arith,
    is_queued-enqueue calendar laws id id t (normalize_aggregation_date t) queue,
    normalize_again t,
    equality_refl id,
    equality_refl (normalize_aggregation_date t),
  )

  -- A row of the seed's query never takes a task away.
  seed_row_kept :
      (pair : String × ℕ) (queue : TaskQueue)
      → is_queued calendar id t queue ≡ true
      → is_queued calendar id t (seed_row calendar sql monitors env pair queue) ≡ true
  unfolding seed_row
  seed_row_kept (monitor_id, date) queue h = elim (Option-cases (env.date_text date)) [
    | inl e ↦ rw (e, seed_row) h
    | inr e ↦ elim (Option-cases (parse_aggregation_date env.parse e.0)) [
      | inl f ↦ rw (e.1, f, seed_row) h
      | inr f ↦
          rw (e.1, f.1, seed_row)
            (ground (arith, is_queued-enqueue calendar laws id monitor_id t f.0 queue))
    ]
  ]

  seed_rows_kept :
      (pairs : List (String × ℕ)) (queue : TaskQueue)
      → is_queued calendar id t queue ≡ true
      → is_queued calendar id t (seed_rows calendar sql monitors env pairs queue) ≡ true
  unfolding seed_rows
  seed_rows_kept [] queue h = h
  seed_rows_kept (pair ∷ pairs) queue h = seed_rows_kept pairs _ (seed_row_kept pair queue h)

  seed_row_queued :
      (queue : TaskQueue)
      → is_queued calendar id t
          (seed_row calendar sql monitors env (id, normalize_aggregation_date t) queue)
        ≡ true
  unfolding seed_row
  seed_row_queued queue = rw (can.shown, can.parsed, seed_row) (enqueued queue)

  seed_rows_queued :
      (pairs : List (String × ℕ)) (queue : TaskQueue)
      → contains pairs (id, normalize_aggregation_date t) ≡ true
      → is_queued calendar id t (seed_rows calendar sql monitors env pairs queue) ≡ true
  unfolding seed_rows
  seed_rows_queued [] queue h = cc
  seed_rows_queued (pair ∷ pairs) queue h =
      elim (Bool-cases (pair == (id, normalize_aggregation_date t))) [
        | inl same ↦
            let e : pair ≡ (id, normalize_aggregation_date t) =
              (pair_eq.agrees pair (id, normalize_aggregation_date t)).0 same in
            rw e (seed_rows_kept pairs _ (seed_row_queued queue))
        | inr other ↦ seed_rows_queued pairs _ (ground arith)
      ]

  contains-pairs :
      (since : ℕ) (rows : List MonitorHistorical)
      → 0 < count (recent sql id t since) rows
      → contains {A = String × ℕ}
          (map
            (λ h. (h.monitor_id, sql.date_of h.created_at))
            (keep (λ h. leb since h.created_at) rows))
          (id, normalize_aggregation_date t)
        ≡ true
  unfolding on_day
  contains-pairs since [] h = ground arith
  contains-pairs since (r ∷ rows) h = ground (arith, contains-pairs since rows)

  seed_queued :
      (lookback : ℕ) (w : IngesterWorker)
      → 0 < count (recent sql id t (env.now - lookback)) w.db.historical
      → is_queued calendar id t
          (seed_recent_aggregation_tasks calendar sql monitors env lookback
            w).dirty_aggregation_tasks
        ≡ true
  unfolding seed_recent_aggregation_tasks seed_pairs
  seed_queued lookback w h =
      let since = env.now - lookback in
      simp (can.connected, can.queried)
        (seed_rows_queued (seed_pairs calendar sql monitors since w.db.historical)
          w.dirty_aggregation_tasks
          (contains-unique_from (id, normalize_aggregation_date t) _
            ∙ contains-pairs since w.db.historical h))

  -- After a restart, whatever the aggregates look like: the seed and the round that follows it bring
  -- each day of a configured monitor up to date that has a row in the look-back window, if the seed
  -- reads the day's date, no statement for the day fails and the session is in UTC.
  pub start_aggregation-exact :
      (region : String) (m : Monitor) (fl : Float64) (cfg : DatasetConfig fl)
      (fault : AggregationTask → Fault) (w : IngesterWorker)
      → NoFaultOn id t fault
      → IsUtc sql
      → find_monitor_config monitors id ≡ some m
      → 0 < count (recent sql id t (env.now - aggregation_seed_lookback fl cfg)) w.db.historical
      → DayExact sql m id t (at_rest (start_aggregation calendar sql monitors fl cfg env fault w))
        × RegionDayExact sql m id region t
            (at_rest (start_aggregation calendar sql monitors fl cfg env fault w))
  unfolding start_aggregation is_due
  start_aggregation-exact region m fl cfg fault w fine utc found h =
      let seeded =
        seed_recent_aggregation_tasks calendar sql monitors env (aggregation_seed_lookback fl cfg)
          w in
      let due : is_due calendar id t (at_rest seeded) ≡ true =
        ground (arith, seed_queued (aggregation_seed_lookback fl cfg) w h) in
      aggregate_dirty_monitors-exact calendar laws sql monitors id t fault fine region m seeded utc
        found (inl due) (inl due)
