-- ===== src/Ingester/Interleaving/Idle.antt =====
-- What holds when both goroutines have nothing left to do.
use eyrie.Base.{
  pair_eq, ℕ, String, ◌≡◌, inl, inr, false, none, some, List, [], arith, nat_eq, string_eq, get,
}
use eyrie.Monitor.{Monitor}
use eyrie.Ingester.Queue.{Calendar}
use eyrie.Ingester.Queue.Keys.{CalendarLaws}
use eyrie.Ingester.Tables.{Sql, find_monitor_config}
use eyrie.Ingester.Interleaving.{Shared, Reach}
use eyrie.Ingester.Interleaving.Due.{is_queued, is_inserted, is_waiting, is_current, is_due}
use eyrie.Ingester.Interleaving.Moves.{IsUtc}
use eyrie.Ingester.Interleaving.Days.{DayExact, DaySettled, Reach-DaySettled}
use eyrie.Ingester.Interleaving.Regions.{RegionDayExact, RegionSettled, Reach-RegionSettled}

-- Nothing is queued, taken or about to be queued.
pub record IsIdle (s : Shared) : Type 0 where
  pub nothing_queued : s.queue ≡ []
  pub nothing_inserted : s.inserted ≡ none
  pub nothing_waiting : s.waiting ≡ []
  pub nothing_current : s.current ≡ none

idle_due :
    (calendar : Calendar) (id : String) (t : ℕ) (s : Shared)
    → IsIdle s
    → is_due calendar id t s ≡ false
unfolding is_due is_queued is_inserted is_waiting get
idle_due calendar id t s idle = ground arith

module _ (calendar : Calendar) (laws : CalendarLaws calendar) (sql : Sql) (utc : IsUtc sql)
    (monitors : List Monitor) (id region : String) (t : ℕ) (m : Monitor)
    (found : find_monitor_config monitors id ≡ some m) where
  idle_day : (s : Shared) → IsIdle s → DaySettled calendar sql m id t s → DayExact sql m id t s
  idle_day s idle (inl due) = absurd (ground (arith, idle_due calendar id t s idle))
  idle_day s idle (inr exact) = exact

  idle_region :
      (s : Shared)
      → IsIdle s
      → RegionSettled calendar sql m id region t s
      → RegionDayExact sql m id region t s
  unfolding is_current
  idle_region s idle (inl due) = absurd (ground (arith, idle_due calendar id t s idle))
  idle_region s idle (inr (inl current)) = absurd (ground arith)
  idle_region s idle (inr (inr exact)) = exact

  -- However the message loop and the aggregation loop interleave, and whichever statements of the
  -- aggregation fail on the way: whenever nothing is left to do, the stored aggregate of a configured
  -- monitor's day, and that of each region, is the one that the day's rows give, if there are rows.
  -- At the start the two aggregates have to be exact or due, and the database's session is in UTC.
  pub Reach-exact :
      {s u : Shared}
      → DaySettled calendar sql m id t s
      → RegionSettled calendar sql m id region t s
      → Reach calendar sql monitors s u
      → IsIdle u
      → DayExact sql m id t u × RegionDayExact sql m id region t u
  Reach-exact {u} day regional r idle = (
    idle_day u idle (Reach-DaySettled calendar laws sql utc monitors id t m found r day),
    idle_region u idle
        (Reach-RegionSettled calendar laws sql utc monitors id region t m found r regional),
  )
