-- ===== src/Processor/Times.antt =====
-- The times that the loops of worker_processor.go visit: all have the header
-- `for t := latestTime; !t.Before(earliestTime); t = t.Add(-minuteInterval)`.
pub mod Range
use eyrie.Base.{
  ℕ, zero, suc, ◌-◌, ◌/◌, ◌%◌, List, [], ◌∷◌, ltb, ◌==◌, nat_eq, string_eq, if◌then◌else◌,
}

-- `t.Truncate(d)`
unfoldable pub truncate : ℕ → ℕ → ℕ
truncate t d = if d == 0 then t else t - t % d

-- A time below the interval has no earlier one that is not before `earliest`.
unfoldable pub times_from : ℕ → ℕ → ℕ → ℕ → List ℕ
times_from zero t earliest interval = []
times_from (suc fuel) t earliest interval =
    let later = times_from fuel (t - interval) earliest interval in
    let rest = if ltb t interval then [] else later in if ltb t earliest then [] else t ∷ rest

-- One round for `latest` and one for each interval that fits below it.
unfoldable pub times_back : ℕ → ℕ → ℕ → List ℕ
unfolding times_from
times_back latest earliest interval =
    times_from (suc ((latest - earliest) / interval)) latest earliest interval
