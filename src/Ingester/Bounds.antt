-- ===== src/Ingester/Bounds.antt =====
-- The range of the aggregates' columns.
use eyrie.Base.{
  pair_eq, ℕ, suc, ◌+◌, ◌*◌, ◌≤◌, ◌<◌, String, inl, inr, Bool, List, [], ◌∷◌, arith, ltb, nat_eq,
  string_eq, Bool-cases, length, count,
}
use eyrie.History.{MonitorHistorical}
use eyrie.Ingester.Tables.{Sql}
use eyrie.Ingester.Aggregate.{
  SuccessCountExpression, sum_latency, min_latency, max_latency, daily_aggregate,
  region_daily_aggregate, counts_row,
}

-- A cast from a floating-point quotient to an integer goes to a nearest one.
abbrev pub RoundsToNearest : Sql → Type 0
RoundsToNearest sql =
    (n d : ℕ)
    → 0 < d
    → (2 * n ≤ 2 * (sql.quotient n d * d) + d) × (2 * (sql.quotient n d * d) ≤ 2 * n + d)

abbrev pub InRange : ℕ → ℕ → ℕ → ℕ → Type 0
InRange least average greatest rate = (least ≤ average) × (average ≤ greatest) × (rate ≤ 100)

scale_mono : (a b d : ℕ) → a ≤ b → a * d ≤ b * d
scale_mono a b d h = grind arith

add_low : (a b m c s : ℕ) → a ≤ b → a ≤ m → m * c ≤ s → a * suc c ≤ b + s
add_low a b m c s p q r = grind arith

add_high : (a b m c s : ℕ) → b ≤ a → m ≤ a → s ≤ m * c → b + s ≤ a * suc c
add_high a b m c s p q r = grind arith

sum_latency_bounds :
    (h : MonitorHistorical) (rest : List MonitorHistorical)
    → (min_latency h rest * length (h ∷ rest) ≤ sum_latency (h ∷ rest))
      × (sum_latency (h ∷ rest) ≤ max_latency h rest * length (h ∷ rest))
unfolding sum_latency min_latency max_latency
sum_latency_bounds h [] = omega arith
sum_latency_bounds h (k ∷ rest) =
    let ih = sum_latency_bounds k rest in
    (
      add_low (min_latency h (k ∷ rest)) h.latency_ms (min_latency k rest) (length (k ∷ rest))
          (sum_latency (k ∷ rest)) (ground arith) (ground arith) ih.0,
      add_high (max_latency h (k ∷ rest)) h.latency_ms (max_latency k rest) (length (k ∷ rest))
          (sum_latency (k ∷ rest)) (ground arith) (ground arith) ih.1,
    )

below_quotient : (q lo d n : ℕ) → 0 < d → lo * d ≤ n → 2 * n ≤ 2 * (q * d) + d → lo ≤ q
below_quotient q lo d n pos l u = elim (Bool-cases (ltb q lo)) [
  | inl less ↦
      absurd (let m : (q + 1) * d ≤ lo * d = scale_mono (q + 1) lo d (ground arith) in grind arith)
  | inr not_less ↦ ground arith
]

above_quotient : (q hi d n : ℕ) → 0 < d → n ≤ hi * d → 2 * (q * d) ≤ 2 * n + d → q ≤ hi
above_quotient q hi d n pos l u = elim (Bool-cases (ltb hi q)) [
  | inl less ↦
      absurd (let m : (hi + 1) * d ≤ q * d = scale_mono (hi + 1) q d (ground arith) in grind arith)
  | inr not_less ↦ ground arith
]

count-le-length :
    (p : MonitorHistorical → Bool) (rows : List MonitorHistorical) → count p rows ≤ length rows
count-le-length p [] = omega arith
count-le-length p (h ∷ rows) = ground (arith, count-le-length p rows)

module _ (sql : Sql) (near : RoundsToNearest sql) where
  -- In both tables, a stored average lies between the smallest and the greatest latency of its rows,
  -- and a stored success rate is a percentage, if the database rounds to the nearest integer.
  pub aggregate_bounds :
      (e : SuccessCountExpression) (id region : String) (date : ℕ) (h : MonitorHistorical)
      (rest : List MonitorHistorical)
      → InRange
          (daily_aggregate sql e id date h rest).min_latency_ms
          (daily_aggregate sql e id date h rest).avg_latency_ms
          (daily_aggregate sql e id date h rest).max_latency_ms
          (daily_aggregate sql e id date h rest).success_rate
        × InRange
            (region_daily_aggregate sql e id region date h rest).min_latency_ms
            (region_daily_aggregate sql e id region date h rest).avg_latency_ms
            (region_daily_aggregate sql e id region date h rest).max_latency_ms
            (region_daily_aggregate sql e id region date h rest).success_rate
  unfolding daily_aggregate region_daily_aggregate
  aggregate_bounds e id region date h rest =
      let n : ℕ = length (h ∷ rest) in
      let average = near (sum_latency (h ∷ rest)) n (omega arith) in
      let rate = near (count (counts_row e) (h ∷ rest) * 100) n (omega arith) in
      let sums = sum_latency_bounds h rest in
      let low =
        below_quotient (sql.quotient (sum_latency (h ∷ rest)) n) (min_latency h rest) n
          (sum_latency (h ∷ rest)) (omega arith) sums.0 average.0 in
      let high =
        above_quotient (sql.quotient (sum_latency (h ∷ rest)) n) (max_latency h rest) n
          (sum_latency (h ∷ rest)) (omega arith) sums.1 average.1 in
      let percent =
        above_quotient (sql.quotient (count (counts_row e) (h ∷ rest) * 100) n) 100 n
          (count (counts_row e) (h ∷ rest) * 100) (omega arith)
          (omega (arith, count-le-length (counts_row e) (h ∷ rest))) rate.1 in
      ((low, high, percent), (low, high, percent))
