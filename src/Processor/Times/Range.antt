-- ===== src/Processor/Times/Range.antt =====
-- Which times the loops of worker_processor.go visit.
use native.Mathlib.Nat.{le-div_iff_mul-le}
use eyrie.Base.{
  ℕ, zero, suc, ◌+◌, ◌-◌, ◌*◌, ◌/◌, ◌≤◌, ◌<◌, ◌≡◌, refl, ◌↔◌, ◌⊎◌, inl, inr, Bool, true, false,
  List, [], ◌∷◌, arith, ltb, nat_eq, string_eq, nat_beq_iff, if◌then◌else◌, contains,
}
use eyrie.Processor.Times.{times_from, times_back}

-- A time that lies `k` intervals back is visited, if the fuel is more than `k`.
times_from_reach :
    (fuel k t u earliest interval : ℕ)
    → k < fuel
    → earliest ≤ u
    → t ≡ u + k * interval
    → contains (times_from fuel t earliest interval) u ≡ true
unfolding times_from
times_from_reach zero k t u earliest interval h e p = elim h [ ]
times_from_reach (suc fuel) zero t u earliest interval h e p = ground arith
times_from_reach (suc fuel) (suc k) t u earliest interval h e p =
    ground (arith, times_from_reach fuel k (t - interval) u earliest interval)

times_from_step :
    (fuel t u earliest interval : ℕ)
    → contains (times_from (suc fuel) t earliest interval) u ≡ true
    → ((t ≡ u) × (earliest ≤ t))
      ⊎ ((interval ≤ t) × (contains (times_from fuel (t - interval) earliest interval) u ≡ true))
unfolding times_from
times_from_step fuel t u earliest interval h = ground (arith, nat_beq_iff t u)

-- What is visited lies in the range, and a number of intervals back.
times_from_bounds :
    (fuel t u earliest interval : ℕ)
    → contains (times_from fuel t earliest interval) u ≡ true
    → (k : ℕ) × (earliest ≤ u) × (t ≡ u + k * interval)
times_from_bounds zero t u earliest interval h = unfold times_from in cc
times_from_bounds (suc fuel) t u earliest interval h =
    elim (times_from_step fuel t u earliest interval h) [
      | inl here ↦ (0, omega arith, omega arith)
      | inr below ↦
          let later = times_from_bounds fuel (t - interval) u earliest interval below.1 in
          (suc later.0, later.1, omega (arith, later.2))
    ]

-- The rounds of `times_back` suffice.
enough_rounds : (k d interval : ℕ) → 0 < interval → k * interval ≤ d → k < suc (d / interval)
enough_rounds k d interval pos h = omega (arith, (le-div_iff_mul-le {x = k} {y = d} pos).1 h)

-- For a positive interval the loop visits exactly the times of the range that lie a whole number of
-- intervals before the latest: none is skipped, and none is visited outside the range.
pub times_back_exact :
    (latest earliest interval u : ℕ)
    → 0 < interval
    → (contains (times_back latest earliest interval) u ≡ true)
      ↔ ((k : ℕ) × (earliest ≤ u) × (latest ≡ u + k * interval))
unfolding times_back
times_back_exact latest earliest interval u pos = (
  times_from_bounds (suc ((latest - earliest) / interval)) latest u earliest interval,
  λ h.
      times_from_reach (suc ((latest - earliest) / interval)) h.0 latest u earliest interval
        (enough_rounds h.0 (latest - earliest) interval pos (omega (arith, h.1, h.2))) h.1 h.2,
)

-- Each time of the list is the latest less as many intervals as its place, counted from `n`.
abbrev pub Spaced : ℕ → ℕ → ℕ → List ℕ → Type 0
Spaced latest interval n [] = Unit
Spaced latest interval n (t ∷ ts) = (latest ≡ t + n * interval) × Spaced latest interval (n + 1) ts

if-Spaced :
    (latest interval n : ℕ) (b : Bool) (ts : List ℕ)
    → (b ≡ false → Spaced latest interval n ts)
    → Spaced latest interval n (if b then [] else ts)
if-Spaced latest interval n true ts h = tt
if-Spaced latest interval n false ts h = h refl

times_from-Spaced :
    (fuel t latest earliest interval n : ℕ)
    → latest ≡ t + n * interval
    → Spaced latest interval n (times_from fuel t earliest interval)
unfolding times_from
times_from-Spaced zero t latest earliest interval n h = tt
times_from-Spaced (suc fuel) t latest earliest interval n h =
    if-Spaced latest interval n (ltb t earliest) _ λ _. (
      h,
      if-Spaced latest interval (n + 1) (ltb t interval) _ λ p.
          times_from-Spaced fuel (t - interval) latest earliest interval (n + 1) (ground arith),
    )

pub times_back-Spaced :
    (latest earliest interval : ℕ) → Spaced latest interval 0 (times_back latest earliest interval)
unfolding times_back
times_back-Spaced latest earliest interval =
    times_from-Spaced (suc ((latest - earliest) / interval)) latest latest earliest interval 0
      (omega arith)
