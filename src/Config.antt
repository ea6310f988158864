-- ===== src/Config.antt =====
-- The dataset settings of config_server.go, over the floats that they hold.
-- Go's `float64` enters as a record of the operations that the program applies.
pub mod Server
use eyrie.Base.{ℕ, ◌*◌, ◌/◌, String, Bool, ltb, leb, nat_eq, string_eq, itoa}
use eyrie.Base.Int.{ℤ}

pub record Float64 : Type 1 where
  pub F : Type 0
  pub of_nat : ℕ → F
  pub div : F → F → F
  pub mul : F → F → F
  pub lt : F → F → Bool
  pub ge : F → F → Bool
  -- `%.2f`
  pub format : F → String

pub record DatasetConfig (fl : Float64) : Type 0 where
  pub retention_days : ℕ
  pub cleanup_interval_minutes : ℤ
  pub cleanup_batch_size : ℤ
  pub processing_lookback_minutes : ℕ
  pub per_region_failure_threshold_percent : fl.F
  pub failure_threshold_percent : fl.F
  pub degraded_threshold_minutes : ℕ
  pub degraded_threshold_consecutive_buckets : ℕ
  pub failure_threshold_minutes : ℕ

-- A rational number as a numerator and a denominator: floats without rounding, to run the model.
pub record Ratio : Type 0 where
  pub num : ℕ
  pub den : ℕ

abbrev pub exact : Float64
exact = record {
  F = Ratio;
  of_nat = λ n. record { num = n; den = 1 };
  div = λ a b. record { num = a.num * b.den; den = a.den * b.num };
  mul = λ a b. record { num = a.num * b.num; den = a.den * b.den };
  lt = λ a b. ltb (a.num * b.den) (b.num * a.den);
  ge = λ a b. leb (b.num * a.den) (a.num * b.den);
  format = λ a. itoa (a.num / a.den);
}
