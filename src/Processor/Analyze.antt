-- ===== src/Processor/Analyze.antt =====
-- `analyzeSubmissions`: the older change detector over the two newest buckets.
use eyrie.Base.{
  ℕ, String, Bool, true, false, ◌&&◌, ◌||◌, none, some, List, [], ◌∷◌, ltb, ◌==◌, nat_eq, string_eq,
  if◌then◌else◌, length, concat, join, itoa, get,
}
use eyrie.Config.{Float64, DatasetConfig}
use eyrie.Processor.Times.{times_back}
use eyrie.Processor.Buckets.{SubmissionBucket, Buckets}
use eyrie.Processor.Evaluate.{failed_regions_from_bucket}

pub data HealthState : Type 0 where
  healthy unhealthy_multi_region unhealthy_single_region : HealthState

pub record BucketAnalysis (fl : Float64) : Type 0 where
  pub state : HealthState
  pub failure_rate : fl.F
  pub region_count : ℕ
  pub region_names : List String

module _ (fl : Float64) (cfg : DatasetConfig fl) where
  unfoldable pub analyze_bucket : SubmissionBucket → BucketAnalysis fl
  unfolding failed_regions_from_bucket
  analyze_bucket bucket =
      let rate = fl.div (fl.of_nat bucket.failure_count) (fl.of_nat bucket.total_count) in
      let regions = length bucket.regions in
      let high = fl.ge rate (fl.div cfg.failure_threshold_percent (fl.of_nat 100)) in
      record {
        state =
            if ltb 1 regions && high
            then unhealthy_multi_region
            else if regions == 1 && high
            then unhealthy_single_region
            else healthy;
        failure_rate = rate;
        region_count = regions;
        region_names = failed_regions_from_bucket bucket;
      }

  unfoldable pub analyses_of : Buckets → List ℕ → List (BucketAnalysis fl)
  unfolding analyze_bucket
  analyses_of buckets [] = []
  analyses_of buckets (t ∷ ts) =
      let rest = analyses_of buckets ts in
      elim (get t buckets) [
        | none ↦ rest
        | some bucket ↦ if bucket.total_count == 0 then rest else analyze_bucket bucket ∷ rest
      ]

  abbrev state_of : List (BucketAnalysis fl) → HealthState
  state_of [] = healthy
  state_of (a ∷ _) = a.state

  -- The switch on the newest state and the one before it.
  unfoldable pub report_change : BucketAnalysis fl → HealthState → HealthState → Bool × String
  report_change a unhealthy_multi_region healthy = (
    true,
    concat (
        "High failure rate detected: "
        ∷ fl.format (fl.mul a.failure_rate (fl.of_nat 100))
        ∷ "% failures from "
        ∷ itoa a.region_count
        ∷ " regions ("
        ∷ join ", " a.region_names
        ∷ ")"
        ∷ []),
  )
  report_change a unhealthy_multi_region _ = (false, "")
  report_change a unhealthy_single_region unhealthy_single_region = (
    true,
    concat (
        "High failure rate detected: "
        ∷ fl.format (fl.mul a.failure_rate (fl.of_nat 100))
        ∷ "% failures from single region"
        ∷ []),
  )
  report_change a unhealthy_single_region _ = (false, "")
  report_change a healthy healthy = (false, "")
  report_change a healthy _ = (true, "Monitor has recovered and is now healthy")

  unfoldable pub report_analyses : List (BucketAnalysis fl) → Bool × String
  unfolding report_change
  report_analyses [] = (false, "")
  report_analyses (a ∷ older) = report_change a a.state (state_of older)

  -- The error of the source's result is always nil.
  unfoldable pub analyze_submissions : Buckets → ℕ → ℕ → ℕ → Bool × String
  unfolding analyses_of report_analyses times_back
  analyze_submissions buckets latest earliest interval =
      if ltb latest earliest || interval == 0
      then (false, "")
      else report_analyses (analyses_of buckets (times_back latest earliest interval))
