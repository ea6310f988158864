-- ===== src/Processor/Latest.antt =====
-- `buildFailureReasonsBreakdown` and `evaluateLatestIncident`.
pub mod Keys
use eyrie.Base.{
  ℕ, ◌+◌, String, Bool, not, ◌&&◌, ◌||◌, Option, none, some, List, [], ◌∷◌, ◌++◌, ltb, ◌==◌, nat_eq,
  string_eq, if◌then◌else◌, is_empty, keep, contains, sort, get, put,
}
use eyrie.History.{MonitorHistorical}
use eyrie.Config.{Float64, DatasetConfig}
use eyrie.Incident.{Breakdown, IncidentEvaluation, healthy_incident_evaluation, degraded, local}
use eyrie.Reason.{categorize_failure_reason}
use eyrie.Processor.Times.{times_back}
use eyrie.Processor.Buckets.{SubmissionBucket, Buckets}
use eyrie.Processor.Evaluate.{
  failing, failed_regions_from_bucket, latest_non_empty_bucket, evaluate_bucket_incident,
  should_promote_local_degraded,
}

-- A failed submission of a failed region, in the minute that begins at `t`.
unfoldable pub in_bucket : ℕ → ℕ → List String → MonitorHistorical → Bool
in_bucket t interval failed_regions s =
    not s.success
    && not (ltb s.created_at t)
    && ltb s.created_at (t + interval)
    && contains failed_regions s.region

abbrev text_of : Option String → String
text_of none = ""
text_of (some s) = s

abbrev set_of : Option (List String) → List String
set_of none = []
set_of (some l) = l

abbrev add_to_set : String → List String → List String
add_to_set x l = if contains l x then l else l ++ x ∷ []

-- `categoryRegions[category][failure.Region] = true`
unfoldable pub add_failure : Breakdown → MonitorHistorical → Breakdown
unfolding categorize_failure_reason
add_failure m failure =
    let category = categorize_failure_reason (text_of failure.failure_reason) in
    put category (add_to_set failure.region (set_of (get category m))) m

unfoldable pub add_failures : Breakdown → List MonitorHistorical → Breakdown
unfolding add_failure
add_failures m [] = m
add_failures m (f ∷ rest) = add_failures (add_failure m f) rest

unfoldable pub sort_regions : Breakdown → Breakdown
sort_regions [] = []
sort_regions ((category, regions) ∷ rest) = (category, sort regions) ∷ sort_regions rest

unfoldable pub bucket_breakdown : ℕ → ℕ → List MonitorHistorical → SubmissionBucket → Breakdown
unfolding in_bucket add_failures sort_regions failing
bucket_breakdown t interval submissions bucket =
    sort_regions
      (add_failures [] (keep (in_bucket t interval (failing bucket.regions)) submissions))

-- The loop that stops at the most recent bucket with failures.
unfoldable pub breakdown_from : Buckets → List MonitorHistorical → ℕ → List ℕ → Breakdown
unfolding bucket_breakdown
breakdown_from buckets submissions interval [] = []
breakdown_from buckets submissions interval (t ∷ ts) =
    let rest = breakdown_from buckets submissions interval ts in
    elim (get t buckets) [
      | none ↦ rest
      | some bucket ↦
          if bucket.failure_count == 0 then rest else bucket_breakdown t interval submissions bucket
    ]

unfoldable pub build_failure_reasons_breakdown :
    Buckets → List MonitorHistorical → ℕ → ℕ → ℕ → Breakdown
unfolding breakdown_from times_back
build_failure_reasons_breakdown buckets submissions latest earliest interval =
    breakdown_from buckets submissions interval (times_back latest earliest interval)

module _ (fl : Float64) (cfg : DatasetConfig fl) where
  -- What follows once the newest bucket with a report is known.
  unfoldable pub evaluate_newest :
      Buckets → List MonitorHistorical → ℕ → ℕ → ℕ × SubmissionBucket → IncidentEvaluation
  unfolding build_failure_reasons_breakdown
  evaluate_newest buckets submissions earliest interval (t, bucket) =
      let failed_regions = failed_regions_from_bucket bucket in
      let reasons = build_failure_reasons_breakdown buckets submissions t earliest interval in
      let evaluation = evaluate_bucket_incident fl cfg bucket failed_regions reasons in
      if is_empty failed_regions
      then healthy_incident_evaluation
      else if evaluation.status == degraded
          && evaluation.scope == local
          && not (should_promote_local_degraded fl cfg buckets t earliest interval)
      then healthy_incident_evaluation
      else evaluation

  abbrev pub evaluate_found :
      Buckets → List MonitorHistorical → ℕ → ℕ → Option (ℕ × SubmissionBucket) → IncidentEvaluation
  evaluate_found buckets submissions earliest interval none = healthy_incident_evaluation
  evaluate_found buckets submissions earliest interval (some found) =
      evaluate_newest buckets submissions earliest interval found

  unfoldable pub evaluate_latest_incident :
      Buckets → List MonitorHistorical → ℕ → ℕ → ℕ → IncidentEvaluation
  evaluate_latest_incident buckets submissions latest earliest interval =
      if is_empty buckets || ltb latest earliest || interval == 0
      then healthy_incident_evaluation
      else evaluate_found buckets submissions earliest interval
          (latest_non_empty_bucket buckets latest earliest interval)
