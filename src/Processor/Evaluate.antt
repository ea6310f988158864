-- ===== src/Processor/Evaluate.antt =====
-- `evaluateLatestIncident` and what it calls: the verdict on the newest bucket.
pub mod Newest
pub mod Promote
pub mod Verdict
use eyrie.Base.{
  ℕ, ◌+◌, ◌-◌, ◌*◌, String, Bool, true, false, not, ◌&&◌, ◌||◌, Option, none, some, List, [], ◌∷◌,
  ltb, leb, ◌==◌, nat_eq, string_eq, if◌then◌else◌, length, is_empty, concat, join, itoa, sort, Map,
  get,
}
use eyrie.Monitor.{minute}
use eyrie.Config.{Float64, DatasetConfig}
use eyrie.Incident.{
  Breakdown, IncidentEvaluation, healthy_incident_evaluation, degraded, down, local, global,
}
use eyrie.Processor.Times.{times_back}
use eyrie.Processor.Buckets.{SubmissionBucket, Buckets}

-- The range over `bucket.Regions` that keeps the regions without success.
unfoldable pub failing : Map String Bool → List String
failing [] = []
failing ((region, success) ∷ rest) =
    let others = failing rest in if success then others else region ∷ others

unfoldable pub failed_regions_from_bucket : SubmissionBucket → List String
unfolding failing
failed_regions_from_bucket bucket = sort (failing bucket.regions)

unfoldable pub first_non_empty : Buckets → List ℕ → Option (ℕ × SubmissionBucket)
first_non_empty buckets [] = none
first_non_empty buckets (t ∷ ts) =
    let rest = first_non_empty buckets ts in
    elim (get t buckets) [
      | none ↦ rest
      | some bucket ↦ if bucket.total_count == 0 then rest else some (t, bucket)
    ]

unfoldable pub latest_non_empty_bucket : Buckets → ℕ → ℕ → ℕ → Option (ℕ × SubmissionBucket)
unfolding first_non_empty
latest_non_empty_bucket buckets latest earliest interval =
    first_non_empty buckets (times_back latest earliest interval)

module _ (fl : Float64) (cfg : DatasetConfig fl) where
  unfoldable pub evaluate_bucket_incident :
      SubmissionBucket → List String → Breakdown → IncidentEvaluation
  evaluate_bucket_incident bucket failed_regions reasons =
      let failures = length failed_regions in
      let total = bucket.total_count in
      let failure_rate = fl.div (fl.of_nat failures) (fl.of_nat total) in
      let names = join ", " failed_regions in
      if is_empty failed_regions || total == 0
      then healthy_incident_evaluation
      else if total == failures
      then record {
        status = down;
        scope = if ltb 1 total then global else local;
        reason = concat ("Probe failures detected in all reporting regions (" ∷ names ∷ ")" ∷ []);
        affected_regions = failed_regions;
        failure_reasons_breakdown = reasons;
      }
      else if ltb 1 total
          && fl.ge failure_rate (fl.div cfg.failure_threshold_percent (fl.of_nat 100))
      then record {
        status = down;
        scope = global;
        reason = concat (
            "Multi-region outage detected across "
            ∷ itoa failures
            ∷ "/"
            ∷ itoa total
            ∷ " regions ("
            ∷ names
            ∷ ")"
            ∷ []);
        affected_regions = failed_regions;
        failure_reasons_breakdown = reasons;
      }
      else record {
        status = degraded;
        scope = local;
        reason = concat ("Regional degradation detected in " ∷ names ∷ []);
        affected_regions = failed_regions;
        failure_reasons_breakdown = reasons;
      }

  -- The test of the promotion loop: the bucket on its own is degraded in some regions.
  unfoldable pub is_local_degraded : SubmissionBucket → Bool
  unfolding evaluate_bucket_incident failed_regions_from_bucket
  is_local_degraded bucket =
      let evaluation = evaluate_bucket_incident bucket (failed_regions_from_bucket bucket) [] in
      evaluation.status == degraded && evaluation.scope == local

  -- A bucket that the streak of degraded minutes goes on with.
  unfoldable pub continues_streak : Option SubmissionBucket → Bool
  unfolding is_local_degraded
  continues_streak none = false
  continues_streak (some bucket) = not (bucket.total_count == 0) && is_local_degraded bucket

  -- The loop of `shouldPromoteLocalDegraded`, with `streakCount` so far.
  unfoldable pub promote_from : Buckets → ℕ → ℕ → ℕ → List ℕ → Bool
  unfolding continues_streak
  promote_from buckets latest interval streak [] = false
  promote_from buckets latest interval streak (t ∷ ts) =
      let consecutive = cfg.degraded_threshold_consecutive_buckets in
      let duration = cfg.degraded_threshold_minutes * minute in
      let rest = promote_from buckets latest interval (streak + 1) ts in
      if not (continues_streak (get t buckets))
      then false
      else if ltb 0 consecutive && leb consecutive (streak + 1)
      then true
      else if ltb 0 duration && leb duration (latest - t + interval)
      then true
      else rest

  unfoldable pub should_promote_local_degraded : Buckets → ℕ → ℕ → ℕ → Bool
  unfolding promote_from
  should_promote_local_degraded buckets latest earliest interval =
      let consecutive = cfg.degraded_threshold_consecutive_buckets in
      let duration = cfg.degraded_threshold_minutes * minute in
      if ltb latest earliest || interval == 0
      then false
      else if consecutive == 0 && duration == 0
      then true
      else promote_from buckets latest interval 0 (times_back latest earliest interval)
