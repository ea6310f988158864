-- ===== src/Examples/Verdicts.antt =====
-- Runs of the bucket verdicts, and of what is proved of them.

use eyrie.Base.{
  ℕ, ◌+◌, ◌*◌, ◌≤◌, ◌≡◌, refl, ◌↔◌, true, false, ◌||◌, none, some, [], ◌∷◌, arith, ltb, nat_eq,
  string_eq, if◌then◌else◌, length, keep, count, contains, sort, get, put,
}
use eyrie.Monitor.{minute, is_successful_status}
use eyrie.Config.{exact}
use eyrie.Incident.{degraded, local}
use eyrie.Processor.Times.{times_back}
use eyrie.Processor.Times.Range.{times_back_exact}
use eyrie.Processor.Buckets.{
  group_submission_by_minute, SubmissionBucket, make_bucket, region_success,
}
use eyrie.Processor.Buckets.Minutes.{of_minute, bucket_of_minute}
use eyrie.Processor.Evaluate.Newest.{Newest, latest_non_empty_bucket-Newest}
use eyrie.Processor.Buckets.Counts.{
  bucket_verdict, make_bucket-CountsAgree, CountsAgree, from_region, rejected,
}
use eyrie.Processor.Evaluate.{
  latest_non_empty_bucket, failing, failed_regions_from_bucket, evaluate_bucket_incident,
  should_promote_local_degraded,
}
use eyrie.Processor.Evaluate.Promote.{streak, long_enough, promote_exact}
use eyrie.Processor.Evaluate.Verdict.{bucket_status, expected}
use eyrie.Examples.{shop, settings, reports, half_failing, two_minutes}

times_back_exact_example :
    (contains (times_back 190 60 60) 70 ≡ true) ↔ ((k : ℕ) × (60 ≤ 70) × (190 ≡ 70 + k * 60))
times_back_exact_example = times_back_exact 190 60 60 70 (omega arith)

bucket_verdict_example : get "eu" (make_bucket exact settings shop 0 reports).regions ≡ (
    if ltb 0 (count (from_region "eu") reports)
    then some (
        region_success exact settings (record {
          total_count = count (from_region "eu") reports;
          failures = count (rejected shop "eu") reports;
        }))
    else none)
bucket_verdict_example = bucket_verdict exact settings shop 0 reports "eu"

-- Half of the reports of `eu` fail, which reaches the threshold of 50 %.
eu_fails : get "eu" (make_bucket exact settings shop 0 reports).regions ≡ some false
unfolding get make_bucket put is_successful_status
eu_fails = refl

make_bucket-CountsAgree_example :
    CountsAgree exact settings (make_bucket exact settings shop 0 reports)
make_bucket-CountsAgree_example = make_bucket-CountsAgree exact settings shop 0 reports

half_failing-failures : half_failing.failure_count ≡ length (failing half_failing.regions)
unfolding failing
half_failing-failures = refl

bucket_status_example :
    let e =
      evaluate_bucket_incident exact settings half_failing
        (failed_regions_from_bucket half_failing)
        [] in
    (e.status, e.scope) ≡ expected exact settings 1 2
bucket_status_example = bucket_status exact settings half_failing [] refl half_failing-failures

half_failing_is_degraded : expected exact settings 1 2 ≡ (degraded, local)
half_failing_is_degraded = refl

promote_exact_example : should_promote_local_degraded exact settings two_minutes minute 0 minute ≡ (
    false
    || long_enough exact settings two_minutes minute
        (streak exact settings two_minutes (times_back minute 0 minute)))
promote_exact_example =
    promote_exact exact settings two_minutes minute 0 minute (omega arith) (omega arith)

two_minutes_promote :
    should_promote_local_degraded exact settings two_minutes minute 0 minute ≡ true
unfolding should_promote_local_degraded times_back get sort
two_minutes_promote = refl

abbrev turned : SubmissionBucket
turned = record half_failing { regions = ("us", true) ∷ ("eu", false) ∷ [] }

-- With an interval of 60 ns, all of `reports` fall into the one that begins at 60.
bucket_of_minute_example :
    get 60 (group_submission_by_minute exact settings minute reports 60 shop).0 ≡ (
      if ltb 0 (count (of_minute 60 60) reports)
      then some (make_bucket exact settings shop 60 (keep (of_minute 60 60) reports))
      else none)
bucket_of_minute_example = bucket_of_minute exact settings minute reports 60 shop 60

latest_non_empty_bucket-Newest_example :
    Newest two_minutes
      (times_back minute 0 minute)
      (latest_non_empty_bucket two_minutes minute 0 minute)
latest_non_empty_bucket-Newest_example = latest_non_empty_bucket-Newest two_minutes minute 0 minute
