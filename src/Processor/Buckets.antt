-- ===== src/Processor/Buckets.antt =====
-- `groupSubmissionByMinute`: submissions per minute, and per minute the verdict of each region.
pub mod Counts
pub mod Minutes
use eyrie.Base.{
  ℕ, ◌+◌, ◌-◌, ◌*◌, String, Bool, not, Option, none, some, List, [], ◌∷◌, ◌++◌, ltb, nat_eq,
  string_eq, if◌then◌else◌, Map, get, put,
}
use eyrie.Monitor.{Monitor, is_successful_status, day}
use eyrie.History.{MonitorHistorical}
use eyrie.Config.{Float64, DatasetConfig}
use eyrie.Processor.Times.{truncate}

pub record SubmissionBucket : Type 0 where
  pub timestamp_minute : ℕ
  pub regions : Map String Bool
  pub failure_count : ℕ
  pub total_count : ℕ

abbrev pub Buckets : Type 0
Buckets = Map ℕ SubmissionBucket

pub record RegionSubmission : Type 0 where
  pub total_count : ℕ
  pub failures : ℕ

abbrev pub or_empty {ℓ} : {A : Type ℓ} → Option (List A) → List A
or_empty none = []
or_empty (some l) = l

-- The first loop: the raw buckets with the earliest and the latest of their times.
pub record RawBuckets : Type 0 where
  pub raw : Map ℕ (List MonitorHistorical)
  pub earliest_time : ℕ
  pub latest_time : ℕ

unfoldable pub add_raw : ℕ → RawBuckets → MonitorHistorical → RawBuckets
unfolding truncate
add_raw interval r submission =
    let t = truncate submission.created_at interval in
    record {
      raw = put t (or_empty (get t r.raw) ++ submission ∷ []) r.raw;
      earliest_time = if ltb t r.earliest_time then t else r.earliest_time;
      latest_time = if ltb r.latest_time t then t else r.latest_time;
    }

unfoldable pub add_all_raw : ℕ → RawBuckets → List MonitorHistorical → RawBuckets
unfolding add_raw
add_all_raw interval r [] = r
add_all_raw interval r (s ∷ rest) = add_all_raw interval (add_raw interval r s) rest

abbrev or_no_submission : Option RegionSubmission → RegionSubmission
or_no_submission none = record { total_count = 0; failures = 0 }
or_no_submission (some s) = s

-- `existing.failures++` for a failure, and `existing.totalCount++`
unfoldable pub bump : Monitor → RegionSubmission → MonitorHistorical → RegionSubmission
bump monitor existing submission =
    let failed = not (is_successful_status monitor submission.status_code submission.success) in
    record {
      total_count = existing.total_count + 1;
      failures = if failed then existing.failures + 1 else existing.failures;
    }

unfoldable pub count_submission :
    Monitor → Map String RegionSubmission → MonitorHistorical → Map String RegionSubmission
unfolding bump
count_submission monitor counts submission =
    let existing = or_no_submission (get submission.region counts) in
    put submission.region (bump monitor existing submission) counts

unfoldable pub count_submissions :
    Monitor → Map String RegionSubmission → List MonitorHistorical → Map String RegionSubmission
unfolding count_submission
count_submissions monitor counts [] = counts
count_submissions monitor counts (s ∷ rest) =
    count_submissions monitor (count_submission monitor counts s) rest

module _ (fl : Float64) (cfg : DatasetConfig fl) where
  -- A region succeeds while its failure rate is below the per-region threshold.
  unfoldable pub region_success : RegionSubmission → Bool
  region_success stats =
      fl.lt (fl.div (fl.of_nat stats.failures) (fl.of_nat stats.total_count))
        (fl.div cfg.per_region_failure_threshold_percent (fl.of_nat 100))

  unfoldable pub add_region : SubmissionBucket → String × RegionSubmission → SubmissionBucket
  unfolding region_success
  add_region b (region, stats) =
      let success = region_success stats in
      record b {
        regions = put region success b.regions;
        total_count = b.total_count + 1;
        failure_count = if success then b.failure_count else b.failure_count + 1;
      }

  unfoldable pub add_regions : SubmissionBucket → Map String RegionSubmission → SubmissionBucket
  unfolding add_region
  add_regions b [] = b
  add_regions b (entry ∷ rest) = add_regions (add_region b entry) rest

  unfoldable pub make_bucket : Monitor → ℕ → List MonitorHistorical → SubmissionBucket
  unfolding add_regions count_submissions
  make_bucket monitor t submissions =
      add_regions
        (record { timestamp_minute = t; regions = []; failure_count = 0; total_count = 0 })
        (count_submissions monitor [] submissions)

  unfoldable pub make_buckets : Monitor → Map ℕ (List MonitorHistorical) → Buckets
  unfolding make_bucket
  make_buckets monitor [] = []
  make_buckets monitor ((t, submissions) ∷ rest) =
      (t, make_bucket monitor t submissions) ∷ make_buckets monitor rest

  -- The buckets, the earliest and the latest time; `now` is read once.
  unfoldable pub group_submission_by_minute :
      ℕ → List MonitorHistorical → ℕ → Monitor → Buckets × ℕ × ℕ
  unfolding add_all_raw make_buckets
  group_submission_by_minute now submissions interval monitor =
      let century = 100 * 365 * day in
      let r =
        add_all_raw interval
          (record { raw = []; earliest_time = now + century; latest_time = now - century })
          submissions in
      (make_buckets monitor r.raw, r.earliest_time, r.latest_time)
