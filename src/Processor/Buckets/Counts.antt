-- ===== src/Processor/Buckets/Counts.antt =====
-- What the buckets hold: each region once, with the verdict on all of its submissions.
use eyrie.Base.{
  ℕ, ◌+◌, String, ◌≡◌, refl, Bool, true, false, not, ◌&&◌, ◌||◌, Option, none, some, List, [], ◌∷◌,
  arith, ltb, ◌==◌, nat_eq, string_eq, str_eq_iff, if◌then◌else◌, length, count, Map, get, put,
  get-put, UniqueKeys, put-UniqueKeys, length-put,
}
use eyrie.Monitor.{Monitor, is_successful_status}
use eyrie.Config.{Float64, DatasetConfig}
use eyrie.History.{MonitorHistorical}
use eyrie.Processor.Buckets.{
  SubmissionBucket, RegionSubmission, or_no_submission, bump, count_submission, count_submissions,
  region_success, add_region, add_regions, make_bucket,
}
use eyrie.Processor.Evaluate.{failing}

-- A submission of the region, and one that the monitor does not accept.
abbrev pub from_region : String → MonitorHistorical → Bool
from_region region s = s.region == region

abbrev pub rejected : Monitor → String → MonitorHistorical → Bool
rejected m region s = s.region == region && not (is_successful_status m s.status_code s.success)

abbrev has_stats : Option RegionSubmission → Bool
has_stats none = false
has_stats (some _) = true

module _ (monitor : Monitor) where
  count_submissions-UniqueKeys :
      (counts : Map String RegionSubmission) (subs : List MonitorHistorical)
      → UniqueKeys counts
      → UniqueKeys (count_submissions monitor counts subs)
  unfolding count_submissions
  count_submissions-UniqueKeys counts [] u = u
  count_submissions-UniqueKeys counts (s ∷ rest) u =
      count_submissions-UniqueKeys (count_submission monitor counts s) rest
        (unfold count_submission in put-UniqueKeys s.region _ counts u)

  get-count_submission :
      (region : String) (counts : Map String RegionSubmission) (s : MonitorHistorical)
      → get region (count_submission monitor counts s) ≡ (
          if s.region == region
          then some (bump monitor (or_no_submission (get region counts)) s)
          else get region counts)
  unfolding count_submission
  get-count_submission region counts s = ground (
    arith,
    get-put s.region region (bump monitor (or_no_submission (get s.region counts)) s) counts,
    str_eq_iff s.region region,
  )

  count_one :
      (region : String) (counts : Map String RegionSubmission) (s : MonitorHistorical)
      → ((or_no_submission (get region (count_submission monitor counts s))).total_count
          ≡ (or_no_submission (get region counts)).total_count
            + count (from_region region) (s ∷ []))
        × ((or_no_submission (get region (count_submission monitor counts s))).failures
            ≡ (or_no_submission (get region counts)).failures
              + count (rejected monitor region) (s ∷ []))
        × (has_stats (get region (count_submission monitor counts s))
            ≡ (has_stats (get region counts) || from_region region s))
  count_one region counts s = rw get-count_submission (unfold bump in ground arith)

  count_all :
      (region : String) (counts : Map String RegionSubmission) (subs : List MonitorHistorical)
      → ((or_no_submission (get region (count_submissions monitor counts subs))).total_count
          ≡ (or_no_submission (get region counts)).total_count + count (from_region region) subs)
        × ((or_no_submission (get region (count_submissions monitor counts subs))).failures
            ≡ (or_no_submission (get region counts)).failures
              + count (rejected monitor region) subs)
        × (has_stats (get region (count_submissions monitor counts subs))
            ≡ (has_stats (get region counts) || ltb 0 (count (from_region region) subs)))
  unfolding count_submissions
  count_all region counts [] = ground arith
  count_all region counts (s ∷ rest) =
      ground (
        arith,
        count_one region counts s,
        count_all region (count_submission monitor counts s) rest,
      )

  -- The statistics of a region, counted from the submissions alone.
  abbrev stats_of : String → List MonitorHistorical → RegionSubmission
  stats_of region subs = record {
    total_count = count (from_region region) subs;
    failures = count (rejected monitor region) subs;
  }

  get-count_submissions :
      (region : String) (subs : List MonitorHistorical)
      → get region (count_submissions monitor [] subs)
        ≡ (if ltb 0 (count (from_region region) subs) then some (stats_of region subs) else none)
  unfolding get
  get-count_submissions region subs = ground (arith, count_all region [] subs)

module _ (fl : Float64) (cfg : DatasetConfig fl) where
  abbrev verdict : Option RegionSubmission → Option Bool
  verdict none = none
  verdict (some stats) = some (region_success fl cfg stats)

  abbrev or_before : Option Bool → Option Bool → Option Bool
  or_before none b = b
  or_before (some v) b = some v

  get-add_regions :
      (region : String) (b : SubmissionBucket) (entries : Map String RegionSubmission)
      → UniqueKeys entries
      → get region (add_regions fl cfg b entries).regions
        ≡ or_before (verdict (get region entries)) (get region b.regions)
  unfolding add_regions get
  get-add_regions region b [] u = refl
  get-add_regions region b ((r, stats) ∷ rest) u = ground (
    arith,
    get-add_regions region (add_region fl cfg b (r, stats)) rest u.1,
    get-put r region (region_success fl cfg stats) b.regions,
    str_eq_iff r region,
  )

  -- The counters agree with the map of verdicts.
  abbrev pub CountsAgree : SubmissionBucket → Type 0
  CountsAgree b =
      (b.total_count ≡ length b.regions) × (b.failure_count ≡ length (failing b.regions))

  length-failing-put :
      (region : String) (v : Bool) (m : Map String Bool)
      → get region m ≡ none
      → length (failing (put region v m)) ≡ length (failing m) + (if v then 0 else 1)
  unfolding failing get put
  length-failing-put region v [] h = ground arith
  length-failing-put region v ((r, w) ∷ m) h = ground (arith, length-failing-put region v m)

  add_region-CountsAgree :
      (b : SubmissionBucket) (region : String) (stats : RegionSubmission)
      → get region b.regions ≡ none
      → CountsAgree b
      → CountsAgree (add_region fl cfg b (region, stats))
  unfolding add_region
  add_region-CountsAgree b region stats h c = ground (
    arith,
    length-put region (region_success fl cfg stats) b.regions,
    length-failing-put region (region_success fl cfg stats) b.regions,
  )

  -- No entry's region has a verdict yet.
  abbrev NoneYet : Map String Bool → Map String RegionSubmission → Type 0
  NoneYet m [] = Unit
  NoneYet m ((r, _) ∷ rest) = (get r m ≡ none) × NoneYet m rest

  put-NoneYet :
      (region : String) (v : Bool) (m : Map String Bool) (entries : Map String RegionSubmission)
      → get region entries ≡ none
      → NoneYet m entries
      → NoneYet (put region v m) entries
  unfolding get
  put-NoneYet region v m [] h n = tt
  put-NoneYet region v m ((r, st) ∷ rest) h n = (
    ground (arith, get-put region r v m, str_eq_iff region r, str_eq_iff r region),
    put-NoneYet region v m rest (ground arith) n.1,
  )

  add_regions-CountsAgree :
      (b : SubmissionBucket) (entries : Map String RegionSubmission)
      → UniqueKeys entries
      → NoneYet b.regions entries
      → CountsAgree b
      → CountsAgree (add_regions fl cfg b entries)
  unfolding add_regions
  add_regions-CountsAgree b [] u n c = c
  add_regions-CountsAgree b ((r, st) ∷ rest) u n c =
      add_regions-CountsAgree (add_region fl cfg b (r, st)) rest u.1
        (unfold add_region in put-NoneYet r (region_success fl cfg st) b.regions rest u.0 n.1)
        (add_region-CountsAgree b r st n.0 c)

  NoneYet-empty : (entries : Map String RegionSubmission) → NoneYet [] entries
  unfolding get
  NoneYet-empty [] = tt
  NoneYet-empty ((r, st) ∷ rest) = (refl, NoneYet-empty rest)

  get-empty : (region : String) → get {V = Bool} region [] ≡ none
  unfolding get
  get-empty region = refl

  -- The bucket of a minute gives a region a verdict exactly when it has a submission there, and the
  -- verdict is the threshold test on the number of its submissions and of those not accepted.
  pub bucket_verdict :
      (monitor : Monitor) (t : ℕ) (subs : List MonitorHistorical) (region : String)
      → get region (make_bucket fl cfg monitor t subs).regions ≡ (
          if ltb 0 (count (from_region region) subs)
          then some (
              region_success fl cfg (record {
                total_count = count (from_region region) subs;
                failures = count (rejected monitor region) subs;
              }))
          else none)
  unfolding make_bucket
  bucket_verdict monitor t subs region = ground (
    arith,
    get-add_regions region
        (record { timestamp_minute = t; regions = []; failure_count = 0; total_count = 0 })
        (count_submissions monitor [] subs) (count_submissions-UniqueKeys monitor [] subs tt),
    get-count_submissions monitor region subs,
    get-empty region,
  )

  -- In the bucket of a minute, `total_count` is the number of regions that reported and
  -- `failure_count` the number of those without success.
  pub make_bucket-CountsAgree :
      (monitor : Monitor) (t : ℕ) (subs : List MonitorHistorical)
      → CountsAgree (make_bucket fl cfg monitor t subs)
  unfolding make_bucket
  make_bucket-CountsAgree monitor t subs =
      add_regions-CountsAgree
        (record { timestamp_minute = t; regions = []; failure_count = 0; total_count = 0 })
        (count_submissions monitor [] subs) (count_submissions-UniqueKeys monitor [] subs tt)
        (NoneYet-empty (count_submissions monitor [] subs)) (unfold failing in (refl, refl))
