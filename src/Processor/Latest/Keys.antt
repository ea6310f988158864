-- ===== src/Processor/Latest/Keys.antt =====
-- Each category stands once in the breakdown that the verdict carries.
use mathlib.Core.Path.{subst}
use eyrie.Base.{
  ℕ, String, ◌≡◌, refl, sym, ◌⊎◌, inl, inr, Bool, true, false, not, ◌&&◌, ◌||◌, Option, none, some,
  List, [], ◌∷◌, arith, ltb, ◌==◌, nat_eq, string_eq, if◌then◌else◌, Bool-cases, is_empty, keep,
  get, UniqueKeys, put-UniqueKeys,
}
use eyrie.History.{MonitorHistorical}
use eyrie.Config.{Float64, DatasetConfig}
use eyrie.Incident.{Breakdown, IncidentEvaluation, healthy_incident_evaluation, degraded, local}
use eyrie.Processor.Buckets.{SubmissionBucket, Buckets}
use eyrie.Processor.Evaluate.{
  failing, should_promote_local_degraded, evaluate_bucket_incident, failed_regions_from_bucket,
  latest_non_empty_bucket,
}
use eyrie.Processor.Times.{times_back}
use eyrie.Processor.Latest.{
  in_bucket, add_failure, add_failures, sort_regions, bucket_breakdown, breakdown_from,
  build_failure_reasons_breakdown, evaluate_newest, evaluate_found, evaluate_latest_incident,
}

add_failures-UniqueKeys :
    (m : Breakdown) (l : List MonitorHistorical) → UniqueKeys m → UniqueKeys (add_failures m l)
unfolding add_failures add_failure
add_failures-UniqueKeys m [] u = u
add_failures-UniqueKeys m (f ∷ l) u =
    add_failures-UniqueKeys (add_failure m f) l (put-UniqueKeys _ _ m u)

get-sort_regions : (k : String) (m : Breakdown) → get k m ≡ none → get k (sort_regions m) ≡ none
unfolding sort_regions get
get-sort_regions k [] h = refl
get-sort_regions k ((c, r) ∷ m) h = ground (arith, get-sort_regions k m)

sort_regions-UniqueKeys : (m : Breakdown) → UniqueKeys m → UniqueKeys (sort_regions m)
unfolding sort_regions
sort_regions-UniqueKeys [] u = tt
sort_regions-UniqueKeys ((c, r) ∷ m) u = (get-sort_regions c m u.0, sort_regions-UniqueKeys m u.1)

bucket_breakdown-UniqueKeys :
    (t interval : ℕ) (subs : List MonitorHistorical) (bucket : SubmissionBucket)
    → UniqueKeys (bucket_breakdown t interval subs bucket)
unfolding bucket_breakdown
bucket_breakdown-UniqueKeys t interval subs bucket =
    sort_regions-UniqueKeys _
      (add_failures-UniqueKeys [] (keep (in_bucket t interval (failing bucket.regions)) subs) tt)

if-UniqueKeys :
    (b : Bool) (l m : Breakdown) → UniqueKeys l → UniqueKeys m → UniqueKeys (if b then l else m)
if-UniqueKeys true l m u v = u
if-UniqueKeys false l m u v = v

found-UniqueKeys :
    (t interval : ℕ) (subs : List MonitorHistorical) (rest : Breakdown)
    (found : Option SubmissionBucket)
    → UniqueKeys rest
    → UniqueKeys (elim found [
      | none ↦ rest
      | some bucket ↦
          if bucket.failure_count == 0 then rest else bucket_breakdown t interval subs bucket
    ])
found-UniqueKeys t interval subs rest none u = u
found-UniqueKeys t interval subs rest (some bucket) u =
    if-UniqueKeys (bucket.failure_count == 0) rest (bucket_breakdown t interval subs bucket) u
      (bucket_breakdown-UniqueKeys t interval subs bucket)

breakdown_from-UniqueKeys :
    (buckets : Buckets) (subs : List MonitorHistorical) (interval : ℕ) (ts : List ℕ)
    → UniqueKeys (breakdown_from buckets subs interval ts)
unfolding breakdown_from
breakdown_from-UniqueKeys buckets subs interval [] = tt
breakdown_from-UniqueKeys buckets subs interval (t ∷ ts) =
    found-UniqueKeys t interval subs (breakdown_from buckets subs interval ts) (get t buckets)
      (breakdown_from-UniqueKeys buckets subs interval ts)

-- No failure reasons, or those that were handed over.
abbrev Carries : IncidentEvaluation → Breakdown → Type 0
Carries e reasons = (e.failure_reasons_breakdown ≡ []) ⊎ (e.failure_reasons_breakdown ≡ reasons)

Carries-UniqueKeys :
    (e : IncidentEvaluation) (reasons : Breakdown)
    → UniqueKeys reasons
    → Carries e reasons
    → UniqueKeys e.failure_reasons_breakdown
Carries-UniqueKeys e reasons u (inl h) = subst UniqueKeys (sym h) tt
Carries-UniqueKeys e reasons u (inr h) = subst UniqueKeys (sym h) u

if-Carries :
    (b : Bool) (x y : IncidentEvaluation) (reasons : Breakdown)
    → Carries x reasons
    → Carries y reasons
    → Carries (if b then x else y) reasons
if-Carries true x y reasons h k = h
if-Carries false x y reasons h k = k

module _ (fl : Float64) (cfg : DatasetConfig fl) where
  evaluate_bucket_incident-Carries :
      (bucket : SubmissionBucket) (failed : List String) (reasons : Breakdown)
      → Carries (evaluate_bucket_incident fl cfg bucket failed reasons) reasons
  unfolding evaluate_bucket_incident healthy_incident_evaluation
  evaluate_bucket_incident-Carries bucket failed reasons =
      elim (Bool-cases (is_empty failed || bucket.total_count == 0)) [
        | inl h ↦ inl (ground (arith, h))
        | inr h ↦ inr (ground (arith, h))
      ]

  evaluate_newest-Carries :
      (buckets : Buckets) (subs : List MonitorHistorical) (earliest interval t : ℕ)
      (bucket : SubmissionBucket)
      → Carries
          (evaluate_newest fl cfg buckets subs earliest interval (t, bucket))
          (build_failure_reasons_breakdown buckets subs t earliest interval)
  unfolding evaluate_newest healthy_incident_evaluation
  evaluate_newest-Carries buckets subs earliest interval t bucket =
      let failed = failed_regions_from_bucket bucket in
      let reasons = build_failure_reasons_breakdown buckets subs t earliest interval in
      let e = evaluate_bucket_incident fl cfg bucket failed reasons in
      let short =
        e.status == degraded
        && e.scope == local
        && not (should_promote_local_degraded fl cfg buckets t earliest interval) in
      let h = healthy_incident_evaluation in
      if-Carries (is_empty failed) h (if short then h else e) reasons (inl refl) (
        if-Carries short h e reasons (inl refl)
          (evaluate_bucket_incident-Carries bucket failed reasons))

  evaluate_found-UniqueKeys :
      (buckets : Buckets) (subs : List MonitorHistorical) (earliest interval : ℕ)
      (found : Option (ℕ × SubmissionBucket))
      → UniqueKeys
          (evaluate_found fl cfg buckets subs earliest interval found).failure_reasons_breakdown
  unfolding healthy_incident_evaluation build_failure_reasons_breakdown
  evaluate_found-UniqueKeys buckets subs earliest interval none = tt
  evaluate_found-UniqueKeys buckets subs earliest interval (some found) =
      Carries-UniqueKeys (evaluate_newest fl cfg buckets subs earliest interval found) _
        (breakdown_from-UniqueKeys buckets subs interval (times_back found.0 earliest interval))
        (evaluate_newest-Carries buckets subs earliest interval found.0 found.1)

  pub evaluate_latest_incident-UniqueKeys :
      (buckets : Buckets) (subs : List MonitorHistorical) (latest earliest interval : ℕ)
      → UniqueKeys
          (evaluate_latest_incident fl cfg buckets subs latest earliest
            interval).failure_reasons_breakdown
  unfolding evaluate_latest_incident healthy_incident_evaluation
  evaluate_latest_incident-UniqueKeys buckets subs latest earliest interval =
      elim (Bool-cases (is_empty buckets || ltb latest earliest || interval == 0)) [
        | inl h ↦ rw h tt
        | inr h ↦ rw h (
            evaluate_found-UniqueKeys buckets subs earliest interval
              (latest_non_empty_bucket buckets latest earliest interval))
      ]
