-- ===== src/Processor/Evaluate/Verdict.antt =====
-- The verdict on one bucket, from its two counters alone, and from its regions in any order.
use eyrie.Base.{
  insert_sorted_comm, String-discrete, ℕ, ◌+◌, ◌≤◌, String, ◌≡◌, refl, sym, ap, ap₂, ◌∙◌, Bool,
  true, false, List, [], ◌∷◌, Perm, arith, ◌==◌, nat_eq, string_eq, if◌then◌else◌, length, is_empty,
  sort, insert_sorted, Map,
}
use mathlib.Core.List.{Permᴰ}
use mathlib.Core.HLevel.{hedberg}
use mathlib.Core.Logic.{∥∥₁_elim}
use eyrie.Config.{Float64, DatasetConfig}
use eyrie.Incident.{Breakdown, healthy, degraded, down, local, global, healthy_incident_evaluation}
use eyrie.Processor.Buckets.{SubmissionBucket}
use eyrie.Processor.Evaluate.{failing, failed_regions_from_bucket, evaluate_bucket_incident}

abbrev entry : String × Bool → List String → List String
entry r others = if r.1 then others else r.0 ∷ others

sort-entry :
    (r : String × Bool) (l m : List String) → sort l ≡ sort m → sort (entry r l) ≡ sort (entry r m)
unfolding sort
sort-entry (x, true) l m h = h
sort-entry (x, false) l m h = ap (insert_sorted x) h

sort-entry_swap :
    (r s : String × Bool) (l : List String)
    → sort (entry r (entry s l)) ≡ sort (entry s (entry r l))
unfolding sort
sort-entry_swap (x, true) (y, b) l = refl
sort-entry_swap (x, false) (y, true) l = refl
sort-entry_swap (x, false) (y, false) l = insert_sorted_comm x y (sort l)

sort-failing : {l m : Map String Bool} → Permᴰ l m → sort (failing l) ≡ sort (failing m)
unfolding failing
sort-failing Permᴰ.nil = refl
sort-failing (Permᴰ.cons {a = a} {b = b} {l₁ = l} {l₂ = m} e p) =
    sort-entry a _ _ (sort-failing p) ∙ ap (λ r. sort (entry r (failing m))) e
sort-failing (Permᴰ.swap {a = x} {b = y} {l = l} e f) =
    sort-entry_swap x y (failing l) ∙ ap₂ (λ r s. sort (entry r (entry s (failing l)))) f e
sort-failing (Permᴰ.trans p q) = sort-failing p ∙ sort-failing q

-- The failing regions are reported in the same order in whatever order the map lists its regions.
pub failed_regions_from_bucket-Perm :
    (b c : SubmissionBucket)
    → Perm b.regions c.regions
    → failed_regions_from_bucket b ≡ failed_regions_from_bucket c
unfolding failed_regions_from_bucket
failed_regions_from_bucket-Perm b c p =
    ∥∥₁_elim p (hedberg (hlevel String-discrete) _ _) sort-failing

length-insert_sorted : (x : String) (l : List String) → length (insert_sorted x l) ≡ length l + 1
unfolding insert_sorted
length-insert_sorted x [] = omega arith
length-insert_sorted x (y ∷ l) = ground (arith, length-insert_sorted x l)

length-sort : (l : List String) → length (sort l) ≡ length l
unfolding sort
length-sort [] = refl
length-sort (x ∷ l) = omega (arith, length-insert_sorted x (sort l), length-sort l)

is_empty-length : (l : List String) → is_empty l ≡ (length l == 0)
is_empty-length [] = refl
is_empty-length (x ∷ l) = ground arith

length-failing : (m : Map String Bool) → length (failing m) ≤ length m
unfolding failing
length-failing [] = omega arith
length-failing (r ∷ m) = ground (arith, length-failing m)

module _ (fl : Float64) (cfg : DatasetConfig fl) where
  -- The status and the scope that `failures` failing regions out of `total` deserve.
  abbrev pub expected : ℕ → ℕ → String × String
  expected failures total =
      if failures == 0
      then (healthy, healthy)
      else if failures == total
      then (down, (if failures == 1 then local else global))
      else if fl.ge (fl.div (fl.of_nat failures) (fl.of_nat total))
          (fl.div cfg.failure_threshold_percent (fl.of_nat 100))
      then (down, global)
      else (degraded, local)

  verdict_status :
      (bucket : SubmissionBucket) (failed : List String) (reasons : Breakdown)
      → length failed ≤ bucket.total_count
      → let e = evaluate_bucket_incident fl cfg bucket failed reasons in
        (e.status, e.scope) ≡ expected (length failed) bucket.total_count
  unfolding evaluate_bucket_incident healthy_incident_evaluation
  verdict_status bucket [] reasons k = refl
  verdict_status bucket (x ∷ xs) reasons k = ground arith

  -- For a bucket whose counters are right, the status and the scope are those that the two counters
  -- call for: healthy without failures, down when all regions fail (local for a single one) or when the
  -- failure rate reaches the threshold, degraded otherwise.
  pub bucket_status :
      (bucket : SubmissionBucket) (reasons : Breakdown)
      → bucket.total_count ≡ length bucket.regions
      → bucket.failure_count ≡ length (failing bucket.regions)
      → let e =
          evaluate_bucket_incident fl cfg bucket (failed_regions_from_bucket bucket) reasons in
        (e.status, e.scope) ≡ expected bucket.failure_count bucket.total_count
  unfolding evaluate_bucket_incident failed_regions_from_bucket
  bucket_status bucket reasons h k =
      rw (k, sym (length-sort (failing bucket.regions)))
        (verdict_status bucket (sort (failing bucket.regions)) reasons
          (ground (arith, length-failing bucket.regions, length-sort (failing bucket.regions))))
