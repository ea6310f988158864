-- ===== src/Processor/Buckets/Minutes.antt =====
-- Which submissions each bucket is made of, and which minutes have one.
use mathlib.Core.List.{append-nil, append_assoc}
use eyrie.Base.{
  ℕ, ◌+◌, ◌-◌, ◌*◌, ◌≡◌, refl, sym, ap, ◌∙◌, inl, inr, Bool, true, false, ◌||◌, Option, none, some,
  List, [], ◌∷◌, ◌++◌, arith, ltb, ◌==◌, nat_eq, string_eq, if◌then◌else◌, Bool-cases, keep, count,
  Map, get, put, get-put,
}
use eyrie.Monitor.{Monitor, day}
use eyrie.History.{MonitorHistorical}
use eyrie.Config.{Float64, DatasetConfig}
use eyrie.Processor.Times.{truncate}
use eyrie.Processor.Buckets.{
  SubmissionBucket, RawBuckets, or_empty, add_raw, add_all_raw, make_bucket, make_buckets,
  group_submission_by_minute,
}

-- The submission is of the minute that begins at `t`.
abbrev pub of_minute : ℕ → ℕ → MonitorHistorical → Bool
of_minute interval t s = truncate s.created_at interval == t

abbrev found : Option (List MonitorHistorical) → Bool
found none = false
found (some _) = true

minute_put :
    (k t : ℕ) (s : MonitorHistorical) (raw : Map ℕ (List MonitorHistorical))
    → (or_empty (get t (put k (or_empty (get k raw) ++ s ∷ []) raw))
        ≡ (if k == t then or_empty (get t raw) ++ s ∷ [] else or_empty (get t raw)))
      × (found (get t (put k (or_empty (get k raw) ++ s ∷ []) raw)) ≡ (found (get t raw) || k == t))
minute_put k t s raw =
    let g = get-put k t (or_empty (get k raw) ++ s ∷ []) raw in
    elim (Bool-cases (k == t)) [
      | inl same ↦
          let eq : k ≡ t = ground (arith, same) in
          rw (g, same) (ap (λ j. or_empty (get j raw) ++ s ∷ []) eq, ground arith)
      | inr other ↦ rw (g, other) (refl, ground arith)
    ]

add_raw-minute :
    (interval t : ℕ) (r : RawBuckets) (s : MonitorHistorical)
    → (or_empty (get t (add_raw interval r s).raw) ≡ (
        if of_minute interval t s
        then or_empty (get t r.raw) ++ s ∷ []
        else or_empty (get t r.raw)))
      × (found (get t (add_raw interval r s).raw) ≡ (found (get t r.raw) || of_minute interval t s))
unfolding add_raw
add_raw-minute interval t r s = minute_put (truncate s.created_at interval) t s r.raw

if_append :
    (b : Bool) (l rest : List MonitorHistorical) (s : MonitorHistorical)
    → (if b then l ++ s ∷ [] else l) ++ rest ≡ l ++ (if b then s ∷ rest else rest)
if_append true l rest s = append_assoc l (s ∷ []) rest
if_append false l rest s = refl

add_all_raw-minute :
    (interval t : ℕ) (r : RawBuckets) (subs : List MonitorHistorical)
    → (or_empty (get t (add_all_raw interval r subs).raw)
        ≡ or_empty (get t r.raw) ++ keep (of_minute interval t) subs)
      × (found (get t (add_all_raw interval r subs).raw)
          ≡ (found (get t r.raw) || ltb 0 (count (of_minute interval t) subs)))
unfolding add_all_raw
add_all_raw-minute interval t r [] = (sym (append-nil (or_empty (get t r.raw))), ground arith)
add_all_raw-minute interval t r (s ∷ subs) =
    let later = add_all_raw-minute interval t (add_raw interval r s) subs in
    let first = add_raw-minute interval t r s in
    (
      later.0
          ∙ ap (λ l. l ++ keep (of_minute interval t) subs) first.0
          ∙ if_append (of_minute interval t s) (or_empty (get t r.raw))
              (keep (of_minute interval t) subs) s,
      ground (arith, later.1, first.1),
    )

module _ (fl : Float64) (cfg : DatasetConfig fl) where
  abbrev made : Monitor → ℕ → Option (List MonitorHistorical) → Option SubmissionBucket
  made monitor t none = none
  made monitor t (some subs) = some (make_bucket fl cfg monitor t subs)

  get-make_buckets :
      (monitor : Monitor) (t : ℕ) (raw : Map ℕ (List MonitorHistorical))
      → get t (make_buckets fl cfg monitor raw) ≡ made monitor t (get t raw)
  unfolding make_buckets get
  get-make_buckets monitor t [] = refl
  get-make_buckets monitor t ((k, subs) ∷ raw) = elim (Bool-cases (k == t)) [
    | inl same ↦
        let eq : k ≡ t = ground (arith, same) in
        rw same (ap (λ j. some (make_bucket fl cfg monitor j subs)) eq)
    | inr other ↦ rw other (get-make_buckets monitor t raw)
  ]

  made_if :
      (monitor : Monitor) (t : ℕ) (o : Option (List MonitorHistorical))
      (subs : List MonitorHistorical) (b : Bool)
      → or_empty o ≡ subs
      → found o ≡ b
      → made monitor t o ≡ (if b then some (make_bucket fl cfg monitor t subs) else none)
  made_if monitor t none subs b h k = rw⁻¹ k refl
  made_if monitor t (some l) subs b h k = rw⁻¹ k (ap (λ r. some (make_bucket fl cfg monitor t r)) h)

  -- A minute has a bucket exactly if a submission falls into it, and the bucket is made of all the
  -- submissions of that minute, in their order, and of no others.
  pub bucket_of_minute :
      (now : ℕ) (subs : List MonitorHistorical) (interval : ℕ) (monitor : Monitor) (t : ℕ)
      → get t (group_submission_by_minute fl cfg now subs interval monitor).0 ≡ (
          if ltb 0 (count (of_minute interval t) subs)
          then some (make_bucket fl cfg monitor t (keep (of_minute interval t) subs))
          else none)
  unfolding group_submission_by_minute get
  bucket_of_minute now subs interval monitor t =
      let start : RawBuckets = record {
        raw = [];
        earliest_time = now + 100 * 365 * day;
        latest_time = now - 100 * 365 * day;
      } in
      let minutes = add_all_raw-minute interval t start subs in
      get-make_buckets monitor t (add_all_raw interval start subs).raw
      ∙ made_if monitor t (get t (add_all_raw interval start subs).raw)
          (keep (of_minute interval t) subs) (ltb 0 (count (of_minute interval t) subs)) minutes.0
          minutes.1
