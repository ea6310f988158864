-- ===== src/Processor/Evaluate/Newest.antt =====
-- `latestNonEmptyBucket` finds the newest minute with a report.
use eyrie.Base.{
  ℕ, ◌+◌, ◌*◌, ◌≤◌, ◌<◌, ◌≡◌, refl, sym, ap, ◌∙◌, inl, inr, Bool, true, false, Option, none, some,
  List, [], ◌∷◌, arith, ◌==◌, nat_eq, nat_beq_iff, string_eq, if◌then◌else◌, Bool-cases, contains,
  get,
}
use eyrie.Processor.Times.{times_back}
use eyrie.Processor.Times.Range.{Spaced, times_back-Spaced}
use eyrie.Processor.Buckets.{SubmissionBucket, Buckets}
use eyrie.Processor.Evaluate.{first_non_empty, latest_non_empty_bucket}

-- How many regions reported in the minute.
abbrev pub reports : Option SubmissionBucket → ℕ
reports none = 0
reports (some bucket) = bucket.total_count

-- Of the minutes visited: none has a report, or the one found is one of them, has a report, and no later
-- one does.
abbrev pub Newest : Buckets → List ℕ → Option (ℕ × SubmissionBucket) → Type 0
Newest buckets ts none = (u : ℕ) → contains ts u ≡ true → reports (get u buckets) ≡ 0
Newest buckets ts (some (t, bucket)) =
    (contains ts t ≡ true)
    × (get t buckets ≡ some bucket)
    × (0 < bucket.total_count)
    × ((u : ℕ) → contains ts u ≡ true → t < u → reports (get u buckets) ≡ 0)

Spaced-below :
    (latest interval n u : ℕ) (ts : List ℕ)
    → Spaced latest interval n ts
    → contains ts u ≡ true
    → u + n * interval ≤ latest
Spaced-below latest interval n u [] s h = cc
Spaced-below latest interval n u (t ∷ ts) s h = elim (Bool-cases (t == u)) [
  | inl here ↦ ground (arith, here, s.0)
  | inr there ↦
      let below = Spaced-below latest interval (n + 1) u ts s.1 (ground (arith, h, there)) in
      omega (arith, below)
]

skip :
    (buckets : Buckets) (t u : ℕ) (ts : List ℕ)
    → reports (get t buckets) ≡ 0
    → contains (t ∷ ts) u ≡ true
    → (contains ts u ≡ true → reports (get u buckets) ≡ 0)
    → reports (get u buckets) ≡ 0
skip buckets t u ts silent c later = elim (Bool-cases (t == u)) [
  | inl here ↦
      let eq : t ≡ u = ground (arith, here) in sym (ap (λ v. reports (get v buckets)) eq) ∙ silent
  | inr there ↦ later (ground (arith, c, there))
]

Newest-skip :
    (buckets : Buckets) (t : ℕ) (ts : List ℕ) (o : Option (ℕ × SubmissionBucket))
    → reports (get t buckets) ≡ 0
    → Newest buckets ts o
    → Newest buckets (t ∷ ts) o
Newest-skip buckets t ts none silent h = λ u c. skip buckets t u ts silent c (λ d. h u d)
Newest-skip buckets t ts (some (v, bucket)) silent h =
    (ground (arith, h.0), h.1, h.2, λ u c later. skip buckets t u ts silent c (λ d. h.3 u d later))

if-Newest :
    (buckets : Buckets) (ts : List ℕ) (b : Bool) (x y : Option (ℕ × SubmissionBucket))
    → (b ≡ true → Newest buckets ts x)
    → (b ≡ false → Newest buckets ts y)
    → Newest buckets ts (if b then x else y)
if-Newest buckets ts true x y h k = h refl
if-Newest buckets ts false x y h k = k refl

Newest-step :
    (buckets : Buckets) (t : ℕ) (ts : List ℕ) (rest : Option (ℕ × SubmissionBucket))
    (here : Option SubmissionBucket)
    → get t buckets ≡ here
    → ((u : ℕ) → contains ts u ≡ true → u ≤ t)
    → Newest buckets ts rest
    → Newest buckets (t ∷ ts) (elim here [
      | none ↦ rest
      | some bucket ↦ if bucket.total_count == 0 then rest else some (t, bucket)
    ])
Newest-step buckets t ts rest none e below later =
    Newest-skip buckets t ts rest (ap reports e) later
Newest-step buckets t ts rest (some bucket) e below later =
    if-Newest buckets (t ∷ ts) (bucket.total_count == 0) rest (some (t, bucket))
      (λ z. Newest-skip buckets t ts rest (ap reports e ∙ ground (arith, z)) later)
      (λ z. (
        ground (arith, nat_beq_iff t t),
        e,
        ground (arith, z),
        λ u c after. ground (arith, below u, c, after),
      ))

first_non_empty-Newest :
    (buckets : Buckets) (latest interval n : ℕ) (ts : List ℕ)
    → Spaced latest interval n ts
    → Newest buckets ts (first_non_empty buckets ts)
unfolding first_non_empty
first_non_empty-Newest buckets latest interval n [] s = λ u c. cc
first_non_empty-Newest buckets latest interval n (t ∷ ts) s =
    Newest-step buckets t ts (first_non_empty buckets ts) (get t buckets) refl
      (λ u c. omega (arith, s.0, Spaced-below latest interval (n + 1) u ts s.1 c))
      (first_non_empty-Newest buckets latest interval (n + 1) ts s.1)

-- The search over the minutes of the range, from the latest back, finds nothing exactly when no visited
-- minute has a report, and otherwise finds a visited minute with a report after which no visited minute
-- has one.
pub latest_non_empty_bucket-Newest :
    (buckets : Buckets) (latest earliest interval : ℕ)
    → Newest buckets
        (times_back latest earliest interval)
        (latest_non_empty_bucket buckets latest earliest interval)
unfolding latest_non_empty_bucket
latest_non_empty_bucket-Newest buckets latest earliest interval =
    first_non_empty-Newest buckets latest interval 0 (times_back latest earliest interval)
      (times_back-Spaced latest earliest interval)
