-- ===== src/Incident/Stored.antt =====
-- An evaluation that was stored and read back is `Equal` to what was stored.
use eyrie.Base.{
  String, ◌≡◌, refl, sym, ◌⊎◌, inl, inr, true, false, ◌||◌, none, some, List, [], ◌∷◌, arith, ◌==◌,
  nat_eq, string_eq, str_eq_iff, nat_beq_iff, Bool-cases, length, is_empty, trim_space, sort,
  sort-sort, get, equality_refl, UniqueKeys,
}
use eyrie.Incident.{
  Breakdown, IncidentEvaluation, JsonCodec, same_texts, same_categories, equal, regions_json,
  parse_regions_json, failure_reasons_json, parse_failure_reasons_json,
}

same_texts_refl : (l : List String) → same_texts l l ≡ true
unfolding same_texts
same_texts_refl [] = refl
same_texts_refl (x ∷ l) = ground (arith, equality_refl x, same_texts_refl l)

-- Every entry of the second map is what the first one holds under its key.
abbrev Agrees : Breakdown → Breakdown → Type 0
Agrees big [] = Unit
Agrees big ((k, v) ∷ m) = (get k big ≡ some v) × Agrees big m

Agrees-cons :
    (k : String) (v : List String) (big m : Breakdown)
    → get k big ≡ none
    → Agrees big m
    → Agrees ((k, v) ∷ big) m
unfolding get
Agrees-cons k v big [] h a = tt
Agrees-cons k v big ((j, w) ∷ m) h a = (ground (arith, str_eq_iff k j), Agrees-cons k v big m h a.1)

Agrees-self : (m : Breakdown) → UniqueKeys m → Agrees m m
Agrees-self [] u = tt
Agrees-self ((k, v) ∷ m) u =
    (unfold get in ground (arith, equality_refl k), Agrees-cons k v m m u.0 (Agrees-self m u.1))

same_categories-Agrees : (big m : Breakdown) → Agrees big m → same_categories m big ≡ true
unfolding same_categories
same_categories-Agrees big [] a = refl
same_categories-Agrees big ((k, v) ∷ m) a = ground (
  arith,
  same_categories-Agrees big m,
  same_texts_refl (sort v),
  nat_beq_iff (length v) (length v),
)

-- A text, as `encoding/json` writes it, that is neither blank nor null nor padded.
pub record IsPlain (text : String) : Type 0 where
  pub trimmed : trim_space text ≡ text
  pub present : (text == "" || text == "{}" || text == "null") ≡ false

-- What `encoding/json` does with the two values of an evaluation: an empty list is marshalled to null,
-- since the source marshals a nil slice; any other list, and a breakdown that is not empty, is marshalled
-- to a plain text that unmarshals to the value.
pub record JsonRoundTrip (json : JsonCodec) (e : IncidentEvaluation) : Type 0 where
  pub regions_text : String
  pub regions_marshal : json.marshal_texts (sort e.affected_regions) ≡ some regions_text
  pub regions_back :
      ((sort e.affected_regions ≡ []) × (regions_text ≡ "null"))
      ⊎ (IsPlain regions_text
          × (json.unmarshal_texts regions_text ≡ some (sort e.affected_regions)))
  pub reasons_back :
      is_empty e.failure_reasons_breakdown ≡ false
      → (text : String) × IsPlain text
        × (json.marshal_breakdown e.failure_reasons_breakdown ≡ some text)
        × (json.unmarshal_breakdown text ≡ some e.failure_reasons_breakdown)

nil_of_is_empty : (m : Breakdown) → is_empty m ≡ true → m ≡ []
nil_of_is_empty [] h = refl
nil_of_is_empty (x ∷ m) h = cc

plain_regions : (text : String) → IsPlain text → (text == "" || text == "null") ≡ false
plain_regions text p = ground (arith, p.present)

module _ (json : JsonCodec) (e : IncidentEvaluation) (trip : JsonRoundTrip json e) where
  pub parse-regions_json : parse_regions_json json (regions_json json e) ≡ sort e.affected_regions
  unfolding parse_regions_json regions_json
  parse-regions_json = elim trip.regions_back [
    | inl (empty, null) ↦ rw trip.regions_marshal (rw null (unfold trim_space in sym empty))
    | inr (plain, back) ↦ rw trip.regions_marshal (
        rw plain.trimmed
          (rw (plain_regions trip.regions_text plain) (rw back (sort-sort e.affected_regions))))
  ]

  pub parse-failure_reasons_json :
      parse_failure_reasons_json json (failure_reasons_json json e) ≡ e.failure_reasons_breakdown
  unfolding parse_failure_reasons_json failure_reasons_json
  parse-failure_reasons_json = elim (Bool-cases (is_empty e.failure_reasons_breakdown)) [
    | inl nothing ↦ rw nothing (unfold trim_space in sym (nil_of_is_empty _ nothing))
    | inr present ↦
        let (text, plain, marshal, back) = trip.reasons_back present in
        rw present (rw marshal (rw plain.trimmed (rw plain.present (rw back refl))))
  ]

-- An evaluation is equal to itself with its regions sorted.
pub equal_sorted :
    (e : IncidentEvaluation)
    → UniqueKeys e.failure_reasons_breakdown
    → equal (record e { affected_regions = sort e.affected_regions }) e ≡ true
unfolding equal
equal_sorted e u =
    let same = same_categories-Agrees _ _ (Agrees-self e.failure_reasons_breakdown u) in
    rw sort-sort (
      ground (
        arith,
        equality_refl e.status,
        equality_refl e.scope,
        equality_refl e.reason,
        same_texts_refl (sort e.affected_regions),
        nat_beq_iff (length e.failure_reasons_breakdown) (length e.failure_reasons_breakdown),
        same,
      ))
