-- ===== src/Incident.antt =====
-- incident.go: what the processor concludes about a monitor, and its text forms.
-- `encoding/json` enters as a codec: the four functions that the file calls, `none` for an error.
pub mod Stored
use eyrie.Base.{
  String, Bool, true, false, not, ◌&&◌, ◌||◌, Option, none, some, List, [], ◌∷◌, ◌==◌, nat_eq,
  string_eq, if◌then◌else◌, length, is_empty, concat, trim_space, sort, Map, get,
}
use eyrie.Monitor.{Monitor}

abbrev pub healthy : String
healthy = "healthy"

abbrev pub degraded : String
degraded = "degraded"

abbrev pub down : String
down = "down"

abbrev pub local : String
local = "local"

abbrev pub global : String
global = "global"

abbrev pub programmatic : String
programmatic = "programmatic"

abbrev pub investigating : String
investigating = "investigating"

abbrev pub resolved : String
resolved = "resolved"

-- A category of failures, with the regions in which it was seen.
abbrev pub Breakdown : Type 0
Breakdown = Map String (List String)

pub record IncidentEvaluation : Type 0 where
  pub status : String
  pub scope : String
  pub reason : String
  pub affected_regions : List String
  pub failure_reasons_breakdown : Breakdown

unfoldable pub healthy_incident_evaluation : IncidentEvaluation
healthy_incident_evaluation = record {
  status = healthy;
  scope = healthy;
  reason = "";
  affected_regions = [];
  failure_reasons_breakdown = [];
}

-- `slices.Equal`
unfoldable pub same_texts : List String → List String → Bool
same_texts [] [] = true
same_texts [] (_ ∷ _) = false
same_texts (_ ∷ _) [] = false
same_texts (x ∷ xs) (y ∷ ys) = x == y && same_texts xs ys

-- One category of the left side against the right side.
same_category : Option (List String) → List String → Bool
unfolding same_texts
same_category none regions = false
same_category (some other) regions =
    length regions == length other && same_texts (sort regions) (sort other)

-- The loop over the left side's categories.
unfoldable pub same_categories : Breakdown → Breakdown → Bool
unfolding same_category
same_categories [] other = true
same_categories ((category, regions) ∷ rest) other =
    same_category (get category other) regions && same_categories rest other

unfoldable pub equal : IncidentEvaluation → IncidentEvaluation → Bool
unfolding same_texts same_categories
equal e other =
    e.status == other.status
    && e.scope == other.scope
    && e.reason == other.reason
    && same_texts (sort e.affected_regions) (sort other.affected_regions)
    && length e.failure_reasons_breakdown == length other.failure_reasons_breakdown
    && same_categories e.failure_reasons_breakdown other.failure_reasons_breakdown

pub record JsonCodec : Type 0 where
  pub marshal_texts : List String → Option String
  pub unmarshal_texts : String → Option (List String)
  pub marshal_breakdown : Breakdown → Option String
  pub unmarshal_breakdown : String → Option Breakdown

abbrev text_or : Option String → String → String
text_or none d = d
text_or (some s) d = s

abbrev list_or {ℓ} : {A : Type ℓ} → Option (List A) → List A
list_or none = []
list_or (some l) = l

module _ (json : JsonCodec) where
  open json use {marshal_texts, unmarshal_texts, marshal_breakdown, unmarshal_breakdown}

  unfoldable pub regions_json : IncidentEvaluation → String
  regions_json e = text_or (marshal_texts (sort e.affected_regions)) "[]"

  unfoldable pub parse_regions_json : String → List String
  parse_regions_json raw =
      let trimmed = trim_space raw in
      if trimmed == "" || trimmed == "null" then [] else sort (list_or (unmarshal_texts trimmed))

  unfoldable pub failure_reasons_json : IncidentEvaluation → String
  failure_reasons_json e =
      if is_empty e.failure_reasons_breakdown
      then "{}"
      else text_or (marshal_breakdown e.failure_reasons_breakdown) "{}"

  unfoldable pub parse_failure_reasons_json : String → Breakdown
  parse_failure_reasons_json raw =
      let trimmed = trim_space raw in
      if trimmed == "" || trimmed == "{}" || trimmed == "null"
      then []
      else list_or (unmarshal_breakdown trimmed)

unfoldable pub has_active_incident : IncidentEvaluation → Bool
has_active_incident e = not (e.status == healthy)

unfoldable pub impact : IncidentEvaluation → String
impact e =
    if e.status == healthy
    then "operational"
    else if e.status == down && e.scope == global
    then "major_outage"
    else if e.status == down
    then "partial_outage"
    else if e.status == degraded
    then "degraded_performance"
    else "unknown"

unfoldable pub programmatic_title : IncidentEvaluation → Monitor → String
programmatic_title e m = concat (
    m.name
    ∷ (if e.status == down && e.scope == global
        then " is experiencing a global outage"
        else if e.status == down
        then " is partially unavailable"
        else if e.status == degraded
        then " is experiencing regional degradation"
        else " is healthy")
    ∷ [])
