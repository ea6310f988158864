-- ===== src/Monitor/Names/Once.antt =====
-- The effective alert names are the trimmed names that are not blank, each once.
use eyrie.Base.{
  unique_from, count-unique_from, String, ◌≡◌, refl, not, ◌&&◌, List, [], ◌∷◌, map, arith, ◌==◌,
  nat_eq, string_eq, str_eq_iff, if◌then◌else◌, count, contains, trim_space,
}
use eyrie.Monitor.{Monitor}
use eyrie.Monitor.Names.{names_from, effective_alert_names}

abbrev pub trimmed_names : List String → List String
trimmed_names [] = []
trimmed_names (name ∷ rest) =
    let others = trimmed_names rest in
    if trim_space name == "" then others else trim_space name ∷ others

names_from-unique_from :
    (seen names : List String) → names_from seen names ≡ unique_from seen (trimmed_names names)
unfolding names_from unique_from
names_from-unique_from seen [] = refl
names_from-unique_from seen (name ∷ names) = ground (
  arith,
  names_from-unique_from seen names,
  names_from-unique_from (trim_space name ∷ seen) names,
)

contains-trimmed_names :
    (names : List String) (name : String)
    → contains (trimmed_names names) name
      ≡ (not (name == "") && contains (map trim_space names) name)
contains-trimmed_names [] name = ground arith
contains-trimmed_names (n ∷ names) name =
    ground (arith, contains-trimmed_names names name, str_eq_iff (trim_space n) name)

-- A text is among the effective alert names once if it is one of the monitor's alert names with the
-- blanks around it cut off, and is not empty; otherwise it is not among them.
pub effective_alert_names_once :
    (m : Monitor) (name : String)
    → count (λ n. n == name) (effective_alert_names m)
      ≡ (if not (name == "") && contains (map trim_space m.alert_names) name then 1 else 0)
unfolding effective_alert_names
effective_alert_names_once m name = rw (names_from-unique_from [] m.alert_names) (
    ground (
      arith,
      count-unique_from name [] (trimmed_names m.alert_names),
      contains-trimmed_names m.alert_names name,
    ))
