-- ===== src/Monitor/Checker/Selected.antt =====
-- What a checker's configuration holds, and what a configuration that is accepted holds.
use eyrie.Base.{
  ◌≤◌, String, ◌≡◌, refl, ap, map, ◌∙◌, ◌||◌, inl, inr, Bool, not, ◌&&◌, Option, none, some, List,
  [], ◌∷◌, arith, ◌==◌, nat_eq, string_eq, str_eq_iff, if◌then◌else◌, Bool-cases, is_empty, keep,
  count, All, contains,
}
use eyrie.Monitor.{Monitor, Group, MonitorConfig, RegisteredChecker, runs_on_checker}
use eyrie.Monitor.Checker.{
  ids_of, filter_groups, for_checker, ValidationError, validate, validate_names, validate_monitors,
  or_error, effective_names, validate_config,
}

keep-keep {ℓ} : {A : Type ℓ} (p : A → Bool) (l : List A) → keep p (keep p l) ≡ keep p l
keep-keep p [] = refl
keep-keep p (x ∷ l) = elim (Bool-cases (p x)) [
  | inl e ↦ rw e (rw e (ap (λ r. x ∷ r) (keep-keep p l)))
  | inr e ↦ rw e (keep-keep p l)
]

filter_groups-filter_groups :
    (allowed : List String) (groups : List Group)
    → filter_groups allowed (filter_groups allowed groups) ≡ filter_groups allowed groups
unfolding filter_groups
filter_groups-filter_groups allowed [] = refl
filter_groups-filter_groups allowed (group ∷ rest) =
    elim (Bool-cases (is_empty (keep (contains allowed) group.monitor_ids))) [
      | inl e ↦ rw e (filter_groups-filter_groups allowed rest)
      | inr e ↦
          rw (e, filter_groups)
            (rw (keep-keep (contains allowed) group.monitor_ids) (
              rw e (
                ap
                  (λ r.
                    record group { monitor_ids = keep (contains allowed) group.monitor_ids } ∷ r)
                  (filter_groups-filter_groups allowed rest))))
    ]

for_checker_again :
    (c : MonitorConfig) (checker_name : String)
    → for_checker (for_checker c checker_name) checker_name ≡ for_checker c checker_name
unfolding for_checker
for_checker_again c checker_name =
    rw (keep-keep (λ m. runs_on_checker m checker_name) c.monitors)
      (rw (filter_groups-filter_groups _ c.groups) refl)

-- The IDs of a group that are those of listed monitors.
abbrev pub restricted : List Monitor → Group → Group
restricted monitors group = record group {
  monitor_ids = keep (λ id. contains (map (λ m. m.id) monitors) id) group.monitor_ids;
}

abbrev pub has_monitors : Group → Bool
has_monitors group = not (is_empty group.monitor_ids)

ids_of-map : (monitors : List Monitor) → ids_of monitors ≡ map (λ m. m.id) monitors
ids_of-map [] = refl
ids_of-map (m ∷ rest) = ap (λ ids. m.id ∷ ids) (ids_of-map rest)

filter_groups_exact :
    (monitors : List Monitor) (groups : List Group)
    → filter_groups (map (λ m. m.id) monitors) groups
      ≡ keep has_monitors (map (restricted monitors) groups)
unfolding filter_groups
filter_groups_exact monitors [] = refl
filter_groups_exact monitors (group ∷ rest) =
    elim (Bool-cases (is_empty (restricted monitors group).monitor_ids)) [
      | inl e ↦ rw e (filter_groups_exact monitors rest)
      | inr e ↦ rw e (ap (λ r. restricted monitors group ∷ r) (filter_groups_exact monitors rest))
    ]

-- The part of a configuration for a checker has, in order, exactly the monitors that name the checker or
-- that name none, and of the groups exactly those with one of these monitors, each with its IDs of these
-- monitors and no others; to take the part of it for the same checker again changes nothing.
pub for_checker_exact :
    (c : MonitorConfig) (checker_name : String)
    → let part = for_checker c checker_name in
      (part.monitors
        ≡ keep (λ m. is_empty m.checker_names || contains m.checker_names checker_name) c.monitors)
      × (part.groups ≡ keep has_monitors (map (restricted part.monitors) c.groups))
      × (for_checker part checker_name ≡ part)
unfolding for_checker
for_checker_exact c checker_name =
    let monitors = keep (λ m. runs_on_checker m checker_name) c.monitors in
    (
      unfold runs_on_checker in refl,
      ap (λ ids. filter_groups ids c.groups) (ids_of-map monitors)
          ∙ filter_groups_exact monitors c.groups,
      for_checker_again c checker_name,
    )

validate_names_count :
    (known seen names : List String) (x : String)
    → validate_names known seen names ≡ none
    → count (λ n. n == x) names ≤ (if contains known x && not (contains seen x) then 1 else 0)
unfolding validate_names
validate_names_count known seen [] x h = omega arith
validate_names_count known seen (n ∷ names) x h =
    ground (arith, validate_names_count known (n ∷ seen) names x, str_eq_iff n x)

or_error-none : (a b : Option ValidationError) → or_error a b ≡ none → (a ≡ none) × (b ≡ none)
or_error-none none b h = (refl, h)
or_error-none (some err) b h = ground arith

validate_monitors_count :
    (known : List String) (monitors : List Monitor)
    → validate_monitors known monitors ≡ none
    → All
        (λ m.
          (x : String) → count (λ n. n == x) m.checker_names ≤ (if contains known x then 1 else 0))
        monitors
unfolding validate_monitors
validate_monitors_count known [] h = tt
validate_monitors_count known (m ∷ rest) h =
    let names = validate_names known [] m.checker_names in
    let later : or_error names (validate_monitors known rest) ≡ none =
      (or_error-none (validate m) _ h).1 in
    let parts : (names ≡ none) × (validate_monitors known rest ≡ none) =
      or_error-none names _ later in
    (
      λ x. ground (arith, validate_names_count known [] m.checker_names x parts.0),
      validate_monitors_count known rest parts.1,
    )

-- In a configuration that `Validate` accepts, the checker names of each monitor are names of registered
-- checkers, and none of them is repeated.
pub validate_config_names :
    (c : MonitorConfig) (checkers : List RegisteredChecker)
    → validate_config c checkers ≡ none
    → All
        (λ m.
          (x : String)
          → count (λ n. n == x) m.checker_names
            ≤ (if contains (effective_names checkers) x then 1 else 0))
        c.monitors
unfolding validate_config
validate_config_names c checkers h = validate_monitors_count (effective_names checkers) c.monitors h
