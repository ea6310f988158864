-- ===== src/Config/Server/Unique.antt =====
-- What a validated configuration guarantees.
use eyrie.Base.{
  true, pair_eq, ℕ, suc, ◌+◌, ◌≤◌, String, ◌≡◌, refl, ◌⊎◌, inl, inr, Bool, Option, none, some, List,
  [], ◌∷◌, ◌++◌, arith, ◌==◌, nat_eq, string_eq, str_eq_iff, if◌then◌else◌, Bool-cases,
  Option-cases, count, count-append, contains, trim_space, Map, get, get-put,
}
use eyrie.Base.Int.{is_positive}
use eyrie.Monitor.{RegisteredChecker, effective_name}
use eyrie.Config.{Float64}
use eyrie.Config.Server.{
  ServerConfig, ServerConfigError, validate_checkers, alert_location, error_of, validate_alert_name,
  validate_alert_names, validate_sections, alert_sections, validate_dataset, validate_server_config,
}

one_if : Bool → ℕ
one_if b = if b then 1 else 0

validate_checkers_names :
    (n : String) (names keys : List String) (l : List RegisteredChecker)
    → validate_checkers names keys l ≡ none
    → count (λ c. effective_name c == n) l + one_if (contains names n) ≤ 1
unfolding validate_checkers one_if
validate_checkers_names n names keys [] h = ground arith
validate_checkers_names n names keys (c ∷ l) h = ground (
  arith,
  validate_checkers_names n (effective_name c ∷ names) (c.api_key ∷ keys) l,
  str_eq_iff (effective_name c) n,
)

validate_checkers_keys :
    (k : String) (names keys : List String) (l : List RegisteredChecker)
    → validate_checkers names keys l ≡ none
    → count (λ c. c.api_key == k) l + one_if (contains keys k) ≤ 1
unfolding validate_checkers one_if
validate_checkers_keys k names keys [] h = ground arith
validate_checkers_keys k names keys (c ∷ l) h = ground (
  arith,
  validate_checkers_keys k (effective_name c ∷ names) (c.api_key ∷ keys) l,
  str_eq_iff c.api_key k,
)

abbrev seen_once : Option String → ℕ
seen_once none = 0
seen_once (some _) = 1

sum_cases {ℓ κ} :
    {A : Type ℓ} {B : Type κ} (r : A ⊎ B) → ((a : A) × (r ≡ inl a)) ⊎ ((b : B) × (r ≡ inr b))
sum_cases (inl a) = inl (a, refl)
sum_cases (inr b) = inr (b, refl)

validate_alert_name_count :
    (n path : String) (idx : ℕ) (name : String) (seen seen' : Map String String)
    → validate_alert_name seen path idx name ≡ inr seen'
    → one_if (trim_space name == n) + seen_once (get n seen) ≡ seen_once (get n seen')
unfolding validate_alert_name one_if
validate_alert_name_count n path idx name seen seen' h =
    elim (Option-cases (get (trim_space name) seen)) [
      | inr taken ↦ ground (arith, taken.1)
      | inl free ↦ elim (Bool-cases (trim_space name == n)) [
        | inl same ↦
            let e : trim_space name ≡ n = (str_eq_iff (trim_space name) n).0 same in
            let f : get n seen ≡ none = rw (← e) free in
            ground (
              arith,
              get-put (trim_space name) n (alert_location path idx) seen,
              str_eq_iff (trim_space name) n,
            )
        | inr other ↦ ground (arith, get-put (trim_space name) n (alert_location path idx) seen)
      ]
    ]

validate_alert_names_count :
    (n path : String) (idx : ℕ) (names : List String) (seen seen' : Map String String)
    → validate_alert_names seen path idx names ≡ inr seen'
    → count (λ name. trim_space name == n) names + seen_once (get n seen) ≡ seen_once (get n seen')
unfolding validate_alert_names one_if
validate_alert_names_count n path idx [] seen seen' h = ground arith
validate_alert_names_count n path idx (name ∷ names) seen seen' h =
    elim (sum_cases (validate_alert_name seen path idx name)) [
      | inl e ↦ ground (arith, e.1)
      | inr s ↦ ground (
        arith,
        s.1,
        validate_alert_name_count n path idx name seen s.0,
        validate_alert_names_count n path (suc idx) names s.0 seen',
      )
    ]

-- All names of some sections.
abbrev pub all_names : List (String × List String) → List String
all_names [] = []
all_names ((path, names) ∷ sections) = names ++ all_names sections

validate_sections_count :
    (n : String) (sections : List (String × List String)) (seen seen' : Map String String)
    → validate_sections seen sections ≡ inr seen'
    → count (λ name. trim_space name == n) (all_names sections) + seen_once (get n seen)
      ≡ seen_once (get n seen')
unfolding validate_sections
validate_sections_count n [] seen seen' h = ground arith
validate_sections_count n ((path, names) ∷ sections) seen seen' h =
    elim (sum_cases (validate_alert_names seen path 0 names)) [
      | inl e ↦ ground (arith, e.1)
      | inr s ↦ ground (
        arith,
        s.1,
        count-append (λ name. trim_space name == n) names (all_names sections),
        validate_alert_names_count n path 0 names seen s.0,
        validate_sections_count n sections s.0 seen',
      )
    ]

validate_sections_once :
    (n : String) (sections : List (String × List String))
    (r : ServerConfigError ⊎ Map String String)
    → validate_sections [] sections ≡ r
    → error_of r ≡ none
    → count (λ name. trim_space name == n) (all_names sections) ≤ 1
unfolding get
validate_sections_once n sections (inl e) h k = ground arith
validate_sections_once n sections (inr seen) h k =
    seen_at_most_once (get n seen) (validate_sections_count n sections [] seen h)
  where
    seen_at_most_once :
        (o : Option String)
        → count (λ name. trim_space name == n) (all_names sections) + 0 ≡ seen_once o
        → count (λ name. trim_space name == n) (all_names sections) ≤ 1
    seen_at_most_once none e = omega arith
    seen_at_most_once (some _) e = omega arith

-- In a configuration that passes the validation, no two checkers have one effective name or one API key,
-- no two alerts of whatever kind have one name when spaces around it are dropped, and the cleanup
-- worker has a positive interval and a positive batch size.
pub validate_server_config_unique :
    {fl : Float64} (c : ServerConfig fl) (name key alert : String)
    → validate_server_config c ≡ none
    → (count (λ r. effective_name r == name) c.registered_checkers ≤ 1)
      × (count (λ r. r.api_key == key) c.registered_checkers ≤ 1)
      × (count (λ a. trim_space a == alert) (all_names (alert_sections c.alerting)) ≤ 1)
      × (is_positive c.dataset.cleanup_interval_minutes ≡ true)
      × (is_positive c.dataset.cleanup_batch_size ≡ true)
unfolding validate_server_config validate_dataset
validate_server_config_unique c name key alert h =
    let checkers : validate_checkers [] [] c.registered_checkers ≡ none = ground arith in
    let sections : error_of (validate_sections [] (alert_sections c.alerting)) ≡ none =
      ground arith in
    (
      ground (arith, validate_checkers_names name [] [] c.registered_checkers),
      ground (arith, validate_checkers_keys key [] [] c.registered_checkers),
      validate_sections_once alert (alert_sections c.alerting) _ refl sections,
      ground arith,
      ground arith,
    )
