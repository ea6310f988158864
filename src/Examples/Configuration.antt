-- ===== src/Examples/Configuration.antt =====
-- Runs of what the configuration means.
use eyrie.Base.{
  keep, is_empty, ◌||◌, ◌≤◌, String, ◌≡◌, refl, false, not, ◌&&◌, none, List, [], ◌∷◌, map, ◌==◌,
  nat_eq, string_eq, if◌then◌else◌, count, All, contains, trim_space,
}
use eyrie.Monitor.{Monitor, MonitorConfig, RegisteredChecker}
use eyrie.Monitor.Names.{effective_alert_names}
use eyrie.Monitor.Names.Once.{effective_alert_names_once}
use eyrie.Monitor.Checker.{for_checker, validate_config, effective_names}
use eyrie.Monitor.Checker.Selected.{
  restricted, has_monitors, for_checker_exact, validate_config_names,
}
use eyrie.Examples.{shop}

abbrev loud : Monitor
loud = record shop { alert_names = " ops " ∷ "" ∷ "ops" ∷ [] }

effective_alert_names_once_example :
    count (λ (n : String). n == "ops") (effective_alert_names loud)
    ≡ (if not false && contains (map trim_space loud.alert_names) "ops" then 1 else 0)
effective_alert_names_once_example = effective_alert_names_once loud "ops"

abbrev two_checkers : MonitorConfig
two_checkers = record {
  monitors = record shop { checker_names = "eu" ∷ [] } ∷ record shop { id = "blog" } ∷ [];
  groups = record { id = "g"; name = "G"; description = none; monitor_ids = "shop" ∷ [] } ∷ [];
}

for_checker_exact_example :
    let part = for_checker two_checkers "us" in
    (part.monitors
      ≡ keep (λ m. is_empty m.checker_names || contains m.checker_names "us") two_checkers.monitors)
    × (part.groups ≡ keep has_monitors (map (restricted part.monitors) two_checkers.groups))
    × (for_checker part "us" ≡ part)
for_checker_exact_example = for_checker_exact two_checkers "us"

-- The group's one monitor runs on another checker.
us_has_no_group : (for_checker two_checkers "us").groups ≡ []
unfolding for_checker
us_has_no_group = refl

abbrev checkers : List RegisteredChecker
checkers = record { name = ""; region = "eu"; api_key = "k" } ∷ []

two_checkers_valid : validate_config two_checkers checkers ≡ none
unfolding validate_config
two_checkers_valid = refl

validate_config_names_example :
    All
      (λ m.
        (x : String)
        → count (λ (n : String). n == x) m.checker_names
          ≤ (if contains (effective_names checkers) x then 1 else 0))
      two_checkers.monitors
validate_config_names_example = validate_config_names two_checkers checkers two_checkers_valid
