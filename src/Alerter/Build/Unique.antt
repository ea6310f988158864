-- ===== src/Alerter/Build/Unique.antt =====
-- The names of the alerters that a validated configuration gives.
use eyrie.Base.{
  pair_eq, ℕ, ◌≤◌, String, ◌≡◌, none, List, [], ◌∷◌, ◌++◌, map, arith, ◌==◌, nat_eq, string_eq,
  count, count-append, trim_space,
}
use eyrie.Config.{Float64}
use eyrie.Config.Server.{
  ServerConfig, validate_server_config, alert_sections, WebhookAlertingConfig, SlackAlertingConfig,
  DiscordAlertingConfig, TeamsAlertingConfig, NtfyAlertingConfig,
}
use eyrie.Config.Server.Unique.{validate_server_config_unique}
use eyrie.Alerter.Build.{
  BuiltAlerter, build_webhooks, build_slacks, build_discords, build_teams, build_ntfys,
  build_alerters,
}

-- How many alerters have a name, and how many settings have it up to spaces.
abbrev named : String → List BuiltAlerter → ℕ
named n l = count (λ a. a.name == n) l

abbrev written : String → List String → ℕ
written n l = count (λ a. trim_space a == n) l

named-build_webhooks :
    (n : String) (l : List WebhookAlertingConfig)
    → named n (build_webhooks l) ≤ written n (map (λ c. c.name) l)
unfolding build_webhooks
named-build_webhooks n [] = omega arith
named-build_webhooks n (c ∷ l) = ground (arith, named-build_webhooks n l)

named-build_slacks :
    (n : String) (l : List SlackAlertingConfig)
    → named n (build_slacks l) ≤ written n (map (λ c. c.name) l)
unfolding build_slacks
named-build_slacks n [] = omega arith
named-build_slacks n (c ∷ l) = ground (arith, named-build_slacks n l)

named-build_discords :
    (n : String) (l : List DiscordAlertingConfig)
    → named n (build_discords l) ≤ written n (map (λ c. c.name) l)
unfolding build_discords
named-build_discords n [] = omega arith
named-build_discords n (c ∷ l) = ground (arith, named-build_discords n l)

named-build_teams :
    (n : String) (l : List TeamsAlertingConfig)
    → named n (build_teams l) ≤ written n (map (λ c. c.name) l)
unfolding build_teams
named-build_teams n [] = omega arith
named-build_teams n (c ∷ l) = ground (arith, named-build_teams n l)

named-build_ntfys :
    (n : String) (l : List NtfyAlertingConfig)
    → named n (build_ntfys l) ≤ written n (map (λ c. c.name) l)
unfolding build_ntfys
named-build_ntfys n [] = omega arith
named-build_ntfys n (c ∷ l) = ground (arith, named-build_ntfys n l)

both :
    (n : String) (k l : List BuiltAlerter) (xs ys : List String)
    → named n k ≤ written n xs
    → named n l ≤ written n ys
    → named n (k ++ l) ≤ written n (xs ++ ys)
both n k l xs ys p q =
    let e = count-append (λ a. a.name == n) k l in
    let f = count-append (λ a. trim_space a == n) xs ys in omega arith

last :
    (n : String) (k : List BuiltAlerter) (xs : List String)
    → named n k ≤ written n xs
    → named n k ≤ written n (xs ++ [])
last n k xs p = let f = count-append (λ a. trim_space a == n) xs [] in omega arith

-- The alerters of a validated configuration have different names, so that a name in a monitor's
-- settings means at most one of them.
pub build_alerters_unique :
    {fl : Float64} (c : ServerConfig fl) (n : String)
    → validate_server_config c ≡ none
    → count (λ a. a.name == n) (build_alerters c) ≤ 1
unfolding build_alerters alert_sections
build_alerters_unique c n valid =
    let a = c.alerting in
    let once = (validate_server_config_unique c "" "" n valid).2 in
    let all =
      both n (build_webhooks a.webhook) _ (map (λ w. w.name) a.webhook) _
        (named-build_webhooks n a.webhook)
        (both n (build_slacks a.slack) _ (map (λ w. w.name) a.slack) _
          (named-build_slacks n a.slack)
          (both n (build_discords a.discord) _ (map (λ w. w.name) a.discord) _
            (named-build_discords n a.discord)
            (both n (build_teams a.teams) _ (map (λ w. w.name) a.teams) _
              (named-build_teams n a.teams)
              (last n (build_ntfys a.ntfy) (map (λ w. w.name) a.ntfy)
                (named-build_ntfys n a.ntfy))))) in
    omega arith
