-- ===== src/Alerter/Build.antt =====
-- alerter_webhook.go and alerter_ntfy.go: the alerters of a configuration, and their requests.
-- The HTTP client, JSON, HMAC and base64 are parameters.
pub mod Unique
use eyrie.Base.{
  pair_eq, ℕ, zero, suc, String, not, ◌||◌, List, [], ◌∷◌, ◌++◌, ◌==◌, nat_eq, string_eq,
  if◌then◌else◌, trim_space, Map,
}
use eyrie.Base.Int.{ℤ, pos, negsuc}
use eyrie.Config.{Float64}
use eyrie.Config.Server.{
  ServerConfig, WebhookAlertingConfig, SlackAlertingConfig, DiscordAlertingConfig,
  TeamsAlertingConfig, NtfyAlertingConfig,
}

pub record WebhookAlerter : Type 0 where
  pub webhook_url : String
  pub hmac_secret : String
  pub custom_headers : Map String String

pub data JsonBody : Type 0 where
  slack_body discord_body teams_body : JsonBody

pub record JsonWebhookAlerter : Type 0 where
  pub url : String
  pub user_agent : String
  pub content_type : String
  pub build_body : JsonBody

pub record NtfyAlerter : Type 0 where
  pub topic_url : String
  pub access_token : String
  pub username : String
  pub password : String

-- The buffered alerter has its suppression window and its digest interval in minutes.
pub data Target : Type 0 where
  webhook : WebhookAlerter → Target
  json_webhook : JsonWebhookAlerter → Target
  buffered_ntfy : NtfyAlerter → ℕ → ℤ → Target

pub record BuiltAlerter : Type 0 where
  pub name : String
  pub target : Target

unfoldable pub build_webhooks : List WebhookAlertingConfig → List BuiltAlerter
build_webhooks [] = []
build_webhooks (c ∷ rest) =
    let built = build_webhooks rest in
    let target = webhook (record {
      webhook_url = c.url;
      hmac_secret = c.hmac_secret;
      custom_headers = c.custom_headers;
    }) in
    if not c.enabled || c.url == ""
    then built
    else record { name = trim_space c.name; target = target } ∷ built

unfoldable pub json_target : String → String → JsonBody → Target
json_target url user_agent body = json_webhook (record {
  url = url;
  user_agent = user_agent;
  content_type = "application/json";
  build_body = body;
})

unfoldable pub build_slacks : List SlackAlertingConfig → List BuiltAlerter
unfolding json_target
build_slacks [] = []
build_slacks (c ∷ rest) =
    let built = build_slacks rest in
    let target = json_target c.webhook_url "eyrie-slack/1.0" slack_body in
    if not c.enabled || c.webhook_url == ""
    then built
    else record { name = trim_space c.name; target = target } ∷ built

unfoldable pub build_discords : List DiscordAlertingConfig → List BuiltAlerter
unfolding json_target
build_discords [] = []
build_discords (c ∷ rest) =
    let built = build_discords rest in
    let target = json_target c.webhook_url "eyrie-discord/1.0" discord_body in
    if not c.enabled || c.webhook_url == ""
    then built
    else record { name = trim_space c.name; target = target } ∷ built

unfoldable pub build_teams : List TeamsAlertingConfig → List BuiltAlerter
unfolding json_target
build_teams [] = []
build_teams (c ∷ rest) =
    let built = build_teams rest in
    let target = json_target c.webhook_url "eyrie-teams/1.0" teams_body in
    if not c.enabled || c.webhook_url == ""
    then built
    else record { name = trim_space c.name; target = target } ∷ built

unfoldable pub suppress_window : ℤ → ℕ
suppress_window (pos zero) = 15
suppress_window (pos (suc n)) = suc n
suppress_window (negsuc n) = 15

unfoldable pub build_ntfys : List NtfyAlertingConfig → List BuiltAlerter
unfolding suppress_window
build_ntfys [] = []
build_ntfys (c ∷ rest) =
    let built = build_ntfys rest in
    let wrapped : NtfyAlerter = record {
      topic_url = c.topic_url;
      access_token = c.access_token;
      username = c.username;
      password = c.password;
    } in
    let target =
      buffered_ntfy wrapped (suppress_window c.suppress_window_minutes) c.digest_interval_minutes in
    if not c.enabled || c.topic_url == ""
    then built
    else record { name = trim_space c.name; target = target } ∷ built

unfoldable pub build_alerters : {fl : Float64} → ServerConfig fl → List BuiltAlerter
unfolding build_webhooks build_slacks build_discords build_teams build_ntfys
build_alerters c =
    build_webhooks c.alerting.webhook
    ++ (build_slacks c.alerting.slack
        ++ (build_discords c.alerting.discord
            ++ (build_teams c.alerting.teams ++ build_ntfys c.alerting.ntfy)))
