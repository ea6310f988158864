-- ===== src/Alerter/Presentation.antt =====
-- alerter_webhook.go and alerter_ntfy.go: the texts of an alert.
-- SHA-256 and the layouts of `time.Format` are parameters.
pub mod Deduplication
use eyrie.Base.{
  pair_eq, ℕ, String, List, [], ◌∷◌, ◌++◌, ◌==◌, nat_eq, string_eq, if◌then◌else◌, is_empty, concat,
  join, trim_space, to_lower, to_upper, sort,
}
use eyrie.Alert.{AlertMessage}
use eyrie.Incident.{healthy, degraded, down}

pub record Texts : Type 0 where
  pub sha256_hex : String → String
  -- `time.DateTime` and `time.RFC3339`
  pub date_time : ℕ → String
  pub rfc3339 : ℕ → String

pub record AlertPresentation : Type 0 where
  pub title : String
  pub priority : String
  pub status_icon : String
  pub tags : List String

-- The lower-case status, or healthy.
unfoldable pub status_or_healthy : AlertMessage → String
status_or_healthy a = if a.status == "" then "healthy" else to_lower a.status

unfoldable pub build_alert_presentation : AlertMessage → AlertPresentation
unfolding status_or_healthy
build_alert_presentation a =
    let status = status_or_healthy a in
    let title = concat ("[" ∷ to_upper status ∷ "] " ∷ a.name ∷ []) in
    let with = λ (priority icon : String) (tags : List String).
      let p : AlertPresentation = record {
        title = title;
        priority = priority;
        status_icon = icon;
        tags = tags ++ a.affected_regions;
      } in
      p in
    if status == healthy
    then with "low" "🟩" ("green_square" ∷ [])
    else if status == degraded
    then with "default" "🟨" ("yellow_square" ∷ [])
    else if status == down
    then with "high" "🟥" ("red_square" ∷ [])
    else with "default" "" []

-- One key for an incident, or for what is alerted where there is none.
unfoldable pub build_deduplication_key : Texts → AlertMessage → String
build_deduplication_key texts a =
    if a.incident_id == ""
    then texts.sha256_hex (
        concat (
          a.monitor_id
          ∷ "|"
          ∷ a.status
          ∷ "|"
          ∷ a.scope
          ∷ "|"
          ∷ join "," (sort a.affected_regions)
          ∷ []))
    else texts.sha256_hex a.incident_id

pub record WebhookAlertMetadata : Type 0 where
  pub monitor_id : String
  pub status : String
  pub name : String
  pub affected_regions : List String
  pub occurred_at : String

pub record WebhookAlertPayload : Type 0 where
  pub message : String
  pub text : String
  pub title : String
  pub description : String
  pub status : String
  pub deduplication_key : String
  pub metadata : WebhookAlertMetadata

unfoldable pub regions_label : AlertMessage → String
regions_label a = if is_empty a.affected_regions then "none" else join ", " a.affected_regions

unfoldable pub alert_state : AlertMessage → String
unfolding status_or_healthy
alert_state a = if status_or_healthy a == healthy then "resolved" else "firing"

unfoldable pub build_webhook_payload : Texts → ℕ → AlertMessage → WebhookAlertPayload
unfolding build_alert_presentation status_or_healthy alert_state regions_label
    build_deduplication_key
build_webhook_payload texts now a =
    let presentation = build_alert_presentation a in
    let status = status_or_healthy a in
    let occurred_at = if a.occurred_at == 0 then now else a.occurred_at in
    let start = concat (
      presentation.status_icon
      ∷ " "
      ∷ a.name
      ∷ " is "
      ∷ status
      ∷ " at "
      ∷ texts.date_time occurred_at
      ∷ " (affected regions: "
      ∷ regions_label a
      ∷ ")"
      ∷ []) in
    let message = if a.reason == "" then start else concat (start ∷ " " ∷ a.reason ∷ []) in
    let described = concat (
      "Monitor "
      ∷ a.name
      ∷ " is currently "
      ∷ status
      ∷ ". Affected regions: "
      ∷ regions_label a
      ∷ "."
      ∷ []) in
    record {
      message = message;
      text = message;
      title = concat (a.name ∷ " is " ∷ status ∷ []);
      description =
          if a.reason == ""
          then described
          else concat (described ∷ " Additional context: " ∷ a.reason ∷ []);
      status = alert_state a;
      deduplication_key = build_deduplication_key texts a;
      metadata = record {
        monitor_id = a.monitor_id;
        status = status;
        name = a.name;
        affected_regions = a.affected_regions;
        occurred_at = texts.rfc3339 occurred_at;
      };
    }

unfoldable pub format_alert_message : Texts → AlertMessage → String
unfolding regions_label
format_alert_message texts a = concat (
    a.name
    ∷ " is "
    ∷ (if a.status == "" then "healthy" else a.status)
    ∷ " ("
    ∷ (if a.scope == "" then "healthy" else a.scope)
    ∷ ") at "
    ∷ texts.date_time a.occurred_at
    ∷ ". Regions: "
    ∷ regions_label a
    ∷ ". "
    ∷ a.reason
    ∷ [])

unfoldable pub format_provider_alert_message : Texts → AlertMessage → String
unfolding build_alert_presentation format_alert_message
format_provider_alert_message texts a =
    let presentation = build_alert_presentation a in
    let rest = presentation.title ∷ "\n" ∷ format_alert_message texts a ∷ [] in
    concat (if presentation.status_icon == "" then rest else presentation.status_icon ∷ " " ∷ rest)

unfoldable pub build_ntfy_title : AlertMessage → String
unfolding build_alert_presentation
build_ntfy_title a = if a.name == "" then trim_space (build_alert_presentation a).title else a.name
