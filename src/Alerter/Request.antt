-- ===== src/Alerter/Request.antt =====
-- alerter_webhook.go and alerter_ntfy.go: the request of each kind of alerter, and what its answer means.
use Prim.Native.String.{◌++◌ as join_text}
use eyrie.Base.{
  pair_eq, ℕ, ◌≤◌, ◌<◌, String, ◌≡◌, Bool, ◌&&◌, ◌||◌, Option, none, some, [], ◌∷◌, arith, ltb, leb,
  ◌==◌, nat_eq, string_eq, if◌then◌else◌, join, Map, put,
}
use eyrie.Alert.{AlertMessage}
use eyrie.Alerter.Build.{
  WebhookAlerter, JsonWebhookAlerter, NtfyAlerter, JsonBody, slack_body, discord_body, teams_body,
}
use eyrie.Alerter.Presentation.{
  Texts, WebhookAlertPayload, build_webhook_payload, build_alert_presentation,
  format_provider_alert_message, format_alert_message, build_ntfy_title,
}

pub record Request : Type 0 where
  pub url : String
  pub headers : Map String String
  pub body : String

-- The libraries: which URLs parse, the spelling of a header's name, JSON, HMAC, base64, and the answer
-- of the client, which is a status code or nothing.
pub record Http : Type 0 where
  pub valid_url : String → Bool
  pub header_name : String → String
  pub marshal_payload : WebhookAlertPayload → Option String
  pub marshal_texts : Map String String → Option String
  pub hmac_hex : String → String → String
  pub base64 : String → String
  pub answer : Request → Option ℕ

pub data AlertError : Type 0 where
  not_marshalled invalid_request no_answer rate_limited : AlertError
  dropped : ℕ → AlertError

-- `none` is success.
unfoldable pub judge_answer : Option ℕ → Option AlertError
judge_answer none = some no_answer
judge_answer (some code) =
    if code == 429
    then some rate_limited
    else if ltb code 200 || leb 300 code
    then some (dropped code)
    else none

unfoldable pub do_alert_request : Http → Request → Option AlertError
unfolding judge_answer
do_alert_request http request = judge_answer (http.answer request)

abbrev set_header : Http → String → String → Map String String → Map String String
set_header http key value headers = put (http.header_name key) value headers

unfoldable pub set_headers : Http → Map String String → Map String String → Map String String
set_headers http [] headers = headers
set_headers http ((key, value) ∷ rest) headers =
    set_headers http rest (set_header http key value headers)

module _ (http : Http) (texts : Texts) where
  unfoldable pub webhook_headers : WebhookAlerter → AlertMessage → String → Map String String
  unfolding set_headers build_alert_presentation
  webhook_headers w alert body =
      let p = build_alert_presentation alert in
      let fixed = set_header http "X-Eyrie-Alert-Tags" (join "," p.tags) (
        set_header http "X-Eyrie-Alert-Priority" p.priority (
          set_header http "X-Eyrie-Alert-Title" p.title (
            set_header http "User-Agent" "eyrie-webhook/1.0"
              (set_header http "Content-Type" "application/json" [])))) in
      let custom = set_headers http w.custom_headers fixed in
      if w.hmac_secret == ""
      then custom
      else set_header http "X-Signature" (http.hmac_hex w.hmac_secret body) custom

  unfoldable pub post : String → Map String String → String → Option AlertError
  unfolding do_alert_request
  post url headers body =
      if http.valid_url url
      then do_alert_request http (record { url = url; headers = headers; body = body })
      else some invalid_request

  unfoldable pub send_webhook : ℕ → WebhookAlerter → AlertMessage → Option AlertError
  unfolding webhook_headers post build_webhook_payload
  send_webhook now w alert = elim (http.marshal_payload (build_webhook_payload texts now alert)) [
    | none ↦ some not_marshalled
    | some body ↦ post w.webhook_url (webhook_headers w alert body) body
  ]

  unfoldable pub build_body : JsonBody → AlertMessage → Option String
  unfolding format_provider_alert_message build_alert_presentation
  build_body slack_body alert =
      http.marshal_texts (("text", format_provider_alert_message texts alert) ∷ [])
  build_body discord_body alert =
      http.marshal_texts (("content", format_provider_alert_message texts alert) ∷ [])
  build_body teams_body alert = http.marshal_texts (
      ("summary", (build_alert_presentation alert).title)
      ∷ ("text", format_provider_alert_message texts alert)
      ∷ [])

  unfoldable pub send_json : JsonWebhookAlerter → AlertMessage → Option AlertError
  unfolding build_body post
  send_json a alert = elim (build_body a.build_body alert) [
    | none ↦ some not_marshalled
    | some body ↦
        post a.url
          (set_header http "User-Agent" a.user_agent
            (set_header http "Content-Type" a.content_type []))
          body
  ]

  unfoldable pub ntfy_headers : NtfyAlerter → AlertMessage → Map String String
  unfolding build_alert_presentation build_ntfy_title
  ntfy_headers a alert =
      let p = build_alert_presentation alert in
      let fixed = set_header http "Tags" (join "," p.tags) (
        set_header http "Priority" p.priority (
          set_header http "Title" (build_ntfy_title alert)
            (set_header http "User-Agent" "eyrie-ntfy/1.0" []))) in
      let token =
        if a.access_token == ""
        then fixed
        else set_header http "Authorization" (join_text "Bearer " a.access_token) fixed in
      if a.username == "" && a.password == ""
      then token
      else set_header http "Authorization"
          (join_text "Basic " (http.base64 (join_text a.username (join_text ":" a.password)))) token

  unfoldable pub send_ntfy : NtfyAlerter → AlertMessage → Option AlertError
  unfolding ntfy_headers post format_alert_message
  send_ntfy a alert = post a.topic_url (ntfy_headers a alert) (format_alert_message texts alert)

-- Only an answer from 200 to 299 is a success.
pub judge_answer_success :
    (code : ℕ) → judge_answer (some code) ≡ none → (200 ≤ code) × (code < 300)
unfolding judge_answer
judge_answer_success code h = ground arith

judge_answer_accepts : (code : ℕ) → 200 ≤ code → code < 300 → judge_answer (some code) ≡ none
unfolding judge_answer
judge_answer_accepts code l u = ground arith
