-- ===== src/Server.antt =====
-- server.go: the endpoints that the checkers call, and the part of the configuration that is served.
-- A response is its status with its content; headers, tracing, metrics and logging are left out.
pub mod Accepted
pub mod Uptime
pub mod Page
use Prim.Native.String.{◌++◌ as join_text}
use eyrie.Base.{
  pair_eq, ℕ, zero, suc, ◌/◌, ◌<◌, String, Bool, Option, none, some, List, [], ◌∷◌, ◌++◌, arith,
  ltb, ◌==◌, nat_eq, string_eq, if◌then◌else◌, find_first, itoa, Map,
}
use eyrie.Base.Int.{ℤ, pos, negsuc}
use eyrie.Monitor.{MonitorConfig, RegisteredChecker, effective_name}
use eyrie.Monitor.Checker.{for_checker, find_registered_checker}
use eyrie.Config.{Float64}
use eyrie.Config.Server.{ServerConfig}
use eyrie.Submission.{CheckerSubmissionRequest}

-- A body that does not decode is `none`.
pub record CheckerRegistrationRequest : Type 0 where
  pub name : String
  pub region : String

pub data Response {ℓ} (A : Type ℓ) : Type ℓ where
  ok : A → Response A
  bad_request unauthorized internal_error : Response A

unfoldable pub registration_response :
    MonitorConfig → Option RegisteredChecker → Response MonitorConfig
registration_response monitors none = unauthorized
registration_response monitors (some checker) = ok (for_checker monitors (effective_name checker))

unfoldable pub checker_registration :
    {fl : Float64}
    → ServerConfig fl
    → MonitorConfig
    → String
    → Option CheckerRegistrationRequest
    → Response MonitorConfig
unfolding registration_response
checker_registration cfg monitors api_key none = bad_request
checker_registration cfg monitors api_key (some request) =
    registration_response monitors
      (find_registered_checker cfg.registered_checkers request.name request.region api_key)

pub record QueuedSubmission : Type 0 where
  pub body : CheckerSubmissionRequest
  pub metadata : Map String String

-- The queues of the processor and of the ingester.
pub record Queues : Type 0 where
  pub processor : List QueuedSubmission
  pub ingester : List QueuedSubmission

-- The clock, its text for each of the two messages, and the calls that fail.
pub record SubmitEnv : Type 0 where
  pub now : ℕ
  pub processor_received_at : String
  pub ingester_received_at : String
  pub marshal_fails : Bool
  pub processor_send_fails : Bool
  pub ingester_send_fails : Bool

unfoldable pub request_id : SubmitEnv → CheckerSubmissionRequest → String
request_id env request = join_text request.monitor_id (join_text "-" (itoa env.now))

unfoldable pub queued_submission :
    String → String → CheckerSubmissionRequest → String → QueuedSubmission
queued_submission received_at id request region = record {
  body = request;
  metadata = ("region", region) ∷ ("received_at", received_at) ∷ ("request_id", id) ∷ [];
}

-- `Send`: a message that is refused is only logged.
unfoldable pub send : Bool → QueuedSubmission → List QueuedSubmission → List QueuedSubmission
send fails message queue = if fails then queue else queue ++ message ∷ []

unfoldable pub enqueue_submission : SubmitEnv → CheckerSubmissionRequest → String → Queues → Queues
unfolding send queued_submission request_id
enqueue_submission env request region queues =
    let id = request_id env request in
    record {
      processor =
          send env.processor_send_fails
            (queued_submission env.processor_received_at id request region) queues.processor;
      ingester =
          send env.ingester_send_fails
            (queued_submission env.ingester_received_at id request region) queues.ingester;
    }

unfoldable pub find_by_key : List RegisteredChecker → String → Option RegisteredChecker
find_by_key checkers api_key = find_first (λ c. c.api_key == api_key) checkers

-- What follows once the key is looked up.
unfoldable pub submit_as :
    SubmitEnv
    → Option RegisteredChecker
    → Option CheckerSubmissionRequest
    → Queues
    → Queues × Response (Unit {0})
unfolding enqueue_submission
submit_as env none body queues = (queues, unauthorized)
submit_as env (some checker) none queues = (queues, bad_request)
submit_as env (some checker) (some request) queues =
    if env.marshal_fails
    then (queues, internal_error)
    else (enqueue_submission env request checker.region queues, ok tt)

unfoldable pub checker_submission :
    {fl : Float64}
    → SubmitEnv
    → ServerConfig fl
    → String
    → Option CheckerSubmissionRequest
    → Queues
    → Queues × Response (Unit {0})
unfolding submit_as find_by_key
checker_submission env cfg api_key body queues =
    submit_as env (find_by_key cfg.registered_checkers api_key) body queues

pub record ConfigHandlerResponse : Type 0 where
  pub title : String
  pub show_last_updated : Bool
  pub frontend_design : String
  pub retention_days : ℕ
  pub degraded_threshold_minutes : ℕ
  pub degraded_threshold_consecutive_buckets : ℕ
  pub failure_threshold_minutes : ℕ

unfoldable pub build_config_response : {fl : Float64} → ServerConfig fl → ConfigHandlerResponse
build_config_response c = record {
  title = c.metadata.title;
  show_last_updated = c.metadata.show_last_updated;
  frontend_design = c.metadata.frontend_design;
  retention_days = c.dataset.retention_days;
  degraded_threshold_minutes = c.dataset.degraded_threshold_minutes;
  degraded_threshold_consecutive_buckets = c.dataset.degraded_threshold_consecutive_buckets;
  failure_threshold_minutes = c.dataset.failure_threshold_minutes;
}

unfoldable pub derived_limit : ℕ → ℕ
derived_limit gomaxprocs = if ltb (gomaxprocs / 2) 1 then 1 else gomaxprocs / 2

unfoldable pub resolve_duckdb_read_concurrency_limit : ℤ → ℕ → ℕ
unfolding derived_limit
resolve_duckdb_read_concurrency_limit (pos zero) gomaxprocs = derived_limit gomaxprocs
resolve_duckdb_read_concurrency_limit (pos (suc n)) gomaxprocs = suc n
resolve_duckdb_read_concurrency_limit (negsuc n) gomaxprocs = derived_limit gomaxprocs

-- Requests can always read: the limit is never 0.
resolve_limit_positive :
    (configured : ℤ) (gomaxprocs : ℕ)
    → 0 < resolve_duckdb_read_concurrency_limit configured gomaxprocs
unfolding resolve_duckdb_read_concurrency_limit
resolve_limit_positive (pos zero) gomaxprocs = ground arith
resolve_limit_positive (pos (suc n)) gomaxprocs = omega arith
resolve_limit_positive (negsuc n) gomaxprocs = ground arith
