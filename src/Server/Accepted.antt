-- ===== src/Server/Accepted.antt =====
-- What becomes of the submission of a registered checker.
use eyrie.Base.{
  pair_eq, ◌≤◌, String, ◌≡◌, refl, ap, ◌∙◌, Bool, false, Option, none, some, List, [], ◌∷◌, ◌++◌,
  arith, ◌==◌, nat_eq, string_eq, find_first, count, count-append, get, equality_refl,
}
use mathlib.Core.Path.{subst}
use eyrie.Monitor.{RegisteredChecker}
use eyrie.Config.{Float64}
use eyrie.Config.Server.{ServerConfig, validate_server_config}
use eyrie.Config.Server.Unique.{validate_server_config_unique}
use eyrie.Submission.{CheckerSubmissionRequest}
use eyrie.Ingester.Worker.{region_of}
use eyrie.Server.{
  SubmitEnv, Queues, ok, unauthorized, checker_submission, submit_as, find_by_key,
  enqueue_submission, queued_submission, request_id, send,
}

find_first-none {ℓ} :
    {A : Type ℓ} (p : A → Bool) (xs ys : List A)
    → count p xs ≡ 0
    → find_first p (xs ++ ys) ≡ find_first p ys
find_first-none p [] ys h = refl
find_first-none p (x ∷ xs) ys h = ground (arith, find_first-none p xs ys)

find_first_missing {ℓ} :
    {A : Type ℓ} (p : A → Bool) (xs : List A) → count p xs ≡ 0 → find_first p xs ≡ none
find_first_missing p [] h = refl
find_first_missing p (x ∷ xs) h = ground (arith, find_first_missing p xs)

-- The one checker with a key is found by it.
find_by_key_unique :
    (xs ys : List RegisteredChecker) (c : RegisteredChecker)
    → count (λ r. r.api_key == c.api_key) (xs ++ c ∷ ys) ≤ 1
    → find_by_key (xs ++ c ∷ ys) c.api_key ≡ some c
unfolding find_by_key
find_by_key_unique xs ys c h =
    let p = λ (r : RegisteredChecker). r.api_key == c.api_key in
    find_first-none p xs (c ∷ ys)
      (ground (arith, count-append p xs (c ∷ ys), equality_refl c.api_key))
    ∙ ground (arith, equality_refl c.api_key)

module _ {fl : Float64} (env : SubmitEnv) (cfg : ServerConfig fl) where
  submitted :
      (c : RegisteredChecker) (request : CheckerSubmissionRequest) (queues : Queues)
      (o : Option RegisteredChecker)
      → o ≡ some c
      → env.marshal_fails ≡ false
      → env.processor_send_fails ≡ false
      → env.ingester_send_fails ≡ false
      → submit_as env o (some request) queues ≡ (
        record {
          processor =
              queues.processor
              ++ queued_submission env.processor_received_at
                  (request_id env request)
                  request
                  c.region
                ∷ [];
          ingester =
              queues.ingester
              ++ queued_submission env.ingester_received_at
                  (request_id env request)
                  request
                  c.region
                ∷ [];
        },
        ok tt,
      )
  unfolding submit_as enqueue_submission send
  submitted c request queues o e marshalled sent ingested = ground arith

  -- Under a validated configuration, a submission that decodes and comes with the key of a registered
  -- checker is accepted, provided that it can be marshalled and that neither queue refuses it: it is queued for the processor and for the ingester, behind what is queued
  -- there, and the ingester will store it under the region of that very checker.
  pub checker_submission_accepted :
      (xs ys : List RegisteredChecker) (c : RegisteredChecker) (request : CheckerSubmissionRequest)
      (queues : Queues)
      → validate_server_config cfg ≡ none
      → cfg.registered_checkers ≡ xs ++ c ∷ ys
      → env.marshal_fails ≡ false
      → env.processor_send_fails ≡ false
      → env.ingester_send_fails ≡ false
      → (checker_submission env cfg c.api_key (some request) queues ≡ (
        record {
          processor =
              queues.processor
              ++ queued_submission env.processor_received_at
                  (request_id env request)
                  request
                  c.region
                ∷ [];
          ingester =
              queues.ingester
              ++ queued_submission env.ingester_received_at
                  (request_id env request)
                  request
                  c.region
                ∷ [];
        },
        ok tt,
      ))
        × (region_of (
              some
                (queued_submission env.ingester_received_at
                  (request_id env request)
                  request
                  c.region).metadata)
            ≡ c.region)
  unfolding checker_submission submit_as enqueue_submission send queued_submission region_of get
  checker_submission_accepted xs ys c request queues valid listed marshalled sent ingested =
      let once : count (λ r. r.api_key == c.api_key) (xs ++ c ∷ ys) ≤ 1 =
        subst (λ l. count (λ r. r.api_key == c.api_key) l ≤ 1) listed
          (validate_server_config_unique cfg "" c.api_key "" valid).1 in
      let found : find_by_key cfg.registered_checkers c.api_key ≡ some c =
        ap (λ l. find_by_key l c.api_key) listed ∙ find_by_key_unique xs ys c once in
      (
        submitted c request queues (find_by_key cfg.registered_checkers c.api_key) found marshalled
            sent ingested,
        ground arith,
      )

  -- Without a registered key nothing is queued.
  checker_submission_unauthorized :
      (api_key : String) (body : Option CheckerSubmissionRequest) (queues : Queues)
      → count (λ r. r.api_key == api_key) cfg.registered_checkers ≡ 0
      → checker_submission env cfg api_key body queues ≡ (queues, unauthorized)
  unfolding checker_submission submit_as find_by_key
  checker_submission_unauthorized api_key body queues h =
      ap (λ o. submit_as env o body queues) (find_first_missing (λ r. r.api_key == api_key) _ h)
