-- ===== src/Webhook/Handler.antt =====
-- layer6/github_webhook.py: the signature of a delivery, the service map, and the endpoint, which
-- queues the background job. A delivery is decoded to the types that GitHub documents; a member
-- that may be missing is an option, and `loads` is `json.loads`.
use live_system_intelligence.Prelude.{
  ℕ, String, ◌<>◌, Bool, true, false, Option, none, some, List, [], ◌∷◌, length, contains,
  if◌then◌else◌, ◌==◌, string_eq,
}
use live_system_intelligence.Prelude.Dict.{Dict, lookup, insert}
use live_system_intelligence.Exec.{Error, Result, ok, Exec, pure, raise, lift, ◌>>=◌}
use live_system_intelligence.Certificate.Json.{num}
use live_system_intelligence.Webhook.{GitHub, create_check_run, get_pr_changed_files}
use live_system_intelligence.Text.{starts_with, split, split_at, strip}

pub record PullRequestEvent : Type 0 where
  pub action : Option String
  pub number : Option ℕ
  pub head_sha : Option String
  pub full_name : Option String
  pub name : Option String

pub record Delivery : Type 0 where
  pub body : String
  pub signature : Option String
  pub event : Option String

-- The call of `_run_certificate_job` that `add_task` stores.
pub record Task : Type 0 where
  pub repo_full_name : String
  pub pr_id : String
  pub pr_number : ℕ
  pub head_sha : String
  pub changed_files : List String
  pub service : String
  pub check_run_id : Option String

pub data Response : Type 0 where
  ignored_event : String → Response
  ignored_action : String → Response
  accepted : String → Option String → ℕ → Response

-- A response, and the tasks that run once it is sent.
pub record Reply : Type 0 where
  pub response : Response
  pub tasks : List Task

abbrev pub or_text : String → Option String → String
or_text default none = default
or_text default (some s) = s

abbrev pub or_zero : Option ℕ → ℕ
or_zero none = 0
or_zero (some n) = n

abbrev pub add_pair : Option (String × String) → Dict String String → Dict String String
add_pair none result = result
add_pair (some (repo, svc)) result = insert (strip repo) (strip svc) result

abbrev pub add_pairs : List String → Dict String String → Dict String String
add_pairs [] result = result
add_pairs (pair ∷ pairs) result = add_pairs pairs (add_pair (split_at b':' (strip pair)) result)

-- `_service_map`
unfoldable pub service_map : String → Dict String String
unfolding insert
service_map raw = add_pairs (split b',' raw) []

-- `a or b`
abbrev pub or_else : Option String → String → String
or_else none b = b
or_else (some a) b = if a == "" then b else a

unfoldable pub service_of : String → String → String → String
unfolding service_map lookup
service_of raw repo_full_name repo_name =
    or_else (lookup repo_full_name (service_map raw))
      (or_else (lookup repo_name (service_map raw)) repo_name)

abbrev pub http_exception : String → Error
http_exception message = record { kind = "HTTPException"; message = message }

abbrev pub actions : List String
actions = "opened" ∷ "synchronize" ∷ "reopened" ∷ []

module _ {W : Type 0} (github : GitHub W) where
  abbrev pub expected_signature : String → String
  expected_signature payload = "sha256=" <> github.crypto.hexdigest github.webhook_secret payload

  abbrev pub verify_header : String → Option String → Result Bool
  verify_header payload none = ok false
  verify_header payload (some header) =
      if header == ""
      then ok false
      else if starts_with "sha256=" header
      then github.crypto.compare_digest (expected_signature payload) header
      else ok false

  -- `_verify_github_signature`; without a secret, every delivery is let in.
  unfoldable pub verify_github_signature : String → Option String → Result Bool
  verify_github_signature payload signature_header =
      if github.webhook_secret == "" then ok true else verify_header payload signature_header

  module _ (loads : String → Option PullRequestEvent) where
    -- The endpoint, once an action of interest is known.
    unfoldable pub queue_job : PullRequestEvent → Exec W Reply
    unfolding create_check_run get_pr_changed_files service_of
    queue_job data' = do
      let repo_full_name = or_text "" data'.full_name
      let pr_number = or_zero data'.number
      let head_sha = or_text "" data'.head_sha
      let service = service_of github.service_map_text repo_full_name (or_text "" data'.name)
      let pr_id = "github:" <> repo_full_name <> ":PR-" <> github.text_of (num pr_number)
      check_run_id ← create_check_run github repo_full_name head_sha pr_number
      changed_files ← get_pr_changed_files github repo_full_name pr_number
      pure (record {
        response = accepted pr_id check_run_id (length changed_files);
        tasks =
            record {
              repo_full_name = repo_full_name;
              pr_id = pr_id;
              pr_number = pr_number;
              head_sha = head_sha;
              changed_files = changed_files;
              service = service;
              check_run_id = check_run_id;
            }
            ∷ [];
      })

    abbrev pub on_payload : Option PullRequestEvent → Exec W Reply
    on_payload none = raise (http_exception "400: Invalid JSON payload")
    on_payload (some data') =
        let action = or_text "" data'.action in
        if contains action actions
        then queue_job data'
        else pure (record { response = ignored_action action; tasks = [] })

    abbrev pub on_event : Delivery → Exec W Reply
    on_event d =
        let event = or_text "" d.event in
        if event == "pull_request"
        then on_payload (loads d.body)
        else pure (record { response = ignored_event event; tasks = [] })

    abbrev pub on_verified : Delivery → Bool → Exec W Reply
    on_verified d true = on_event d
    on_verified d false = raise (http_exception "401: Invalid webhook signature")

    unfoldable pub github_webhook : Delivery → Exec W Reply
    unfolding queue_job verify_github_signature
    github_webhook d = lift (verify_github_signature d.body d.signature) >>= on_verified d
