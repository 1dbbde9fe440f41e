-- ===== src/Tests/Webhook.antt =====
-- layer6/github_webhook.py and layer6/workflows/change_impact_workflow.py, with a GitHub that is down.
use live_system_intelligence.Prelude.{
  ℕ, ◌+◌, String, true, Option, some, [], ◌∷◌, string_eq, ◌≡◌, ◌↔◌, refl,
}
use live_system_intelligence.Prelude.Dict.{insert}
use live_system_intelligence.Exec.{ok, err, pure, ◌>>=◌}
use live_system_intelligence.Exec.Laws.{Returns, Returns-then, Returns-bind}
use live_system_intelligence.Certificate.Engine.{generate_certificate}
use live_system_intelligence.Webhook.{GitHub}
use live_system_intelligence.Webhook.Job.{report_certificate, report_failure, run_certificate_job}
use live_system_intelligence.Webhook.Reports.{settle, run_certificate_job-settle}
use live_system_intelligence.Webhook.Handler.{
  PullRequestEvent, Delivery, service_map, expected_signature, verify_github_signature,
  github_webhook,
}
use live_system_intelligence.Webhook.Accepted.{
  AreDue, verify_github_signature_iff, github_webhook-AreDue,
}
use live_system_intelligence.Workflow.{CertificateWorkflowInput, Temporal, run}
use live_system_intelligence.Workflow.Issued.{IsFaithful, IsOutput, run-IsOutput}
use live_system_intelligence.Tests.Certificate.{services, unavailable}
use live_system_intelligence.Tests.Certificate.Signing.{crypto, crypto-IsSound}

abbrev github : GitHub ℕ
github = record {
  urlopen = λ request w. (err unavailable, w + 1);
  dumps = λ v. "{}";
  dumps_indented = λ d. "{}";
  text_of = λ v. "7";
  utcnow = λ w. "2024-01-01T00:00:00+00:00";
  crypto = crypto;
  webhook_secret = "hook";
  github_token = "token";
  service_map_text = "org/app:api, tool : cli";
}

service_map_run :
    service_map " org/app:api, tool : cli,junk" ≡ ("org/app", "api") ∷ ("tool", "cli") ∷ []
unfolding service_map insert
service_map_run = refl

abbrev event : PullRequestEvent
event = record {
  action = some "opened";
  number = some 7;
  head_sha = some "abc";
  full_name = some "org/app";
  name = some "app";
}

abbrev delivery : Delivery
delivery = record {
  body = "{}";
  signature = some (expected_signature github "{}");
  event = some "pull_request";
}

run_certificate_job-settle_example :
    run_certificate_job github services "org/app" 7 (some "99") "PR-7" ("auth/jwt.py" ∷ []) "auth" 0
    ≡ settle
        (generate_certificate services "PR-7" ("auth/jwt.py" ∷ []) "auth" 0).0
        (report_certificate github services "org/app" 7 (some "99"))
        (report_failure github services "org/app" 7 (some "99"))
        (generate_certificate services "PR-7" ("auth/jwt.py" ∷ []) "auth" 0).1
run_certificate_job-settle_example =
    run_certificate_job-settle github services "org/app" 7 (some "99") "PR-7" ("auth/jwt.py" ∷ [])
      "auth" 0

verify_github_signature_iff_example :
    (verify_github_signature github "{}" (some "sha256=0") ≡ ok true)
    ↔ (◌≡◌ {A = Option String} (some "sha256=0") (some (expected_signature github "{}")))
verify_github_signature_iff_example =
    verify_github_signature_iff github "{}" (some "sha256=0") crypto-IsSound refl

github_webhook-AreDue_example :
    Returns
      (AreDue github (λ s. some event) delivery)
      (github_webhook github (λ s. some event) delivery 0)
github_webhook-AreDue_example = github_webhook-AreDue github (λ s. some event) delivery 0

abbrev temporal : Temporal ℕ
temporal = record { execute_activity = λ n m. m; gather = λ l r. l >>= λ a. r >>= λ b. pure (a, b) }

temporal-IsFaithful : IsFaithful temporal
temporal-IsFaithful = record {
  one = λ P n m h w. h w;
  both = λ P l r h w.
      Returns-then P (λ ab. P ab.0) l _ w (h w) λ a p v. Returns-bind (λ ab. P ab.0) r _ v λ b u. p;
}

abbrev input : CertificateWorkflowInput
input = record {
  pr_id = "PR-7";
  service = "auth";
  changed_files = "auth/jwt.py" ∷ [];
  repo_full_name = "org/app";
  pr_number = 7;
  check_run_id = "";
}

run-IsOutput_example :
    Returns (IsOutput services github temporal input) (run services github temporal input 0)
run-IsOutput_example =
    run-IsOutput services github temporal input crypto-IsSound temporal-IsFaithful 0
