-- ===== src/Webhook/Job.antt =====
-- layer6/github_webhook.py: the reports of a certificate to GitHub, and the background job.
use live_system_intelligence.Prelude.{
  ℕ, String, ◌<>◌, Option, none, some, List, [], ◌∷◌, length, if◌then◌else◌, ltb, ◌==◌, string_eq,
}
use Prim.Native.String.{len}
use live_system_intelligence.Exec.{Error, Exec, pure, try_except, ◌>>=◌, ◌>>◌}
use live_system_intelligence.Certificate.{ChangeImpactCertificate}
use live_system_intelligence.Certificate.Json.{Json, str, num, obj}
use live_system_intelligence.Certificate.Encode.{asdict}
use live_system_intelligence.Certificate.Engine.{Services, generate_certificate}
use live_system_intelligence.Webhook.{GitHub, dict, gh_request}
use live_system_intelligence.Text.{slice_to}

-- `risk_to_conclusion.get(cert.risk_level, "neutral")`
unfoldable pub conclusion_of : String → String
conclusion_of risk_level =
    if risk_level == "CRITICAL"
    then "failure"
    else if risk_level == "HIGH"
    then "failure"
    else if risk_level == "MEDIUM"
    then "neutral"
    else if risk_level == "LOW"
    then "success"
    else if risk_level == "NONE"
    then "success"
    else "neutral"

abbrev pub risk_emoji : String → String
risk_emoji risk_level =
    if risk_level == "CRITICAL"
    then "🔴"
    else if risk_level == "HIGH"
    then "🟠"
    else if risk_level == "MEDIUM"
    then "🟡"
    else if risk_level == "LOW"
    then "🟢"
    else if risk_level == "NONE"
    then "✅"
    else "⚪"

-- The text of a report, within GitHub's limit.
abbrev pub truncated : String → String
truncated cert_json =
    if ltb 60000 (len cert_json) then slice_to 60000 cert_json <> "\n... (truncated)" else cert_json

module _ {W : Type 0} (github : GitHub W) where
  abbrev pub show : ℕ → String
  show n = github.text_of (num n)

  abbrev pub check_run_url : String → String → String
  check_run_url repo_full_name check_run_id =
      "https://api.github.com/repos/" <> repo_full_name <> "/check-runs/" <> check_run_id

  abbrev pub completed_body : ChangeImpactCertificate → String → Json
  completed_body cert completed_at = obj (
      dict (
        ("status", str "completed")
        ∷ ("completed_at", str completed_at)
        ∷ ("conclusion", str (conclusion_of cert.risk_level))
        ∷ (
          "output",
          obj (
              dict (
                (
                  "title",
                  str (
                      "Risk: "
                      <> cert.risk_level
                      <> " — "
                      <> show (length cert.changed_functions)
                      <> " function(s) changed"),
                )
                ∷ ("summary", str cert.narrative)
                ∷ (
                  "text",
                  str ("```json\n" <> truncated (github.dumps_indented (asdict cert)) <> "\n```"),
                )
                ∷ [])),
        )
        ∷ []))

  abbrev pub failed_body : String → Json
  failed_body message = obj (
      dict (
        ("status", str "completed")
        ∷ ("conclusion", str "failure")
        ∷ (
          "output",
          obj (
              dict
                (("title", str "Certificate generation failed") ∷ ("summary", str message) ∷ [])),
        )
        ∷ []))

  unfoldable pub update_check_run : String → String → ChangeImpactCertificate → Exec W Unit
  unfolding gh_request
  update_check_run repo_full_name check_run_id cert w =
      (do
        gh_request github "PATCH" (check_run_url repo_full_name check_run_id)
            (some (completed_body cert (github.utcnow w)))
        pure tt)
        w

  abbrev pub comment_body : ChangeImpactCertificate → String
  comment_body cert =
      "## "
      <> risk_emoji cert.risk_level
      <> " LSIG Change Impact Certificate\n\n"
      <> "**Risk Level:** "
      <> cert.risk_level
      <> "  \n"
      <> "**Certificate ID:** `"
      <> cert.certificate_id
      <> "`  \n"
      <> "**Generated in:** "
      <> show cert.generation_duration_ms
      <> "ms\n\n"
      <> "### Summary\n"
      <> cert.narrative
      <> "\n\n"
      <> "### Impact\n"
      <> "- **Functions changed:** "
      <> show (length cert.changed_functions)
      <> "\n"
      <> "- **Blast radius:** "
      <> show (length cert.blast_radius.transitive_callers)
      <> " callers, "
      <> show (length cert.blast_radius.affected_endpoints)
      <> " endpoints\n"
      <> "- **Critical CVEs in scope:** "
      <> show (length cert.security_delta.new_critical_vulns)
      <> "\n"
      <> "- **PII flows affected:** "
      <> show (length cert.security_delta.pii_flows_added)
      <> "\n\n"
      <> "<details><summary>Full certificate JSON</summary>\n\n"
      <> "```json\n"
      <> slice_to 8000 (github.dumps_indented (asdict cert))
      <> "\n```\n"
      <> "</details>\n\n"
      <> "*[LSIG](https://github.com/lsig) · "
      <> "[View dashboard](/service/"
      <> cert.service
      <> ")*"

  unfoldable pub post_pr_comment : String → ℕ → ChangeImpactCertificate → Exec W Unit
  unfolding gh_request
  post_pr_comment repo_full_name pr_number cert = do
    gh_request github "POST"
        ("https://api.github.com/repos/"
          <> repo_full_name
          <> "/issues/"
          <> show pr_number
          <> "/comments")
        (some (obj (dict (("body", str (comment_body cert)) ∷ []))))
    pure tt

  -- What runs only if there is a check run; an empty ID counts as none.
  abbrev pub if_check_run : Option String → (String → Exec W Unit) → Exec W Unit
  if_check_run none f = pure tt
  if_check_run (some id) f = if id == "" then pure tt else f id

  module _ (services : Services W) (repo_full_name : String) (pr_number : ℕ)
      (check_run_id : Option String) where
    abbrev pub report_certificate : ChangeImpactCertificate → Exec W Unit
    report_certificate cert = do
      if_check_run check_run_id (λ id. update_check_run repo_full_name id cert)
      post_pr_comment repo_full_name pr_number cert

    abbrev pub report_failure : Error → Exec W Unit
    report_failure e = if_check_run check_run_id λ id. do
      gh_request github "PATCH" (check_run_url repo_full_name id) (some (failed_body e.message))
      pure tt

    -- `_run_certificate_job`
    unfoldable pub run_certificate_job : String → List String → String → Exec W Unit
    unfolding update_check_run post_pr_comment gh_request
    run_certificate_job pr_id changed_files service =
        try_except
          (do
            cert ← generate_certificate services pr_id changed_files service
            report_certificate cert)
          report_failure
