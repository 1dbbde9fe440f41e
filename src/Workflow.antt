-- ===== src/Workflow.antt =====
-- layer6/workflows/change_impact_workflow.py: the Temporal workflow that makes a certificate from the
-- steps of layer6/certificate_engine.py. Temporal's `execute_activity`, with its number of attempts,
-- and `asyncio.gather` are the record `Temporal`. An activity's dict of a dataclass is that record:
-- `asdict` and the constructor on its entries undo each other.
pub mod Issued
use live_system_intelligence.Prelude.{
  ℕ, ◌-◌, String, ◌<>◌, Bool, true, false, not, ◌&&◌, ◌||◌, List, [], ◌∷◌, map, ltb, if◌then◌else◌,
  ◌==◌, string_eq, Option, some,
}
use live_system_intelligence.Exec.{Error, Result, ok, err, Exec, pure, try_except, ◌>>=◌, ◌>>◌}
use live_system_intelligence.Certificate.{
  FunctionRow, FunctionImpact, BlastRadius, SecurityDelta, ChangeImpactCertificate,
  function_impacts, determine_risk_level,
}
use live_system_intelligence.Certificate.Narrative.{generate_narrative}
use live_system_intelligence.Certificate.Engine.{
  Services, compute_blast_radius, compute_security_delta, signed, gets,
}
use live_system_intelligence.Webhook.{GitHub}
use live_system_intelligence.Webhook.Job.{update_check_run, post_pr_comment}

pub record CertificateWorkflowInput : Type 0 where
  pub pr_id : String
  pub service : String
  pub changed_files : List String
  pub repo_full_name : String
  pub pr_number : ℕ
  pub check_run_id : String

pub record CertificateWorkflowOutput : Type 0 where
  pub certificate_id : String
  pub risk_level : String
  pub generation_duration_ms : ℕ
  pub signature : String

pub record Temporal (W : Type 0) : Type 1 where
  pub execute_activity : {A : Type 0} → ℕ → Exec W A → Exec W A
  pub gather : {A B : Type 0} → Exec W A → Exec W B → Exec W (A × B)

module _ {W : Type 0} (services : Services W) (github : GitHub W) where
  unfoldable pub resolve_functions_activity : CertificateWorkflowInput → Exec W (List FunctionRow)
  resolve_functions_activity inp = services.changed_rows inp.changed_files inp.service

  -- The risk level is computed again from the payload.
  unfoldable pub narrative_activity :
      String → List FunctionImpact → BlastRadius → SecurityDelta → Exec W String
  narrative_activity pr_id fns blast delta =
      generate_narrative services.writer pr_id fns blast delta (determine_risk_level delta blast)

  unfoldable pub post_github_status_activity :
      CertificateWorkflowInput → ChangeImpactCertificate → Exec W Unit
  unfolding update_check_run post_pr_comment
  post_github_status_activity inp cert = do
    if not (inp.check_run_id == "") && not (inp.repo_full_name == "")
        then update_check_run github inp.repo_full_name inp.check_run_id cert
        else pure tt
    if ltb 0 inp.pr_number && not (inp.repo_full_name == "")
        then post_pr_comment github inp.repo_full_name inp.pr_number cert
        else pure tt

  abbrev pub output_of : ChangeImpactCertificate → CertificateWorkflowOutput
  output_of cert = record {
    certificate_id = cert.certificate_id;
    risk_level = cert.risk_level;
    generation_duration_ms = cert.generation_duration_ms;
    signature = cert.signature;
  }

  -- Step 5: the ID is made here, and `generated_at` is the end of the run.
  unfoldable pub certificate :
      CertificateWorkflowInput
      → ℕ
      → List FunctionImpact
      → BlastRadius
      → SecurityDelta
      → String
      → W
      → ChangeImpactCertificate
  unfolding signed
  certificate inp start changed blast delta narrative w = signed services (record {
    certificate_id =
        "lsig-cert-" <> inp.pr_id <> "-" <> services.writer.show (services.unix_time w);
    pr_id = inp.pr_id;
    service = inp.service;
    generated_at = services.utcnow w;
    generation_duration_ms = services.monotonic_ms w - start;
    changed_functions = changed;
    blast_radius = blast;
    security_delta = delta;
    narrative = narrative;
    risk_level = determine_risk_level delta blast;
    signature = "";
  })

  module _ (temporal : Temporal W) (inp : CertificateWorkflowInput) where
    -- Step 6: GitHub's failures do not fail the certificate.
    unfoldable pub post_status : ChangeImpactCertificate → Exec W Unit
    unfolding post_github_status_activity
    post_status cert =
        if not (inp.check_run_id == "") || ltb 0 inp.pr_number
        then try_except (temporal.execute_activity 2 (post_github_status_activity inp cert))
            (λ e. pure tt)
        else pure tt

    unfoldable pub finish :
        ℕ → List FunctionImpact → BlastRadius → SecurityDelta → Exec W CertificateWorkflowOutput
    unfolding narrative_activity certificate post_status
    finish start changed blast delta = do
      narrative ← temporal.execute_activity 3 (narrative_activity inp.pr_id changed blast delta)
      cert ← gets (certificate inp start changed blast delta narrative)
      post_status cert
      pure (output_of cert)

    unfoldable pub run : Exec W CertificateWorkflowOutput
    unfolding resolve_functions_activity compute_blast_radius compute_security_delta finish
    run = do
      start ← gets services.monotonic_ms
      fn_rows ← temporal.execute_activity 3 (resolve_functions_activity inp)
      let changed = function_impacts fn_rows
      let function_ids = map (λ f. f.function_id) changed
      (blast, delta) ←
          temporal.gather (temporal.execute_activity 3 (compute_blast_radius services function_ids))
            (temporal.execute_activity 3 (compute_security_delta services function_ids inp.service))
      finish start changed blast delta
