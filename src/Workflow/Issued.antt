-- ===== src/Workflow/Issued.antt =====
-- What the Temporal workflow of layer6/workflows/change_impact_workflow.py returns.
use live_system_intelligence.Prelude.{ℕ, String, List, map, ◌≡◌, refl}
use live_system_intelligence.Exec.{Exec}
use live_system_intelligence.Exec.Laws.{Returns, Returns-bind, Returns-then}
use live_system_intelligence.Certificate.{
  ChangeImpactCertificate, FunctionImpact, BlastRadius, SecurityDelta, function_impacts,
}
use live_system_intelligence.Certificate.Signing.{IsSound}
use live_system_intelligence.Certificate.Engine.{
  Services, compute_blast_radius, compute_security_delta,
}
use live_system_intelligence.Certificate.Issued.{
  IsIssued, IsTruncated, signed-verifies, compute_blast_radius-IsTruncated,
}
use live_system_intelligence.Webhook.{GitHub}
use live_system_intelligence.Workflow.{
  CertificateWorkflowInput, CertificateWorkflowOutput, Temporal, certificate, finish, run,
  output_of, narrative_activity, resolve_functions_activity, post_status,
}

-- Temporal hands on what an activity returned, in one of its attempts, and `gather` both results.
pub record IsFaithful {W : Type 0} (t : Temporal W) : Type 1 where
  pub one :
      {A : Type 0} (P : A → Type 0) (n : ℕ) (m : Exec W A)
      → ((v : W) → Returns P (m v))
      → (w : W) → Returns P (t.execute_activity n m w)
  pub both :
      {A B : Type 0} (P : A → Type 0) (l : Exec W A) (r : Exec W B)
      → ((v : W) → Returns P (l v))
      → (w : W) → Returns (λ (ab : A × B). P ab.0) (t.gather l r w)

module _ {W : Type 0} (services : Services W) (github : GitHub W) (temporal : Temporal W)
    (inp : CertificateWorkflowInput) where
  -- The output of a certificate that verifies, for the pull request and the service of the input.
  pub record IsOutput (out : CertificateWorkflowOutput) : Type 0 where
    pub cert : ChangeImpactCertificate
    pub output : out ≡ output_of services github cert
    pub issued : IsIssued services inp.pr_id inp.service cert

  module _ (sound : IsSound services.crypto) (faithful : IsFaithful temporal) where
    certificate-IsIssued :
        (start : ℕ) (changed : List FunctionImpact) (blast : BlastRadius) (delta : SecurityDelta)
        → IsTruncated services sound blast
        → (narrative : String) (w : W)
        → IsIssued services inp.pr_id inp.service
            (certificate services github inp start changed blast delta narrative w)
    unfolding certificate
    certificate-IsIssued start changed blast delta cut narrative w = record {
      verifies = signed-verifies services sound _;
      risk = refl;
      direct = cut;
      for_pr = refl;
      for_service = refl;
    }

    finish-IsOutput :
        (start : ℕ) (changed : List FunctionImpact) (blast : BlastRadius) (delta : SecurityDelta)
        → IsTruncated services sound blast
        → (w : W)
        → Returns IsOutput (finish services github temporal inp start changed blast delta w)
    unfolding finish
    finish-IsOutput start changed blast delta cut w =
        Returns-bind IsOutput
          (temporal.execute_activity 3
            (narrative_activity services github inp.pr_id changed blast delta))
          _ w
          λ narrative v.
            let cert = certificate services github inp start changed blast delta narrative v in
            Returns-bind IsOutput (post_status services github temporal inp cert) _ v λ _ u.
              record {
                cert = cert;
                output = refl;
                issued = certificate-IsIssued start changed blast delta cut narrative v;
              }

    -- With sound cryptographic functions and a Temporal that hands on results faithfully, whatever the
    -- workflow returns is the output of a certificate that verifies under the secret,
    -- with the risk level of its own findings, as `generate_certificate` returns it.
    pub run-IsOutput : (w : W) → Returns IsOutput (run services github temporal inp w)
    unfolding run
    run-IsOutput w =
        Returns-bind IsOutput
          (temporal.execute_activity 3 (resolve_functions_activity services github inp)) _ w
          λ rows v.
            let ids = map (λ f. f.function_id) (function_impacts rows) in
            Returns-then (λ (bd : BlastRadius × SecurityDelta). IsTruncated services sound bd.0)
              IsOutput
              (temporal.gather (temporal.execute_activity 3 (compute_blast_radius services ids))
                (temporal.execute_activity 3 (compute_security_delta services ids inp.service)))
              _ v
              (faithful.both (IsTruncated services sound) _ _
                (faithful.one (IsTruncated services sound) 3 (compute_blast_radius services ids)
                  (compute_blast_radius-IsTruncated services sound ids))
                v)
              λ (blast, delta) cut u. finish-IsOutput _ (function_impacts rows) blast delta cut u
