-- ===== src/Certificate/Issued.antt =====
-- The certificates that `generate_certificate` of layer6/certificate_engine.py returns.
use live_system_intelligence.Prelude.{
  ℕ, String, true, List, [], ◌∷◌, map, take, is_empty, if◌then◌else◌, ◌≡◌, refl, string_eq,
}
use live_system_intelligence.Exec.{ok, pure, try_except}
use live_system_intelligence.Exec.Laws.{Returns, Returns-bind, Returns-then}
use live_system_intelligence.Certificate.{
  FunctionImpact, BlastRow, BlastRadius, SecurityDelta, ChangeImpactCertificate, function_impacts,
  blast_of, determine_risk_level,
}
use live_system_intelligence.Certificate.Signing.{
  IsSound, sign_certificate, verify_certificate, verify_certificate-sign,
}
use live_system_intelligence.Certificate.Encode.{asdict, asdict-signature}
use live_system_intelligence.Certificate.Narrative.{generate_narrative}
use live_system_intelligence.Certificate.Engine.{
  Services, compute_blast_radius, compute_security_delta, signed, assemble, conclude,
  generate_certificate,
}

module _ {W : Type 0} (services : Services W) where
  -- A certificate whose signature verifies and whose risk level is that of its own findings.
  pub record IsIssued (pr_id service : String) (cert : ChangeImpactCertificate) : Type 0 where
    pub verifies : verify_certificate services.crypto services.secret (asdict cert) ≡ ok true
    pub risk : cert.risk_level ≡ determine_risk_level cert.security_delta cert.blast_radius
    pub direct : cert.blast_radius.direct_callers ≡ take 20 cert.blast_radius.transitive_callers
    pub for_pr : cert.pr_id ≡ pr_id
    pub for_service : cert.service ≡ service

  module _ (sound : IsSound services.crypto) where
    pub signed-verifies :
        (cert : ChangeImpactCertificate)
        → verify_certificate services.crypto services.secret (asdict (signed services cert))
          ≡ ok true
    unfolding signed
    signed-verifies cert =
        rw (asdict-signature cert (sign_certificate services.crypto services.secret (asdict cert)))
          (verify_certificate-sign services.crypto services.secret sound (asdict cert))

    abbrev pub IsTruncated : BlastRadius → Type 0
    IsTruncated blast = blast.direct_callers ≡ take 20 blast.transitive_callers

    blast_of-IsTruncated : (rows : List BlastRow) → IsTruncated (blast_of rows)
    unfolding blast_of
    blast_of-IsTruncated [] = refl
    blast_of-IsTruncated (r ∷ rs) = refl

    pub compute_blast_radius-IsTruncated :
        (ids : List String) (w : W) → Returns IsTruncated (compute_blast_radius services ids w)
    unfolding compute_blast_radius
    compute_blast_radius-IsTruncated [] w = refl
    compute_blast_radius-IsTruncated (i ∷ ids) w =
        Returns-bind IsTruncated (services.blast_rows (i ∷ ids)) _ w λ rows v.
          Returns-bind IsTruncated
            (if is_empty rows then services.single_hop_rows (i ∷ ids) else pure rows) _ v
            λ rows' u. blast_of-IsTruncated rows'

    module _ (cert_id pr_id service generated_at : String) (start : ℕ)
        (changed : List FunctionImpact) (blast : BlastRadius) (delta : SecurityDelta)
        (cut : IsTruncated blast) where
      assemble-IsIssued :
          (narrative : String) (stop : ℕ)
          → IsIssued pr_id service (
              assemble services cert_id pr_id service generated_at start changed blast delta
                narrative stop)
      unfolding assemble
      assemble-IsIssued narrative stop = record {
        verifies = signed-verifies _;
        risk = refl;
        direct = cut;
        for_pr = refl;
        for_service = refl;
      }

      conclude-IsIssued :
          (w : W)
          → Returns
              (IsIssued pr_id service)
              (conclude services cert_id pr_id service generated_at start changed blast delta w)
      unfolding conclude
      conclude-IsIssued w =
          Returns-bind (IsIssued pr_id service)
            (generate_narrative services.writer pr_id changed blast delta
              (determine_risk_level delta blast))
            _ w
            λ narrative v.
              Returns-bind (IsIssued pr_id service)
                (try_except (services.write_duration pr_id _) (λ e. pure tt)) _ v
                λ _ u. assemble-IsIssued narrative (services.monotonic_ms v)

    -- With sound cryptographic functions, every certificate that is returned verifies under the secret that signed it, and states the
    -- risk level of its own findings; its direct callers are the first 20 of its transitive ones,
    -- and it is for the pull request and the service that were asked for.
    pub generate_certificate-IsIssued :
        (pr_id : String) (changed_files : List String) (service : String) (w : W)
        → Returns
            (IsIssued pr_id service)
            (generate_certificate services pr_id changed_files service w)
    unfolding generate_certificate
    generate_certificate-IsIssued pr_id changed_files service w =
        Returns-bind (IsIssued pr_id service) (services.changed_rows changed_files service) _ w
          λ rows v.
            let ids = map (λ f. f.function_id) (function_impacts rows) in
            Returns-then IsTruncated (IsIssued pr_id service) (compute_blast_radius services ids) _
              v (compute_blast_radius-IsTruncated ids v)
              λ blast cut u.
                Returns-bind (IsIssued pr_id service) (compute_security_delta services ids service)
                  _ u
                  λ delta t.
                    conclude-IsIssued _ pr_id service _ _ (function_impacts rows) blast delta cut t
