-- ===== src/Certificate/Engine.antt =====
-- layer6/certificate_engine.py: the queries, and `generate_certificate`. The graph database, the
-- clocks, the metrics store and the environment are the record `Services`.
use live_system_intelligence.Prelude.{ℕ, ◌-◌, String, ◌<>◌, List, map, is_empty, if◌then◌else◌}
use live_system_intelligence.Exec.{ok, Exec, pure, try_except, ◌>>=◌, ◌>>◌}
use live_system_intelligence.Certificate.{
  FunctionRow, FunctionImpact, VulnRow, FlowRow, BlastRow, BlastRadius, SecurityDelta,
  ChangeImpactCertificate, function_impacts, no_blast, blast_of, security_delta_of,
  determine_risk_level,
}
use live_system_intelligence.Certificate.Signing.{Crypto, sign_certificate}
use live_system_intelligence.Certificate.Encode.{asdict}
use live_system_intelligence.Certificate.Narrative.{Writer, generate_narrative}

pub record Services (W : Type 0) : Type 0 where
  pub changed_rows : List String → String → Exec W (List FunctionRow)
  pub blast_rows : List String → Exec W (List BlastRow)
  pub single_hop_rows : List String → Exec W (List BlastRow)
  pub vuln_rows : String → List String → Exec W (List VulnRow)
  pub flow_rows : List String → Exec W (List FlowRow)
  pub writer : Writer W
  pub monotonic_ms : W → ℕ
  pub utcnow : W → String
  pub unix_time : W → ℕ
  pub write_duration : String → ℕ → Exec W Unit
  pub crypto : Crypto
  pub secret : String

abbrev pub gets : {W A : Type 0} → (W → A) → Exec W A
gets f w = (ok (f w), w)

module _ {W : Type 0} (services : Services W) where
  -- The second query is asked only if the first has no row.
  unfoldable pub compute_blast_radius : List String → Exec W BlastRadius
  compute_blast_radius function_ids = if is_empty function_ids then pure no_blast else (do
    rows ← services.blast_rows function_ids
    rows' ← if is_empty rows then services.single_hop_rows function_ids else pure rows
    pure (blast_of rows'))

  unfoldable pub compute_security_delta : List String → String → Exec W SecurityDelta
  compute_security_delta function_ids service = do
    new_vulns ← services.vuln_rows service function_ids
    pii_flows ← services.flow_rows function_ids
    pure (security_delta_of new_vulns pii_flows)

  -- `cert.signature = _sign_certificate(asdict(cert))`
  unfoldable pub signed : ChangeImpactCertificate → ChangeImpactCertificate
  signed cert = record cert {
    signature = sign_certificate services.crypto services.secret (asdict cert);
  }

  module _ (cert_id pr_id service generated_at : String) (start : ℕ)
      (changed_functions : List FunctionImpact) (blast : BlastRadius) (delta : SecurityDelta) where
    -- Step 6: the signed certificate.
    unfoldable pub assemble : String → ℕ → ChangeImpactCertificate
    unfolding signed
    assemble narrative stop = signed (record {
      certificate_id = cert_id;
      pr_id = pr_id;
      service = service;
      generated_at = generated_at;
      generation_duration_ms = stop - start;
      changed_functions = changed_functions;
      blast_radius = blast;
      security_delta = delta;
      narrative = narrative;
      risk_level = determine_risk_level delta blast;
      signature = "";
    })

    -- Steps 4 to 7, once the impact is known; the metrics may fail.
    unfoldable pub conclude : Exec W ChangeImpactCertificate
    unfolding assemble
    conclude = do
      let risk_level = determine_risk_level delta blast
      narrative ← generate_narrative services.writer pr_id changed_functions blast delta risk_level
      stop ← gets services.monotonic_ms
      try_except (services.write_duration pr_id (stop - start)) (λ e. pure tt)
      pure (assemble narrative stop)

  unfoldable pub generate_certificate :
      String → List String → String → Exec W ChangeImpactCertificate
  unfolding conclude compute_blast_radius compute_security_delta
  generate_certificate pr_id changed_files service = do
    start ← gets services.monotonic_ms
    generated_at ← gets services.utcnow
    now ← gets services.unix_time
    let cert_id = "lsig-cert-" <> pr_id <> "-" <> services.writer.show now
    fn_rows ← services.changed_rows changed_files service
    let changed_functions = function_impacts fn_rows
    let function_ids = map (λ f. f.function_id) changed_functions
    blast ← compute_blast_radius function_ids
    delta ← compute_security_delta function_ids service
    conclude cert_id pr_id service generated_at start changed_functions blast delta
