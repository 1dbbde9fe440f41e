-- ===== src/Certificate/Total.antt =====
-- When `generate_certificate` of layer6/certificate_engine.py returns a certificate.
use live_system_intelligence.Prelude.{
  ℕ, String, Option, none, some, List, [], ◌∷◌, map, take, is_empty, if◌then◌else◌, ◌≡◌, refl, ◌==◌,
  string_eq, Bool-cases, inl, inr,
}
use live_system_intelligence.Exec.{ok, pure, try_except}
use live_system_intelligence.Exec.Laws.{Succeeds, Succeeds-then, Succeeds-try_except}
use live_system_intelligence.Certificate.{
  FunctionRow, FunctionImpact, VulnRow, FlowRow, BlastRow, BlastRadius, SecurityDelta,
  ChangeImpactCertificate, function_impacts, no_blast, blast_of, security_delta_of,
  determine_risk_level,
}
use live_system_intelligence.Certificate.Narrative.{
  Writer, generate_narrative, texts, asked, with_key, fallback_narrative, prompt, or_default, join,
}
use live_system_intelligence.Retry.{with_attempts, with_retry}
use live_system_intelligence.Certificate.Engine.{
  Services, compute_blast_radius, compute_security_delta, signed, assemble, conclude,
  generate_certificate,
}

abbrev Any : {A : Type 0} → A → Type 0
Any a = Unit

module _ {W : Type 0} (writer : Writer W) where
  module _ (pr_id : String) (changed : List FunctionImpact) (blast : BlastRadius)
      (delta : SecurityDelta) (risk_level : String) where
    asked-Succeeds :
        (w : W) {ids : List String}
        → texts (map (λ v. v.cve_id) (take 3 delta.new_critical_vulns)) ≡ ok ids
        → Succeeds Any (asked writer pr_id changed blast delta risk_level w)
    unfolding asked
    asked-Succeeds w {ids} named =
        let text =
          prompt writer.show pr_id changed blast delta risk_level
            (or_default (join ", " ids) "none") in
        rw named (
          Succeeds-try_except Any
            (fallback_narrative writer.show pr_id changed blast delta risk_level)
            (with_retry writer.timing (with_attempts 2) (writer.ask text)) w (λ _. tt))

    -- Where the first CVEs have IDs, the narrative is written, if need be by the fallback.
    pub generate_narrative-Succeeds :
        (w : W) {ids : List String}
        → texts (map (λ v. v.cve_id) (take 3 delta.new_critical_vulns)) ≡ ok ids
        → Succeeds Any (generate_narrative writer pr_id changed blast delta risk_level w)
    unfolding generate_narrative
    generate_narrative-Succeeds w named = by_key writer.api_key (asked-Succeeds w named)
      where
        by_key :
            (k : Option String)
            → Succeeds Any (asked writer pr_id changed blast delta risk_level w)
            → Succeeds Any (with_key writer pr_id changed blast delta risk_level k w)
        by_key none told = tt
        by_key (some key) told = elim (Bool-cases (key == "")) [
          | inl e ↦ rw e tt
          | inr e ↦ rw e told
        ]

-- A database that answers each query from its content, by the query's arguments, and stays as it is.
pub record Answers {W : Type 0} (services : Services W) : Type 0 where
  pub rows : List String → String → List FunctionRow
  pub blast : List String → List BlastRow
  pub hop : List String → List BlastRow
  pub vulns : String → List String → List VulnRow
  pub flows : List String → List FlowRow
  pub gives_rows :
      (files : List String) (s : String) (w : W)
      → services.changed_rows files s w ≡ (ok (rows files s), w)
  pub gives_blast : (ids : List String) (w : W) → services.blast_rows ids w ≡ (ok (blast ids), w)
  pub gives_hop : (ids : List String) (w : W) → services.single_hop_rows ids w ≡ (ok (hop ids), w)
  pub gives_vulns :
      (s : String) (ids : List String) (w : W) → services.vuln_rows s ids w ≡ (ok (vulns s ids), w)
  pub gives_flows : (ids : List String) (w : W) → services.flow_rows ids w ≡ (ok (flows ids), w)

module _ {W : Type 0} (services : Services W) (answers : Answers services) where
  open answers use {
    rows, blast, hop, vulns, flows, gives_rows, gives_blast, gives_hop, gives_vulns, gives_flows,
  }

  -- What is found for these functions: the radius of the first query with a row, and none without
  -- a function.
  abbrev pub blast_for : List FunctionImpact → BlastRadius
  blast_for fs =
      let ids = map (λ f. f.function_id) fs in
      if is_empty fs
      then no_blast
      else blast_of (if is_empty (blast ids) then hop ids else blast ids)

  module _ (files : List String) (service : String) where
    abbrev pub impacts : List FunctionImpact
    impacts = function_impacts (rows files service)

    abbrev pub found_vulns : List VulnRow
    found_vulns = vulns service (map (λ f. f.function_id) impacts)

    abbrev pub found_delta : SecurityDelta
    found_delta = security_delta_of found_vulns (flows (map (λ f. f.function_id) impacts))

    -- The functions of the changed files, with their radius and their findings.
    pub record IsExpected (cert : ChangeImpactCertificate) : Type 0 where
      pub functions : cert.changed_functions ≡ impacts
      pub delta : cert.security_delta ≡ found_delta
      pub radius : cert.blast_radius ≡ blast_for impacts

  compute_blast_radius-eq :
      (fs : List FunctionImpact) (w : W)
      → compute_blast_radius services (map (λ f. f.function_id) fs) w ≡ (ok (blast_for fs), w)
  unfolding compute_blast_radius
  compute_blast_radius-eq [] w = refl
  compute_blast_radius-eq (f ∷ fs) w =
      let ids = map (λ g. g.function_id) (f ∷ fs) in
      elim (Bool-cases (is_empty (blast ids))) [
        | inl e ↦ rw (gives_blast ids w, e, gives_hop ids w) refl
        | inr e ↦ rw (gives_blast ids w, e) refl
      ]

  compute_security_delta-eq :
      (ids : List String) (s : String) (w : W)
      → compute_security_delta services ids s w
        ≡ (ok (security_delta_of (vulns s ids) (flows ids)), w)
  unfolding compute_security_delta
  compute_security_delta-eq ids s w = rw (gives_vulns s ids w, gives_flows ids w) refl

  module _ (files : List String) (service : String) where
    conclude-Succeeds :
        (cert_id pr_id generated_at : String) (start : ℕ) (w : W) {ids : List String}
        → texts (map (λ v. v.cve_id) (take 3 (found_vulns files service))) ≡ ok ids
        → Succeeds (IsExpected files service) (
            conclude services cert_id pr_id service generated_at start
              (impacts files service)
              (blast_for (impacts files service))
              (found_delta files service)
              w)
    unfolding conclude assemble signed
    conclude-Succeeds cert_id pr_id generated_at start w {ids} named =
        Succeeds-then Any (IsExpected files service)
          (generate_narrative services.writer pr_id (impacts files service)
            (blast_for (impacts files service)) (found_delta files service)
            (determine_risk_level (found_delta files service) (blast_for (impacts files service))))
          _ w
          (generate_narrative-Succeeds services.writer pr_id (impacts files service)
            (blast_for (impacts files service)) (found_delta files service) _ w {ids = ids}
            (unfold security_delta_of in named))
          λ narrative _ v.
            Succeeds-then Any (IsExpected files service)
              (try_except (services.write_duration pr_id _) (λ e. pure tt)) _ v
              (Succeeds-try_except Any tt (services.write_duration pr_id _) v (λ _. tt))
              λ _ _ u. record { functions = refl; delta = refl; radius = refl }

    -- Over a database that answers, where the first three CVEs of the changed functions have IDs, a
    -- certificate is returned, whatever the clocks, the model and the metrics store do. It holds the
    -- functions that the database has for the changed files and the service, and the radius and the
    -- findings that it has for the IDs of those functions.
    pub generate_certificate-Succeeds :
        (pr_id : String) (w : W) {ids : List String}
        → texts (map (λ v. v.cve_id) (take 3 (found_vulns files service))) ≡ ok ids
        → Succeeds (IsExpected files service) (generate_certificate services pr_id files service w)
    unfolding generate_certificate
    generate_certificate-Succeeds pr_id w named =
        rw
          (
            gives_rows files service w,
            compute_blast_radius-eq (impacts files service) w,
            compute_security_delta-eq (map (λ f. f.function_id) (impacts files service)) service w,
          )
          (conclude-Succeeds _ pr_id _ _ w named)
