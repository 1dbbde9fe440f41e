-- ===== src/Cve/Ingested.antt =====
-- What the ingestion of layer3/cve_ingester.py gives for a service.
use live_system_intelligence.Prelude.{
  ℕ, String, List, [], ◌∷◌, length, is_empty, ◌==◌, string_eq, if◌then◌else◌, ◌≡◌, refl, arith,
  Bool-cases, inl, inr,
}
use live_system_intelligence.Exec.{Result, ok, err, pure}
use live_system_intelligence.Exec.Laws.{Succeeds, Succeeds-then, Succeeds-try_except}
use live_system_intelligence.Retry.{with_attempts, with_retry}
use live_system_intelligence.Cve.{Dependency, Ingester, Feeds}
use live_system_intelligence.Cve.Enrich.{Any, outside, timing, load_kev, load_kev-Succeeds}
use live_system_intelligence.Cve.Ingest.{
  Summary, osv_ecosystem, query_osv_for_package, ingest_advisory, counted, advisory_loop,
  dependency_loop, ingest_dependencies, ingest_for_service, nothing_to_do,
}

-- The summary of a service: all of its dependencies were scanned, and each CVE found was linked.
pub record IsSummary (service : String) (deps : List Dependency) (s : Summary) : Type 0 where
  pub for_service : s.service ≡ service
  pub scanned : s.dependencies_scanned ≡ length deps
  pub linked : s.vulnerabilities_found ≡ s.links_created
  pub told : s.status ≡ (if is_empty deps then "no_dependencies" else "ok")

module _ {W : Type 0} (feeds : Feeds W) where
  abbrev AreEqual : ℕ × ℕ → Type 0
  AreEqual counts = counts.0 ≡ counts.1

  counted-AreEqual :
      (counts : ℕ × ℕ) (r : Result (Unit {0})) → AreEqual counts → AreEqual (counted feeds counts r)
  counted-AreEqual counts (ok _) h = omega (arith, h)
  counted-AreEqual counts (err e) h = h

  advisory_loop-AreEqual :
      (dep : Dependency) (osv_ids : List String) (counts : ℕ × ℕ) (s : Ingester W)
      → AreEqual counts
      → AreEqual (advisory_loop feeds dep osv_ids counts s).0
  unfolding advisory_loop
  advisory_loop-AreEqual dep [] counts s h = h
  advisory_loop-AreEqual dep (osv_id ∷ osv_ids) counts s h = elim (Bool-cases (osv_id == "")) [
    | inl e ↦ rw (e, advisory_loop) (advisory_loop-AreEqual dep osv_ids counts s h)
    | inr e ↦
        let (r, s') = ingest_advisory feeds dep osv_id s in
        rw (e, advisory_loop)
          (advisory_loop-AreEqual dep osv_ids (counted feeds counts r) s'
            (counted-AreEqual counts r h))
  ]

  query_osv-Succeeds :
      (dep : Dependency) (s : Ingester W) → Succeeds Any (query_osv_for_package feeds dep s)
  unfolding query_osv_for_package
  query_osv-Succeeds dep s =
      Succeeds-try_except Any []
        (with_retry (timing feeds) (with_attempts 3)
          (outside feeds (feeds.osv_ids dep.name (osv_ecosystem dep.ecosystem) dep.version)))
        s (λ _. tt)

  dependency_loop-Succeeds :
      (deps : List Dependency) (counts : ℕ × ℕ) (s : Ingester W)
      → AreEqual counts
      → Succeeds AreEqual (dependency_loop feeds deps counts s)
  unfolding dependency_loop
  dependency_loop-Succeeds [] counts s h = h
  dependency_loop-Succeeds (dep ∷ deps) counts s h =
      Succeeds-then Any AreEqual (query_osv_for_package feeds dep) _ s (query_osv-Succeeds dep s)
        λ osv_ids _ v.
          let (counts', v') = advisory_loop feeds dep osv_ids counts v in
          dependency_loop-Succeeds deps counts' v' (advisory_loop-AreEqual dep osv_ids counts v h)

  by_dependencies :
      (service : String) (deps : List Dependency) (s : Ingester W)
      → Succeeds (IsSummary service deps) (
          (if is_empty deps
              then pure (nothing_to_do feeds service)
              else ingest_dependencies feeds service deps)
            s)
  unfolding ingest_dependencies
  by_dependencies service [] s = record {
    for_service = refl;
    scanned = refl;
    linked = refl;
    told = refl;
  }
  by_dependencies service (dep ∷ deps) s =
      Succeeds-then Any (IsSummary service (dep ∷ deps)) (load_kev feeds) _ s
        (load_kev-Succeeds feeds s)
        λ _ _ v.
          Succeeds-then AreEqual (IsSummary service (dep ∷ deps))
            (dependency_loop feeds (dep ∷ deps) (0, 0)) _ v
            (dependency_loop-Succeeds (dep ∷ deps) (0, 0) v refl)
            λ counts equal u. record {
              for_service = refl;
              scanned = refl;
              linked = equal;
              told = refl;
            }

  -- Once the graph has listed a service's dependencies, its ingestion returns, whatever fails of the
  -- feeds, of OSV and of the writes of single advisories; all dependencies are scanned, and as many
  -- vulnerabilities are counted as found as are linked.
  pub ingest_for_service-Succeeds :
      (service : String) (s : Ingester W) {deps : List Dependency} {w : W}
      → feeds.dependencies service s.world ≡ (ok deps, w)
      → Succeeds (IsSummary service deps) (ingest_for_service feeds service s)
  unfolding ingest_for_service
  ingest_for_service-Succeeds service s {deps} {w} listed =
      rw listed (by_dependencies service deps (record s { world = w }))
