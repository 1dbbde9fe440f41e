-- ===== src/Cve/Ingest.antt =====
-- layer3/cve_ingester.py: the record of an advisory, the dependencies that it matches, and the
-- ingestion of a service.
use live_system_intelligence.Prelude.{
  ℕ, ◌+◌, String, Bool, true, false, ◌||◌, Option, none, some, List, [], ◌∷◌, ◌++◌, select,
  contains, length, is_empty, ◌==◌, string_eq, if◌then◌else◌,
}
use live_system_intelligence.Exec.{Result, ok, err, Exec, pure, try_except, ◌>>=◌, ◌>>◌, for_each}
use live_system_intelligence.Retry.{with_attempts, with_retry}
use live_system_intelligence.Cve.{
  VersionRange, Affected, OsvRecord, VulnerabilityRecord, Dependency, Ingester, Feeds,
}
use live_system_intelligence.Cve.Version.{version_in_range, or_text}
use live_system_intelligence.Cve.Events.{version_ranges, package_of}
use live_system_intelligence.Cve.Enrich.{
  outside, timing, first_cve, fetch_epss, is_in_kev, load_kev, severity_from_osv,
}

abbrev pub Any : {A : Type 0} → A → Type 0
Any a = Unit

abbrev pub all_versions : List Affected → List String
all_versions [] = []
all_versions (aff ∷ affected) = aff.versions ++ all_versions affected

abbrev pub all_ranges : List Affected → List VersionRange
all_ranges [] = []
all_ranges (aff ∷ affected) = version_ranges aff.ranges ++ all_ranges affected

abbrev pub all_functions : List Affected → List String
all_functions [] = []
all_functions (aff ∷ affected) = aff.functions ++ all_functions affected

-- The table of OSV's names of ecosystems.
unfoldable pub osv_ecosystem : String → String
osv_ecosystem ecosystem =
    if ecosystem == "pypi"
    then "PyPI"
    else if ecosystem == "npm"
    then "npm"
    else if ecosystem == "go"
    then "Go"
    else if ecosystem == "maven"
    then "Maven"
    else if ecosystem == "gem"
    then "RubyGems"
    else if ecosystem == "cargo"
    then "crates.io"
    else if ecosystem == "nuget"
    then "NuGet"
    else if ecosystem == "deb"
    then "Debian"
    else if ecosystem == "apk"
    then "Alpine"
    else ecosystem

-- The counts are 0 where the code's dict has none, for a service without dependencies.
pub record Summary : Type 0 where
  pub status : String
  pub service : String
  pub dependencies_scanned : ℕ
  pub vulnerabilities_found : ℕ
  pub links_created : ℕ

-- `rec.cve_id or rec.osv_id`
abbrev pub vuln_id_of : VulnerabilityRecord → String
vuln_id_of rec = elim rec.cve_id [
  | none ↦ rec.osv_id
  | some cve_id ↦ if cve_id == "" then rec.osv_id else cve_id
]

module _ {W : Type 0} (feeds : Feeds W) where
  -- `query_osv_for_package`: a query that fails finds nothing.
  unfoldable pub query_osv_for_package : Dependency → Exec (Ingester W) (List String)
  unfolding osv_ecosystem with_retry
  query_osv_for_package dep =
      try_except
        (with_retry (timing feeds) (with_attempts 3)
          (outside feeds (feeds.osv_ids dep.name (osv_ecosystem dep.ecosystem) dep.version)))
        (λ e. pure [])

  unfoldable pub fetch_osv_detail : String → Exec (Ingester W) OsvRecord
  unfolding with_retry
  fetch_osv_detail osv_id =
      with_retry (timing feeds) (with_attempts 3) (outside feeds (feeds.osv_detail osv_id))

  abbrev pub epss_of : Option String → Exec (Ingester W) ℕ
  epss_of none = pure 0
  epss_of (some cve_id) = if cve_id == "" then pure 0 else fetch_epss feeds cve_id

  abbrev pub published_time : Option ℕ → ℕ → ℕ
  published_time none now = now
  published_time (some t) now = t

  -- `_build_vuln_record`
  unfoldable pub build_vuln_record : String → OsvRecord → Exec (Ingester W) VulnerabilityRecord
  unfolding package_of version_ranges severity_from_osv fetch_epss is_in_kev first_cve
  build_vuln_record osv_id detail = do
    let cve_id = first_cve detail.aliases
    let pkg = package_of feeds.lower ("", "") detail.affected
    severity ← severity_from_osv feeds detail
    epss ← epss_of cve_id
    in_kev ← is_in_kev feeds cve_id
    λ s. (
      ok (record {
        osv_id = osv_id;
        cve_id = cve_id;
        affected_package = pkg.0;
        affected_ecosystem = pkg.1;
        affected_versions = all_versions detail.affected;
        affected_version_ranges = all_ranges detail.affected;
        vulnerable_functions = all_functions detail.affected;
        severity = severity;
        epss_score = epss;
        in_kev = in_kev;
        published_at = published_time (feeds.read_time detail.published) (feeds.now s.world);
        aliases = detail.aliases;
      }),
      s,
    )

  -- The test of `_find_matching_dependencies`; a missing version is an empty one.
  unfoldable pub matches : VulnerabilityRecord → Dependency → Bool
  unfolding version_in_range
  matches rec row =
      let version = or_text "" row.version in
      contains version rec.affected_versions || version_in_range version rec.affected_version_ranges

  unfoldable pub find_matching_dependencies : VulnerabilityRecord → Exec W (List Dependency)
  unfolding matches
  find_matching_dependencies rec = do
    rows ← feeds.named_dependencies rec.affected_package rec.affected_ecosystem
    pure (select (matches rec) rows)

  -- The `try` block of the loop: an advisory is fetched, stored and linked.
  unfoldable pub ingest_advisory : Dependency → String → Exec (Ingester W) Unit
  unfolding fetch_osv_detail build_vuln_record
  ingest_advisory dep osv_id = do
    detail ← fetch_osv_detail osv_id
    rec ← build_vuln_record osv_id detail
    outside feeds (feeds.upsert_vulnerability rec)
    outside feeds (
        feeds.link_dependency_to_vuln dep.id (vuln_id_of rec) rec.severity rec.epss_score
          rec.in_kev)

  -- The counters `vulns_found` and `links_created`, each one more for an advisory that is linked.
  abbrev pub counted : ℕ × ℕ → Result (Unit {0}) → ℕ × ℕ
  counted (found, links) (ok _) = (found + 1, links + 1)
  counted (found, links) (err e) = (found, links)

  unfoldable pub advisory_loop :
      Dependency → List String → ℕ × ℕ → Ingester W → (ℕ × ℕ) × Ingester W
  unfolding ingest_advisory
  advisory_loop dep [] counts s = (counts, s)
  advisory_loop dep (osv_id ∷ osv_ids) counts s =
      let (r, s') = ingest_advisory dep osv_id s in
      elim (osv_id == "") [
        | true ↦ advisory_loop dep osv_ids counts s
        | false ↦ advisory_loop dep osv_ids (counted counts r) s'
      ]

  unfoldable pub dependency_loop : List Dependency → ℕ × ℕ → Exec (Ingester W) (ℕ × ℕ)
  unfolding query_osv_for_package advisory_loop
  dependency_loop [] counts = pure counts
  dependency_loop (dep ∷ deps) counts = do
    osv_ids ← query_osv_for_package dep
    λ s. let (counts', s') = advisory_loop dep osv_ids counts s in dependency_loop deps counts' s'

  -- The work for a service that has dependencies.
  unfoldable pub ingest_dependencies : String → List Dependency → Exec (Ingester W) Summary
  unfolding dependency_loop load_kev
  ingest_dependencies service deps = do
    load_kev feeds
    (vulns_found, links_created) ← dependency_loop deps (0, 0)
    pure (record {
      status = "ok";
      service = service;
      dependencies_scanned = length deps;
      vulnerabilities_found = vulns_found;
      links_created = links_created;
    })

  abbrev pub nothing_to_do : String → Summary
  nothing_to_do service = record {
    status = "no_dependencies";
    service = service;
    dependencies_scanned = 0;
    vulnerabilities_found = 0;
    links_created = 0;
  }

  unfoldable pub ingest_for_service : String → Exec (Ingester W) Summary
  unfolding ingest_dependencies
  ingest_for_service service = do
    deps ← outside feeds (feeds.dependencies service)
    if is_empty deps then pure (nothing_to_do service) else ingest_dependencies service deps

  unfoldable pub ingest_all_services : Exec (Ingester W) (List Summary)
  unfolding ingest_for_service
  ingest_all_services = do
    services ← outside feeds feeds.services
    for_each ingest_for_service services
