-- ===== src/Nuclei/Scan.antt =====
-- The scan of layer3/nuclei_runner.py.
use live_system_intelligence.Prelude.{
  ℕ, ◌+◌, String, ◌<>◌, Bool, true, false, not, Option, none, some, List, [], ◌∷◌, length, ◌==◌,
  string_eq, if◌then◌else◌,
}
use live_system_intelligence.Prelude.Dict.{Dict, lookup}
use live_system_intelligence.Exec.{
  Error, ok, Exec, pure, raise, lift, gets, try_except, ◌>>=◌, ◌>>◌, for_each,
}
use live_system_intelligence.Retry.{with_attempts, with_retry}
use live_system_intelligence.Process.{available}
use live_system_intelligence.Text.{slice_to, right_strip_of}
use live_system_intelligence.Neo4j.{upsert_node}
use live_system_intelligence.Certificate.Json.{str}
use live_system_intelligence.Nuclei.{Finding, Sources, Summary}
use live_system_intelligence.Nuclei.Paths.{
  parse_nuclei_output, extract_paths, finding_by_path, path_to_pattern,
}

abbrev pub safe_templates : List String
safe_templates =
    "http/technologies" ∷ "http/exposures" ∷ "http/miscellaneous" ∷ "http/misconfiguration" ∷ []

abbrev pub tags_of : List String → List String
tags_of [] = []
tags_of (template ∷ templates) = "--tags" ∷ template ∷ tags_of templates

abbrev pub nuclei_command : String → String → List String
nuclei_command target_url output_path =
    "nuclei"
    ∷ "--target"
    ∷ target_url
    ∷ "--output"
    ∷ output_path
    ∷ "--jsonl"
    ∷ "--silent"
    ∷ "--no-interactsh"
    ∷ "--rate-limit"
    ∷ "50"
    ∷ "--timeout"
    ∷ "10"
    ∷ "--retries"
    ∷ "1"
    ∷ tags_of safe_templates

abbrev pub or_text : String → Option String → String
or_text default none = default
or_text default (some s) = s

-- `finding.get(…)`, of the empty dict where there is no finding.
abbrev pub template_of : Option Finding → String
template_of none = ""
template_of (some f) = or_text "" f.template_id

abbrev pub severity_of : Option Finding → String
severity_of none = "info"
severity_of (some f) = or_text "info" f.severity

module _ {W : Type 0} (sources : Sources W) where
  abbrev pub timed_out : Error → Exec W (Unit {0})
  timed_out e = if e.kind == "TimeoutExpired" then pure tt else raise e

  abbrev pub findings_in : String → Bool → Exec W (List Finding)
  findings_in output_path false = pure []
  findings_in output_path true = do
    lines ← sources.read_lines output_path
    pure (parse_nuclei_output sources lines)

  unfoldable pub run_nuclei : String → String → Exec W (List Finding)
  unfolding available parse_nuclei_output
  run_nuclei target_url output_path = do
    installed ← available sources.run ("nuclei" ∷ "-version" ∷ [])
    if not installed then pure [] else (do
      try_except (sources.run (nuclei_command target_url output_path) >> pure tt) timed_out
      λ w. findings_in output_path (sources.exists output_path w) w)

  unfoldable pub find_matching_api_endpoints : String → String → Exec W (List String)
  unfolding path_to_pattern
  find_matching_api_endpoints service url_path =
      sources.matching_endpoints service url_path (path_to_pattern url_path)

  unfoldable pub upsert_external_endpoint :
      String → String → String → String → String → Exec W String
  unfolding upsert_node
  upsert_external_endpoint service url path template_id severity = do
    let ext_id = slice_to 16 (sources.sha256_hex (service <> ":" <> url))
    now ← gets sources.now
    upsert_node sources.run_query "ExternalEndpoint" (("id", str ext_id) ∷ []) (
        ("url", str url)
        ∷ ("path", str path)
        ∷ ("service", str service)
        ∷ ("template_id", str template_id)
        ∷ ("severity", str severity)
        ∷ ("discovered_at", str now)
        ∷ [])
    pure ext_id

  -- One path: the number of its links.
  unfoldable pub add_endpoint : String → String → Dict String Finding → String → Exec W ℕ
  unfolding upsert_external_endpoint find_matching_api_endpoints lookup
  add_endpoint service target_url by_path path = do
    let finding = lookup path by_path
    ext_id ←
        upsert_external_endpoint service (right_strip_of 47 target_url <> path) path
          (template_of finding) (severity_of finding)
    api_ids ← find_matching_api_endpoints service path
    for_each (sources.link ext_id) api_ids
    pure (length api_ids)

  -- The loop over the paths, with the endpoints and the links made so far.
  unfoldable pub add_endpoints :
      String → String → Dict String Finding → List String → ℕ × ℕ → Exec W (ℕ × ℕ)
  unfolding add_endpoint
  add_endpoints service target_url by_path [] counts = pure counts
  add_endpoints service target_url by_path (path ∷ paths) (endpoints, links) = do
    n ← add_endpoint service target_url by_path path
    add_endpoints service target_url by_path paths (endpoints + 1, links + n)

  -- What is done with the findings.
  unfoldable pub store_findings : String → String → List Finding → Exec W Summary
  unfolding extract_paths finding_by_path add_endpoints
  store_findings service target_url findings = do
    let paths = extract_paths sources findings
    by_path ← lift (finding_by_path sources findings (ok []))
    (endpoints, links) ← add_endpoints service target_url by_path paths (0, 0)
    pure (record {
      status = "ok";
      service = service;
      target_url = target_url;
      nuclei_findings = length findings;
      paths_discovered = length paths;
      external_endpoints_created = endpoints;
      api_endpoint_links = links;
    })

  unfoldable pub scan : String → String → Exec W Summary
  unfolding with_retry run_nuclei store_findings
  scan service target_url = do
    tmpdir ← sources.temporary
    findings ←
        with_retry sources.timing (with_attempts 2)
          (run_nuclei target_url (tmpdir <> "/nuclei.jsonl"))
    store_findings service target_url findings

  unfoldable pub scan_all_services : Exec W (List Summary)
  unfolding scan
  scan_all_services = do services ← sources.services; for_each (λ svc. scan svc.0 svc.1) services
