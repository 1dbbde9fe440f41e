-- ===== src/Nuclei/Counted.antt =====
-- What a scan of layer3/nuclei_runner.py counts.
use live_system_intelligence.Prelude.{
  ℕ, ◌+◌, ◌≤◌, String, ◌<>◌, List, [], ◌∷◌, length, ◌==◌, string_eq, ◌≡◌, arith, Bool-cases, inl,
  inr,
}
use live_system_intelligence.Prelude.Dict.{Dict}
use live_system_intelligence.Exec.{Result, ok, err, lift}
use live_system_intelligence.Exec.Laws.{Returns, Returns-bind, Returns-then}
use live_system_intelligence.Retry.{with_attempts, with_retry}
use live_system_intelligence.Nuclei.{Finding, Sources, Summary}
use live_system_intelligence.Nuclei.Paths.{insert_path, add_path, extract_paths, finding_by_path}
use live_system_intelligence.Nuclei.Scan.{
  run_nuclei, add_endpoint, add_endpoints, store_findings, scan,
}

length-insert_path : (p : String) (qs : List String) → length (insert_path p qs) ≤ length qs + 1
unfolding insert_path
length-insert_path p [] = omega arith
length-insert_path p (q ∷ qs) = ground (arith, length-insert_path p qs)

length-add_path :
    (r : Result String) (paths : List String) → length (add_path r paths) ≤ length paths + 1
length-add_path (ok path) paths = length-insert_path _ paths
length-add_path (err e) paths = omega arith

module _ {W : Type 0} (sources : Sources W) where
  length-extract_paths :
      (items : List Finding) → length (extract_paths sources items) ≤ length items
  unfolding extract_paths
  length-extract_paths [] = omega arith
  length-extract_paths (item ∷ items) = elim (Bool-cases (item.matched_at == "")) [
    | inl e ↦ rw e (omega (arith, length-extract_paths items))
    | inr e ↦ rw e (
        omega (
          arith,
          length-extract_paths items,
          length-add_path (sources.url_path item.matched_at) (extract_paths sources items),
        ))
  ]

  abbrev EndpointsAre : ℕ → ℕ × ℕ → Type 0
  EndpointsAre n counts = counts.0 ≡ n

  add_endpoints-EndpointsAre :
      (service target_url : String) (by_path : Dict String Finding) (paths : List String)
      (counts : ℕ × ℕ) (w : W)
      → Returns
          (EndpointsAre (counts.0 + length paths))
          (add_endpoints sources service target_url by_path paths counts w)
  unfolding add_endpoints
  add_endpoints-EndpointsAre service target_url by_path [] (endpoints, links) w = omega arith
  add_endpoints-EndpointsAre service target_url by_path (path ∷ paths) (endpoints, links) w =
      Returns-bind (EndpointsAre (endpoints + length (path ∷ paths)))
        (add_endpoint sources service target_url by_path path) _ w
        λ n v.
          let more : endpoints + 1 + length paths ≡ endpoints + length (path ∷ paths) =
            omega arith in
          rw (← more) (
            add_endpoints-EndpointsAre service target_url by_path paths (endpoints + 1, links + n)
              v)

  abbrev pub Counted : Summary → Type 0
  Counted s =
      (s.external_endpoints_created ≡ s.paths_discovered) × (s.paths_discovered ≤ s.nuclei_findings)

  store_findings-Counted :
      (service target_url : String) (findings : List Finding) (w : W)
      → Returns Counted (store_findings sources service target_url findings w)
  unfolding store_findings
  store_findings-Counted service target_url findings w =
      Returns-bind Counted (lift (finding_by_path sources findings (ok []))) _ w λ by_path v.
        Returns-then (EndpointsAre (0 + length (extract_paths sources findings))) Counted
          (add_endpoints sources service target_url by_path (extract_paths sources findings) (0, 0))
          _ v
          (add_endpoints-EndpointsAre service target_url by_path (extract_paths sources findings)
            (0, 0) v)
          λ counts h u. (omega (arith, h), length-extract_paths findings)

  -- A scan that returns has made one endpoint for each path that it discovered, and has discovered at
  -- most as many paths as it has findings.
  pub scan-Counted :
      (service target_url : String) (w : W) → Returns Counted (scan sources service target_url w)
  unfolding scan
  scan-Counted service target_url w = Returns-bind Counted sources.temporary _ w λ tmpdir v.
      Returns-bind Counted
        (with_retry sources.timing (with_attempts 2)
          (run_nuclei sources target_url (tmpdir <> "/nuclei.jsonl")))
        _ v λ findings u. store_findings-Counted service target_url findings u
