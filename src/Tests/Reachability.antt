-- ===== src/Tests/Reachability.antt =====
-- layer3/reachability.py, over a graph with one static path that was called and is external.
use live_system_intelligence.Prelude.{
  ℕ, ◌+◌, String, not, any, is_empty, List, true, none, some, [], ◌∷◌, ◌==◌, string_eq,
  if◌then◌else◌, ◌≡◌, refl, arith,
}
use live_system_intelligence.Exec.{ok, pure}
use live_system_intelligence.Exec.Laws.{Returns, Each}
use live_system_intelligence.Reachability.{
  critical, unknown, value, StaticPath, RuntimeEvidence, ReachabilityResult, VulnEdge, AffectedRow,
  Graph, SetOrder, blank, compute_reachability, check_static_reachability, runtime_step,
  check_runtime_reachability, attack_surface, check_attack_surface_reachability, run_for_service,
}
use live_system_intelligence.Reachability.Decision.{Gives, compute_reachability-verdict}
use live_system_intelligence.Reachability.View.{View, Shows}
use live_system_intelligence.Reachability.Batch.{Explains, run_for_service-Explains}
use live_system_intelligence.Reachability.Delta.{compute_pr_security_delta}
use live_system_intelligence.Reachability.Exposure.{judged_delta, compute_pr_security_delta-eq}

abbrev path : StaticPath
path = record { endpoint_id = "GET /login"; path_node_ids = "decode" ∷ "verify" ∷ [] }

-- The rows for the functions asked for that were called.
abbrev calls_of : List String → List RuntimeEvidence
calls_of [] = []
calls_of (f ∷ ids) =
    let more = calls_of ids in
    if f == "decode" then (record { func_id = f; count_24h = 9 }) ∷ more else more

abbrev view : View
view = record {
  called = λ f. f == "decode";
  paths = λ s fs. path ∷ [];
  calls = calls_of;
  externals = λ ep. record { url = "https://example.org/login"; external_id = "x" } ∷ [];
}

abbrev edge : VulnEdge
edge = record {
  dep_id = "pyjwt";
  vuln_id = "CVE-1";
  vuln_funcs = some ("decode" ∷ []);
  current_reachability = none;
}

abbrev row : AffectedRow
row = record {
  vuln_id = "CVE-1";
  severity = "HIGH";
  current_reachability = some "UNKNOWN";
  dep_id = "pyjwt";
}

-- The number of edges written.
abbrev graph : Graph ℕ
graph = record {
  static_paths = λ s fs. pure (view.paths s fs);
  runtime_calls = λ ids. pure (view.calls ids);
  external_endpoints = λ ep. pure (view.externals ep);
  set_reachability = λ dep_id vuln_id r w. (ok tt, w + 1);
  has_vuln_edges = λ s. pure (edge ∷ edge ∷ []);
  service_ids = pure ("auth" ∷ []);
  affected_vulns = λ ids s. pure (row ∷ []);
  vulnerable_functions = λ id. pure (some ("decode" ∷ []) ∷ []);
}

abbrev in_order : SetOrder
in_order xs = xs

abbrev result : ReachabilityResult
result = record (blank "CVE-1" "pyjwt") {
  reachability = critical;
  static_path_found = true;
  static_entry_endpoints = "GET /login" ∷ [];
  runtime_evidence = true;
  runtime_call_count_24h = 9;
  externally_reachable = true;
  external_url = some "https://example.org/login";
}

computed :
    compute_reachability graph in_order "CVE-1" "pyjwt" "auth" ("decode" ∷ []) 0 ≡ (ok result, 0)
unfolding compute_reachability check_static_reachability runtime_step check_runtime_reachability
    attack_surface check_attack_surface_reachability
computed = refl

calls_of-called : (ids : List String) → is_empty (calls_of ids) ≡ not (any view.called ids)
calls_of-called [] = refl
calls_of-called (f ∷ ids) = ground (arith, calls_of-called ids)

graph-Shows : Shows graph view
graph-Shows = record {
  shows_paths = λ s fs w. refl;
  shows_calls = λ ids w. refl;
  shows_called = calls_of-called;
  shows_externals = λ ep w. refl;
}

compute_reachability-verdict_example :
    Gives graph view graph-Shows in_order critical 0
      (compute_reachability graph in_order "CVE-1" "pyjwt" "auth" ("decode" ∷ []))
compute_reachability-verdict_example =
    compute_reachability-verdict graph view graph-Shows in_order (λ xs x. refl) "CVE-1" "pyjwt"
      "auth" ("decode" ∷ []) 0

run_for_service-Explains_example :
    Returns
      (Each (Explains graph in_order) (edge ∷ edge ∷ []))
      (run_for_service graph in_order "auth" 0)
run_for_service-Explains_example = run_for_service-Explains graph in_order "auth" 0 refl

unknown_row : row.current_reachability ≡ some (value unknown)
unfolding value
unknown_row = refl

compute_pr_security_delta-eq_example :
    compute_pr_security_delta graph in_order "auth" ("decode" ∷ []) 0
    ≡ judged_delta graph in_order "auth" ("decode" ∷ []) 0
compute_pr_security_delta-eq_example =
    compute_pr_security_delta-eq graph in_order "auth" ("decode" ∷ []) 0
