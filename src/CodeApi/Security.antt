-- ===== src/CodeApi/Security.antt =====
-- The vulnerabilities, the delta, the refresh and the flows of layer1/code_api.py.
use live_system_intelligence.Prelude.{
  ℕ, ◌+◌, String, ◌<>◌, Bool, false, Option, none, some, List, [], ◌∷◌, ◌++◌, map, select, length,
  is_empty, ◌==◌, string_eq, if◌then◌else◌,
}
use live_system_intelligence.Prelude.Dict.{Dict, lookup, insert}
use live_system_intelligence.Prelude.Integers.{ℤ, difference}
use live_system_intelligence.Exec.{Result, ok, err, Exec, pure, raise, lift, ◌>>=◌}
use live_system_intelligence.Certificate.Json.{Json, bool}
use live_system_intelligence.Certificate.Narrative.{join}
use live_system_intelligence.Reachability.{
  value, ReachabilityResult, Graph, SetOrder, run_for_service,
}
use live_system_intelligence.Reachability.Delta.{
  NewExposure, RemovedExposure, Delta, compute_pr_security_delta,
}
use live_system_intelligence.CodeApi.{
  VulnNode, DependencyNode, EndpointNode, Queries, http_exception,
}
use live_system_intelligence.GraphApi.{Reply, body, error}

pub record Vulnerabilities : Type 0 where
  pub service : String
  pub count : ℕ
  pub vulnerabilities : List (Dict String Json)

pub record SecurityDelta : Type 0 where
  pub pr_id : String
  pub service : String
  pub new_cve_exposures : List NewExposure
  pub removed_cve_exposures : List RemovedExposure
  pub unchanged_vulns : ℕ
  pub net_exposure_change : ℤ

pub record Refreshed : Type 0 where
  pub service : String
  pub total_vulns_evaluated : ℕ
  pub reachability_breakdown : Dict String ℕ

pub record Flows : Type 0 where
  pub service : String
  pub total_flows : ℕ
  pub unregulated_flows : ℕ
  pub flows : List (Dict String Json)

-- A node of the picture: its ID, its label, its type, and what else is written.
pub data Drawn : Type 0 where
  vulnerability_node : (id label : String) → Drawn
  dependency_node : (id label reachability : String) → Drawn
  endpoint_node : (id label method : String) → Drawn

pub record Link : Type 0 where
  pub source : String
  pub target : String
  pub label : String

abbrev pub or_blank : Option String → String
or_blank none = ""
or_blank (some s) = s

-- A filter that is given adds a condition and its parameter.
abbrev pub filtered :
    String
    → String
    → Option String
    → (String → String)
    → List String × Dict String String
    → List String × Dict String String
filtered condition key filter upper (filters, params) =
    if or_blank filter == ""
    then (filters, params)
    else (filters ++ (condition ∷ []), params ++ ((key, upper (or_blank filter)) ∷ []))

abbrev pub or_zero : Option ℕ → ℕ
or_zero none = 0
or_zero (some n) = n

abbrev pub count_in : String → Dict String ℕ → ℕ
count_in label d = or_zero (lookup label d)

-- `{r.reachability.value: 0 for r in results}`
unfoldable pub zeros : List ReachabilityResult → Dict String ℕ → Dict String ℕ
unfolding insert value
zeros [] d = d
zeros (r ∷ results) d = zeros results (insert (value r.reachability) 0 d)

abbrev pub one_more : String → Dict String ℕ → Option ℕ → Result (Dict String ℕ)
one_more key d none = err (record { kind = "KeyError"; message = key })
one_more key d (some n) = ok (insert key (n + 1) d)

-- `summary[r.reachability.value] += 1`, which raises where the key is missing, for each of them.
unfoldable pub tally : List ReachabilityResult → Dict String ℕ → Result (Dict String ℕ)
unfolding insert value lookup
tally [] d = ok d
tally (r ∷ results) d = elim (one_more (value r.reachability) d (lookup (value r.reachability) d)) [
  | err e ↦ err e
  | ok d' ↦ tally results d'
]

unfoldable pub breakdown : List ReachabilityResult → Result (Dict String ℕ)
unfolding zeros tally
breakdown results = tally results (zeros results [])

abbrev pub is_unregulated : Option Json → Bool
is_unregulated (some (bool b)) = b
is_unregulated _ = false

abbrev pub draw_vulnerability : VulnNode → Drawn
draw_vulnerability v =
    vulnerability_node v.id (if or_blank v.label == "" then v.id else or_blank v.label)

abbrev pub draw_dependency : DependencyNode → Drawn
draw_dependency d = dependency_node d.id d.label d.reachability

abbrev pub draw_endpoint : EndpointNode → Drawn
draw_endpoint ep = endpoint_node ep.id ep.label ep.method

module _ {W : Type 0} (queries : Queries W) (graph : Graph W) (unique : SetOrder) where
  abbrev pub vuln_query : String → Option String → Option String → List String × Dict String String
  vuln_query service reachability severity =
      filtered "r.severity = $sev" "sev" severity queries.upper (
        filtered "r.reachability = $reach" "reach" reachability queries.upper (
          "d.service = $svc" ∷ "d.deprecated_at IS NULL" ∷ "v.deprecated_at IS NULL" ∷ [],
          ("svc", service) ∷ [],
        ))

  unfoldable pub get_vulns : String → Option String → Option String → Exec W Vulnerabilities
  unfolding join
  get_vulns service reachability severity = do
    let (filters, params) = vuln_query service reachability severity
    results ← queries.vulns (join " AND " filters) params
    pure (record { service = service; count = length results; vulnerabilities = results })

  abbrev pub functions_in : List (Option (List String)) → List String
  functions_in [] = []
  functions_in (none ∷ rows) = []
  functions_in (some func_ids ∷ rows) = func_ids

  abbrev pub delta_body : String → String → Delta → Reply SecurityDelta
  delta_body pr_id service delta = body (record {
    pr_id = pr_id;
    service = service;
    new_cve_exposures = delta.new_exposures;
    removed_cve_exposures = delta.removed_exposures;
    unchanged_vulns = length delta.unchanged;
    net_exposure_change = difference (length delta.new_exposures) (length delta.removed_exposures);
  })

  abbrev pub no_context : String → String → Reply SecurityDelta
  no_context pr_id service = error 404 (record {
    what = "No PR context found for pr_id=" <> pr_id;
    layer = "layer3:security_delta";
    input = "pr_id=" <> pr_id <> " service=" <> service;
    action = "Ensure the webhook receiver has processed this PR first (Layer 6).";
  })

  abbrev pub delta_for : String → String → List String → Exec W (Reply SecurityDelta)
  delta_for pr_id service func_ids =
      if is_empty func_ids then pure (no_context pr_id service) else (do
        delta ← compute_pr_security_delta graph unique service func_ids
        pure (delta_body pr_id service delta))

  unfoldable pub get_security_delta : String → String → Exec W (Reply SecurityDelta)
  unfolding compute_pr_security_delta
  get_security_delta pr_id service = do
    pr_context ← queries.pr_functions pr_id
    delta_for pr_id service (functions_in pr_context)

  unfoldable pub refresh_reachability : String → Exec W Refreshed
  unfolding run_for_service breakdown
  refresh_reachability service = do
    results ← run_for_service graph unique service
    summary ← lift (breakdown results)
    pure (record {
      service = service;
      total_vulns_evaluated = length results;
      reachability_breakdown = summary;
    })

  unfoldable pub viz_blast_radius : String → Exec W (List Drawn × List Link)
  viz_blast_radius cve = do
    vuln_rows ← queries.vulnerability cve
    dep_rows ← queries.dependencies cve
    ep_rows ← queries.endpoints cve
    pure (
      map draw_vulnerability vuln_rows ++ map draw_dependency dep_rows ++ map draw_endpoint ep_rows,
      map (λ d. record { source = d.id; target = d.vuln_id; label = "HAS_VULN" }) dep_rows
          ++ map (λ ep. record { source = ep.id; target = ep.dep_id; label = "EXPOSES" }) ep_rows,
    )

  abbrev pub first_row : String → List (Dict String Json) → Exec W (Dict String Json)
  first_row function_id [] = raise (http_exception ("Function " <> function_id <> " not found"))
  first_row function_id (row ∷ rows) = pure row

  unfoldable pub get_function_ownership : String → Exec W (Dict String Json)
  get_function_ownership function_id = queries.owner function_id >>= first_row function_id

  unfoldable pub get_pii_flows : String → Exec W Flows
  unfolding lookup
  get_pii_flows service = do
    rows ← queries.pii_flows service
    pure (record {
      service = service;
      total_flows = length rows;
      unregulated_flows = length (select (λ r. is_unregulated (lookup "unregulated" r)) rows);
      flows = rows;
    })
