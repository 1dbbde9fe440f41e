-- ===== src/Reachability.antt =====
-- layer3/reachability.py: the three-step reachability of a vulnerability. The graph database
-- answers each query, or raises after its retries; its answers are the record `Graph`.

pub mod Labels
pub mod View
pub mod Decision
pub mod Batch
pub mod Delta
pub mod Exposure
use live_system_intelligence.Prelude.{
  ℕ, String, Bool, true, false, Option, none, some, List, [], ◌∷◌, ◌++◌, sum, map, contains,
  is_empty, if◌then◌else◌, ◌||◌, ◌&&◌, string_eq, ◌≡◌,
}
use live_system_intelligence.Prelude.Dict.{Dict, update}
use live_system_intelligence.Exec.{Error, Exec, pure, raise, ◌>>=◌, ◌>>◌, for_each}

-- The label, a string enumeration.
pub data Reachability : Type 0 where
  critical high medium low not_reachable unknown : Reachability

-- `.value`
unfoldable pub value : Reachability → String
value critical = "CRITICAL"
value high = "HIGH"
value medium = "MEDIUM"
value low = "LOW"
value not_reachable = "NOT_REACHABLE"
value unknown = "UNKNOWN"

-- A row of the static query; the rest of its columns are not read.
pub record StaticPath : Type 0 where
  pub endpoint_id : String
  pub path_node_ids : List String

pub record RuntimeEvidence : Type 0 where
  pub func_id : String
  pub count_24h : ℕ

pub record External : Type 0 where
  pub url : String
  pub external_id : String

pub record ReachabilityResult : Type 0 where
  pub vuln_id : String
  pub dep_id : String
  pub reachability : Reachability
  pub static_path_found : Bool
  pub static_entry_endpoints : List String
  pub runtime_evidence : Bool
  pub runtime_call_count_24h : ℕ
  pub externally_reachable : Bool
  pub external_url : Option String

-- A row of the query for the HAS_VULN edges of a service.
pub record VulnEdge : Type 0 where
  pub dep_id : String
  pub vuln_id : String
  pub vuln_funcs : Option (List String)
  pub current_reachability : Option String

-- A row of the query for the vulnerabilities that a change affects.
pub record AffectedRow : Type 0 where
  pub vuln_id : String
  pub severity : String
  pub current_reachability : Option String
  pub dep_id : String

-- The queries, with their parameters.
pub record Graph (W : Type 0) : Type 0 where
  pub static_paths : String → List String → Exec W (List StaticPath)
  pub runtime_calls : List String → Exec W (List RuntimeEvidence)
  pub external_endpoints : String → Exec W (List External)
  pub set_reachability : String → String → ReachabilityResult → Exec W Unit
  pub has_vuln_edges : String → Exec W (List VulnEdge)
  pub service_ids : Exec W (List String)
  pub affected_vulns : List String → String → Exec W (List AffectedRow)
  pub vulnerable_functions : String → Exec W (List (Option (List String)))

-- `list(set(xs))`: the strings of `xs` in an order that Python does not specify.
abbrev pub SetOrder : Type 0
SetOrder = List String → List String

abbrev pub KeepsMembers : SetOrder → Type 0
KeepsMembers unique = (xs : List String) (x : String) → contains x (unique xs) ≡ contains x xs

-- The fresh result, before any step.
abbrev pub blank : String → String → ReachabilityResult
blank vuln_id dep_id = record {
  vuln_id = vuln_id;
  dep_id = dep_id;
  reachability = unknown;
  static_path_found = false;
  static_entry_endpoints = [];
  runtime_evidence = false;
  runtime_call_count_24h = 0;
  externally_reachable = false;
  external_url = none;
}

abbrev pub first : {A : Type 0} → List A → Option A
first [] = none
first (x ∷ xs) = some x

-- `x or []`
abbrev pub or_nil : {A : Type 0} → Option (List A) → List A
or_nil none = []
or_nil (some xs) = xs

-- The node IDs over all the paths.
abbrev pub all_path_nodes : List StaticPath → List String
all_path_nodes [] = []
all_path_nodes (p ∷ ps) = p.path_node_ids ++ all_path_nodes ps

-- What step 1 notes in the result.
abbrev pub reached : SetOrder → String → String → List StaticPath → ReachabilityResult
reached unique vuln_id dep_id static_paths = record (blank vuln_id dep_id) {
  static_path_found = true;
  static_entry_endpoints = unique (map (λ p. p.endpoint_id) static_paths);
}

-- What step 2 notes in the result.
abbrev pub observed : ReachabilityResult → List RuntimeEvidence → ReachabilityResult
observed result evidence = record result {
  runtime_evidence = true;
  runtime_call_count_24h = sum (map (λ r. r.count_24h) evidence);
}

module _ {W : Type 0} (graph : Graph W) (unique : SetOrder) where
  unfoldable pub check_static_reachability : String → List String → Exec W (List StaticPath)
  check_static_reachability service vulnerable_functions =
      if is_empty vulnerable_functions
      then pure []
      else graph.static_paths service vulnerable_functions

  unfoldable pub check_runtime_reachability : List String → Exec W (List RuntimeEvidence)
  check_runtime_reachability path_node_ids =
      if is_empty path_node_ids then pure [] else graph.runtime_calls path_node_ids

  unfoldable pub check_attack_surface_reachability : String → Exec W (Option External)
  check_attack_surface_reachability endpoint_id = do
    rows ← graph.external_endpoints endpoint_id
    pure (first rows)

  -- One endpoint of step 3: an external one settles the label, another leaves the rest of the loop.
  abbrev pub answer :
      ReachabilityResult → Exec W ReachabilityResult → Option External → Exec W ReachabilityResult
  answer result rest none = rest
  answer result rest (some ext) = pure (record result {
    externally_reachable = true;
    external_url = some ext.url;
    reachability = critical;
  })

  -- Step 3: the loop over the entry endpoints, which returns at the first external one.
  unfoldable pub attack_surface : ReachabilityResult → List String → Exec W ReachabilityResult
  unfolding check_attack_surface_reachability
  attack_surface result [] = pure (record result { reachability = high })
  attack_surface result (endpoint_id ∷ more) = do
    external ← check_attack_surface_reachability endpoint_id
    answer result (attack_surface result more) external

  -- Steps 2 and 3, once a static path is found.
  unfoldable pub runtime_step : ReachabilityResult → List StaticPath → Exec W ReachabilityResult
  unfolding check_runtime_reachability attack_surface
  runtime_step result static_paths = do
    evidence ← check_runtime_reachability (unique (all_path_nodes static_paths))
    if is_empty evidence
        then pure (record result { reachability = low })
        else attack_surface (observed result evidence) result.static_entry_endpoints

  unfoldable pub compute_reachability :
      String → String → String → List String → Exec W ReachabilityResult
  unfolding check_static_reachability runtime_step
  compute_reachability vuln_id dep_id service vulnerable_functions = do
    static_paths ← check_static_reachability service vulnerable_functions
    if is_empty static_paths
        then pure (record (blank vuln_id dep_id) { reachability = not_reachable })
        else runtime_step (reached unique vuln_id dep_id static_paths) static_paths

  -- The body of the loop of `run_for_service`.
  unfoldable pub update_edge : String → VulnEdge → Exec W ReachabilityResult
  update_edge service edge = do
    result ← compute_reachability edge.vuln_id edge.dep_id service (or_nil edge.vuln_funcs)
    graph.set_reachability edge.dep_id edge.vuln_id result
    pure result

  unfoldable pub run_for_service : String → Exec W (List ReachabilityResult)
  unfolding update_edge
  run_for_service service = do
    edges ← graph.has_vuln_edges service
    for_each (update_edge service) edges

  unfoldable pub run_for_all_services : Exec W (Dict String (List ReachabilityResult))
  unfolding run_for_service
  run_for_all_services = do
    services ← graph.service_ids
    entries ← for_each (λ id. do results ← run_for_service id; pure (id, results)) services
    pure (update [] entries)
