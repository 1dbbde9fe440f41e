-- ===== src/Tests/CodeApi.antt =====
-- layer1/code_api.py, at three results of a refresh and at two paths of calls.
use live_system_intelligence.Prelude.{String, false, none, List, [], ◌∷◌, string_eq, ◌≡◌, refl}
use live_system_intelligence.Prelude.Dict.{values, lookup, insert}
use live_system_intelligence.Exec.{ok, err}
use live_system_intelligence.Prelude.Integers.{difference, negsuc}
use live_system_intelligence.Reachability.{Reachability, critical, low, value, ReachabilityResult}
use live_system_intelligence.CodeApi.{NodeInfo}
use live_system_intelligence.CodeApi.Graph.{add_nodes, node_map}
use live_system_intelligence.CodeApi.Security.{zeros, tally, breakdown}
use live_system_intelligence.CodeApi.Breakdown.{Counts, breakdown-Counts}

abbrev labelled : Reachability → ReachabilityResult
labelled label = record {
  vuln_id = "v";
  dep_id = "d";
  reachability = label;
  static_path_found = false;
  static_entry_endpoints = [];
  runtime_evidence = false;
  runtime_call_count_24h = 0;
  externally_reachable = false;
  external_url = none;
}

abbrev results : List ReachabilityResult
results = labelled critical ∷ labelled low ∷ labelled critical ∷ []

counted : breakdown results ≡ ok (("CRITICAL", 2) ∷ ("LOW", 1) ∷ [])
unfolding breakdown zeros tally insert lookup value
counted = refl

unprepared : tally results [] ≡ err (record { kind = "KeyError"; message = "CRITICAL" })
unfolding tally lookup value
unprepared = refl

abbrev node : String → String → NodeInfo
node id name = record { id = id; name = name; file = "a.py" }

merged :
    values (
      node_map
        (record { nodes = node "a" "f" ∷ node "b" "g" ∷ []; edges = [] }
          ∷ record { nodes = node "a" "h" ∷ []; edges = [] }
          ∷ [])
        [])
    ≡ node "a" "h" ∷ node "b" "g" ∷ []
unfolding node_map add_nodes insert
merged = refl

fewer : difference 1 3 ≡ negsuc 1
fewer = refl

breakdown-Counts_example : Counts results [] (breakdown results)
breakdown-Counts_example = breakdown-Counts results
