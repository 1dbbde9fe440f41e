-- ===== src/Tests/Nuclei.antt =====
-- layer3/nuclei_runner.py, where an address is its own path.
use live_system_intelligence.Prelude.{
  String, true, none, some, List, [], ◌∷◌, any, contains, string_eq, ◌≡◌, refl,
}
use live_system_intelligence.Prelude.Dict.{Dict, lookup, insert, update}
use live_system_intelligence.Exec.{ok, pure, for_each}
use live_system_intelligence.Exec.Laws.{Returns}
use live_system_intelligence.Neo4j.{upsert_node, upsert_params}
use live_system_intelligence.Certificate.Json.{Json, str}
use live_system_intelligence.Nuclei.{Finding, Sources}
use live_system_intelligence.Nuclei.Paths.{
  insert_path, extract_paths, finding_by_path, number_segments, uuid_segments, path_to_pattern,
}
use live_system_intelligence.Nuclei.Scan.{
  scan, add_endpoint, upsert_external_endpoint, find_matching_api_endpoints,
}
use live_system_intelligence.Nuclei.Discovered.{is_found_at, extract_paths-contains}
use live_system_intelligence.Nuclei.Counted.{Counted, scan-Counted}

numbers : path_to_pattern "/api/v1/users/123/x" ≡ "/api/v1/users/{id}/x"
unfolding path_to_pattern number_segments uuid_segments
numbers = refl

letters : path_to_pattern "/u/abcdef01-0000-4000-8000-000000000001/x" ≡ "/u/{uuid}/x"
unfolding path_to_pattern number_segments uuid_segments
letters = refl

-- The digits at the start of a UUID are taken for a number before the UUID is looked for.
digits_first :
    path_to_pattern "/u/12cdef01-0000-4000-8000-000000000001"
    ≡ "/u/{id}cdef01-0000-4000-8000-000000000001"
unfolding path_to_pattern number_segments uuid_segments
digits_first = refl

abbrev at : String → Finding
at address = record { template_id = some "t"; matched_at = address; severity = some "high" }

abbrev findings : List Finding
findings = at "/b/" ∷ at "/a" ∷ at "" ∷ at "/b/" ∷ []

-- The outside: the parameters of the writes so far.
abbrev sources : Sources (List (Dict String Json))
sources = record {
  timing = record { uniform = λ d w. (d, w); sleep = λ d w. w };
  run = λ command. pure (record { returncode = 1; stderr = "" });
  temporary = pure "/tmp/d";
  exists = λ path w. true;
  read_lines = λ path. pure [];
  loads = λ line. none;
  url_path = λ address. ok address;
  sha256_hex = λ s. s;
  now = λ w. "now";
  run_query = λ cypher params w. (ok tt, params ∷ w);
  matching_endpoints = λ service exact pattern. pure ("e" ∷ []);
  link = λ ext_id ep_id. pure tt;
  services = pure [];
}

paths : extract_paths sources findings ≡ "/a" ∷ "/b" ∷ []
unfolding extract_paths insert_path
paths = refl

-- A finding whose address ends with a slash loses its severity.
severity_lost :
    (add_endpoint sources "s" "https://x/" (("/b/", at "/b/") ∷ []) "/b" []).1
    ≡ (("id", str "s:https://x/b")
        ∷ ("url", str "https://x/b")
        ∷ ("path", str "/b")
        ∷ ("service", str "s")
        ∷ ("template_id", str "")
        ∷ ("severity", str "info")
        ∷ ("discovered_at", str "now")
        ∷ [])
      ∷ []
unfolding add_endpoint upsert_external_endpoint find_matching_api_endpoints upsert_node
    upsert_params update insert lookup for_each
severity_lost = refl

extract_paths-contains_example :
    contains "/b" (extract_paths sources findings) ≡ any (is_found_at sources "/b") findings
extract_paths-contains_example = extract_paths-contains sources "/b" findings

abbrev found : Dict String Finding
found = ("/b/", at "/b/") ∷ ("/a", at "/a") ∷ []

by_path : finding_by_path sources findings (ok []) ≡ ok found
unfolding finding_by_path insert
by_path = refl

scan-Counted_example : Returns (Counted sources) (scan sources "s" "https://x" [])
scan-Counted_example = scan-Counted sources "s" "https://x" []
