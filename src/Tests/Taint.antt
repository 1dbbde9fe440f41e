-- ===== src/Tests/Taint.antt =====
-- layer4/taint_tracker.py, at a service with one field, one flow of CodeQL and one call to a client.
use live_system_intelligence.Prelude.{
  true, some, List, [], ◌∷◌, All, length, map, string_eq, ◌≡◌, refl,
}
use live_system_intelligence.Exec.{ok, pure, for_each}
use live_system_intelligence.Exec.Keeps.{Keeps}
use live_system_intelligence.Taint.{Edge, Sources}
use live_system_intelligence.Taint.Codeql.{codeql_available, run_codeql_python, parse_rows}
use live_system_intelligence.Taint.Flows.{
  analyse, codeql_edge, graph_edge, flag_unregulated_pii_flows, service_is_regulated,
  upsert_flows_to,
}
use live_system_intelligence.Taint.Calm.{Calm}
use live_system_intelligence.Taint.Within.{own_edge, analyse-Keeps}

abbrev flagged : Edge → Edge
flagged edge = record edge { unregulated = true }

-- The outside: the edges so far. The service that they lead to has no scope, so each is flagged.
abbrev sources : Sources (List Edge)
sources = record {
  run = λ command. pure (record { returncode = 0; stderr = "" });
  temporary = pure "/tmp/d";
  write_text = λ path text. pure tt;
  read_lines = λ path. pure (
      "src_file,src_line,sink_file,sink_line,src_expr,sink_expr"
      ∷ "\"a.py\",\"3\",\"b.py\",\"\",\"user.email\",\"send(x)\"" ∷ "\"short\"" ∷ []);
  parse_int = λ s. ok 3;
  query_text = "";
  pii_flows = λ service. pure (record { src_field_id = "s:ssn"; endpoint_id = "e" } ∷ []);
  cross_calls =
      λ service patterns. pure (record { src_field_id = "s:ssn"; http_call = "requests.get" } ∷ []);
  merge_edge = λ edge w. (ok tt, edge ∷ w);
  flag_unregulated = λ service w. (ok (length w ∷ []), map flagged w);
  scopes_of = λ service. pure (some ("PCI" ∷ []) ∷ []);
  fields_named = λ service name. pure [];
  services_at = λ path service. pure [];
  mark_leak = λ field_id. pure tt;
  service_ids = pure ("s" ∷ []);
}

-- The call to a client makes no edge.
analysed : analyse sources "s" (some "/repo") [] ≡ (
  ok (record {
    status = "ok";
    service = "s";
    codeql_flows = 1;
    graph_flows_created = 2;
    unregulated_pii_flows = 2;
  }),
  flagged (own_edge "s" "s:ssn" "s:ssn" "e" true)
      ∷ flagged (own_edge "s" "s:email" "s:send(x)" "b.py" true)
      ∷ [],
)
unfolding analyse codeql_available run_codeql_python parse_rows codeql_edge graph_edge
    flag_unregulated_pii_flows service_is_regulated upsert_flows_to for_each
analysed = refl

abbrev Own : List Edge → Type 0
Own = All (λ edge. edge.svc_path ≡ "s→s")

calm : Calm sources Own
calm = record {
  run = λ command w p. p;
  temporary = λ w p. p;
  write_text = λ path text w p. p;
  read_lines = λ path w p. p;
  pii_flows = λ service w p. p;
  cross_calls = λ service patterns w p. p;
  scopes_of = λ service w p. p;
  mark_leak = λ field_id w p. p;
}

flagged-Own : (edges : List Edge) → Own edges → Own (map flagged edges)
flagged-Own [] own = tt
flagged-Own (edge ∷ edges) (own, rest) = (own, flagged-Own edges rest)

analyse-Keeps_example : Keeps Own (analyse sources "s" (some "/repo"))
analyse-Keeps_example =
    analyse-Keeps sources Own calm "s" (λ src dst via regulated w p. (refl, p)) flagged-Own
      (some "/repo")
