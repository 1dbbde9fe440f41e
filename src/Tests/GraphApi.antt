-- ===== src/Tests/GraphApi.antt =====
-- layer5/graph_api.py, outside the development mode, with a token that nobody issued.
use live_system_intelligence.Prelude.{
  String, true, false, none, some, List, [], ◌∷◌, All, string_eq, ◌≡◌, refl,
}
use live_system_intelligence.Prelude.Dict.{lookup, insert, update}
use live_system_intelligence.Exec.{ok, pure}
use live_system_intelligence.Exec.Keeps.{Keeps}
use live_system_intelligence.Retry.{pause}
use live_system_intelligence.Certificate.Json.{str, num}
use live_system_intelligence.NlQuery.{Services, tokens}
use live_system_intelligence.NlQuery.Validator.{validate_cypher}
use live_system_intelligence.NlQuery.Guarded.{Harmless}
use live_system_intelligence.GraphApi.{Headers, Backend, token_of, require_auth}
use live_system_intelligence.GraphApi.Query.{raw_cypher, nl_query}
use live_system_intelligence.GraphApi.Search.{
  search_functions, search_kind, enriched_result, result_to_dict, find_enriched,
}
use live_system_intelligence.GraphApi.Admitted.{Refused, raw_cypher-Refused, queries-Keep}

-- The outside: the queries that were run.
abbrev services : Services (List String)
services = record {
  wide = λ c. false;
  timing = record { uniform = λ d w. (d, w); sleep = λ d w. w };
  now = λ w. 7;
  api_key = λ w. some "key";
  create = λ request. pure (record { texts = "RETURN 1 AS one" ∷ []; cache_read = tokens 0 });
  run_query = λ query params w. (ok [], query ∷ w);
  dumps = λ rows. "[]";
  show = λ n. "n";
  schema_context = "";
}

abbrev backend : Backend (List String)
backend = record {
  auth_disabled = λ w. some "false";
  lower = λ s. s;
  search = λ kind q limit service. pure (
      record { neo4j_id = "f"; description = "d"; certainty = num 9; node_type = "Function" } ∷ []);
  search_all = λ q limit. pure [];
  enrich = λ kind ids. pure ((("id", str "f") ∷ ("name", str "decode") ∷ []) ∷ []);
  round = λ x. x;
  sync = λ service. pure [];
  call_history = λ service function days. pure none;
  certificate_p95 = pure (num 3);
  false_positive_reduction = pure (num 0);
  health = pure true;
}

abbrev made_up : Headers
made_up = record { x_auth_token = none; authorization = some "Bearer anything" }

token : token_of made_up ≡ "anything"
unfolding token_of
token = refl

found : search_functions backend made_up "q" none 10 [] ≡ (
  ok (record {
    query = "q";
    count = 1;
    results =
        (("neo4j_id", str "f")
          ∷ ("description", str "d")
          ∷ ("certainty", num 9)
          ∷ ("node_type", str "Function")
          ∷ ("id", str "f")
          ∷ ("name", str "decode")
          ∷ [])
        ∷ [];
  }),
  [],
)
unfolding search_functions search_kind enriched_result result_to_dict find_enriched require_auth
    token_of lookup update insert
found = refl

raw_cypher-Refused_example :
    Refused (raw_cypher services backend made_up "MATCH (n) RETURN n" []) []
raw_cypher-Refused_example =
    raw_cypher-Refused backend services made_up "MATCH (n) RETURN n" [] [] refl

abbrev Passed : List String → Type 0
Passed = All (λ query. (validate_cypher services.wide query).0 ≡ true)

harmless : Harmless services Passed
unfolding pause
harmless = record {
  asks = λ request w p. p;
  waits = λ policy attempt w p. p;
  reads = λ query params e w p. (e, p);
}

queries-Keep_example :
    Keeps Passed (raw_cypher services backend made_up "RETURN 1 AS one" [])
    × Keeps Passed (nl_query services backend made_up "RETURN 1 AS one" [])
queries-Keep_example = queries-Keep backend services Passed harmless made_up "RETURN 1 AS one" []
