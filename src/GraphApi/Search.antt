-- ===== src/GraphApi/Search.antt =====
-- The endpoints /search and /metrics of layer5/graph_api.py.
use live_system_intelligence.Prelude.{
  ℕ, String, Bool, false, Option, none, some, List, [], ◌∷◌, map, length, is_empty, ◌==◌, string_eq,
  if◌then◌else◌,
}
use live_system_intelligence.Prelude.Dict.{Dict, lookup, update}
use live_system_intelligence.Exec.{Result, ok, err, Exec, pure, attempt, try_except, ◌>>=◌, ◌>>◌}
use live_system_intelligence.Certificate.Json.{Json, str}
use live_system_intelligence.GraphApi.{
  Headers, SearchResult, Series, Backend, Reply, body, error, or_blank, require_auth, require_admin,
}

pub record Found : Type 0 where
  pub query : String
  pub count : ℕ
  pub results : List (Dict String Json)

pub record History : Type 0 where
  pub service : String
  pub function : String
  pub days : Option ℕ
  pub data_points : List (Json × Json)

pub record Metrics : Type 0 where
  pub certificate_p95_seconds : Json
  pub false_positive_reduction_rate : Json
  pub victoriametrics_healthy : Bool

abbrev pub is_id : String → Option Json → Bool
is_id id (some (str s)) = s == id
is_id id _ = false

-- The first of the rows with this ID, or an empty dict.
unfoldable pub find_enriched : List (Dict String Json) → String → Dict String Json
unfolding lookup
find_enriched [] id = []
find_enriched (e ∷ enriched) id = if is_id id (lookup "id" e) then e else find_enriched enriched id

-- `zip`
abbrev pub zip : List Json → List Json → List (Json × Json)
zip (t ∷ ts) (v ∷ vs) = (t, v) ∷ zip ts vs
zip _ _ = []

module _ {W : Type 0} (backend : Backend W) where
  unfoldable pub result_to_dict : SearchResult → Dict String Json
  result_to_dict r =
      ("neo4j_id", str r.neo4j_id)
      ∷ ("description", str r.description)
      ∷ ("certainty", backend.round r.certainty)
      ∷ ("node_type", str r.node_type)
      ∷ []

  unfoldable pub enriched_result : List (Dict String Json) → SearchResult → Dict String Json
  unfolding result_to_dict find_enriched update
  enriched_result enriched r = update (result_to_dict r) (find_enriched enriched r.neo4j_id)

  -- A search that fails has no results.
  abbrev pub found_or_none : Exec W (List SearchResult) → Exec W (List SearchResult)
  found_or_none search = try_except search (λ e. pure [])

  -- The three searches of one kind of node: what is found is completed with the rows of the graph.
  unfoldable pub search_kind : String → Headers → String → Option String → ℕ → Exec W Found
  unfolding require_auth enriched_result
  search_kind kind headers q service limit = do
    require_auth backend headers
    results ← found_or_none (backend.search kind q limit service)
    enriched ←
        if is_empty results then pure [] else backend.enrich kind (map (λ r. r.neo4j_id) results)
    pure (record {
      query = q;
      count = length results;
      results = map (enriched_result enriched) results;
    })

  unfoldable pub search_functions : Headers → String → Option String → ℕ → Exec W Found
  unfolding search_kind
  search_functions headers q service limit = search_kind "Function" headers q service limit

  unfoldable pub search_endpoints : Headers → String → Option String → ℕ → Exec W Found
  unfolding search_kind
  search_endpoints headers q service limit = search_kind "APIEndpoint" headers q service limit

  unfoldable pub search_vulnerabilities : Headers → String → ℕ → Exec W Found
  unfolding search_kind
  search_vulnerabilities headers q limit = search_kind "Vulnerability" headers q none limit

  unfoldable pub search_all : Headers → String → ℕ → Exec W Found
  unfolding require_auth result_to_dict
  search_all headers q limit = do
    require_auth backend headers
    results ← found_or_none (backend.search_all q limit)
    pure (record { query = q; count = length results; results = map result_to_dict results })

  abbrev pub history_of : String → String → ℕ → Option Series → History
  history_of service function_name days none = record {
    service = service;
    function = function_name;
    days = none;
    data_points = [];
  }
  history_of service function_name days (some series) = record {
    service = service;
    function = function_name;
    days = some days;
    data_points = zip series.timestamps series.values;
  }

  unfoldable pub call_history : Headers → String → String → ℕ → Exec W History
  unfolding require_auth
  call_history headers service function_name days = do
    require_auth backend headers
    series ← backend.call_history service function_name days
    pure (history_of service function_name days series)

  unfoldable pub system_metrics : Headers → Exec W Metrics
  unfolding require_auth
  system_metrics headers = do
    require_auth backend headers
    p95 ← backend.certificate_p95
    rate ← backend.false_positive_reduction
    healthy ← backend.health
    pure (record {
      certificate_p95_seconds = p95;
      false_positive_reduction_rate = rate;
      victoriametrics_healthy = healthy;
    })

  abbrev pub service_or_all : Option String → String
  service_or_all service = if or_blank service == "" then "all" else or_blank service

  abbrev pub on_synced : Option String → Result (Dict String ℕ) → Exec W (Reply (Dict String ℕ))
  on_synced service (ok counts) = pure (body counts)
  on_synced service (err e) = pure (
      error 500 (record {
        what = e.message;
        layer = "layer5:weaviate_sync";
        input = service_or_all service;
        action = "Check Weaviate connectivity and logs.";
      }))

  unfoldable pub sync_search_index : Headers → Option String → Exec W (Reply (Dict String ℕ))
  unfolding require_admin
  sync_search_index headers service = do
    require_admin backend headers
    attempt (backend.sync service) >>= on_synced service
