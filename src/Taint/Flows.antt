-- ===== src/Taint/Flows.antt =====
-- The edges of layer4/taint_tracker.py, and the analysis of a service.
use live_system_intelligence.Prelude.{
  ℕ, ◌+◌, String, ◌<>◌, Bool, false, not, Option, none, some, List, [], ◌∷◌, length, is_empty, ◌==◌,
  string_eq, if◌then◌else◌,
}
use live_system_intelligence.Exec.{Exec, pure, ◌>>=◌, ◌>>◌, for_each}
use live_system_intelligence.Text.{split}
use live_system_intelligence.Regulatory.{first_count}
use live_system_intelligence.Taint.{CodeqlFlow, IntraRow, Sources, TaintFlow, Summary}
use live_system_intelligence.Taint.Codeql.{codeql_available, run_codeql_python}

abbrev pub http_client_patterns : List String
http_client_patterns =
    "requests.get" ∷ "requests.post" ∷ "requests.put" ∷ "requests.patch" ∷ "axios" ∷ "fetch"
    ∷ "http.Get" ∷ "http.Post" ∷ "urllib" ∷ "httpx" ∷ "RestTemplate" ∷ "WebClient" ∷ "Net::HTTP"
    ∷ []

abbrev pub first_of : List String → Option String
first_of [] = none
first_of (s ∷ more) = some s

-- `service or 'external'`
abbrev pub or_external : Option String → String
or_external none = "external"
or_external (some s) = if s == "" then "external" else s

-- `xs[-1]` of a list that starts with `x`.
abbrev pub last_piece : String → List String → String
last_piece x [] = x
last_piece x (y ∷ ys) = last_piece y ys

-- `text.split(".")[-1]`
abbrev pub last_name : String → String
last_name text = last_piece "" (split 46 text)

module _ {W : Type 0} (sources : Sources W) where
  -- A flow whose destination is not known makes no edge.
  abbrev pub merge_to : TaintFlow → Option String → Exec W (Unit {0})
  merge_to flow none = pure tt
  merge_to flow (some dst) =
      if dst == ""
      then pure tt
      else sources.merge_edge (record {
        src = flow.src_field_id;
        dst = dst;
        via = flow.via_endpoint;
        svc_path = flow.src_service <> "→" <> or_external flow.dst_service;
        regulated = flow.regulated;
        unregulated = flow.unregulated;
      })

  unfoldable pub upsert_flows_to : TaintFlow → Exec W (Unit {0})
  upsert_flows_to flow = merge_to flow flow.dst_field_id

  unfoldable pub flag_unregulated_pii_flows : String → Exec W ℕ
  flag_unregulated_pii_flows service = do
    result ← sources.flag_unregulated service
    pure (first_count result)

  -- A service that is not there, or has no scope, is not regulated.
  abbrev pub has_scope : List (Option (List String)) → Bool
  has_scope [] = false
  has_scope (none ∷ rows) = false
  has_scope (some scope ∷ rows) = not (is_empty scope)

  unfoldable pub service_is_regulated : String → Exec W Bool
  service_is_regulated dst_service = do rows ← sources.scopes_of dst_service; pure (has_scope rows)

  unfoldable pub find_matching_field_in_service : String → String → Exec W (Option String)
  find_matching_field_in_service field_name dst_service = do
    rows ← sources.fields_named dst_service field_name
    pure (first_of rows)

  unfoldable pub infer_destination_service : String → String → Exec W (Option String)
  infer_destination_service endpoint_path current_service = do
    rows ← sources.services_at endpoint_path current_service
    pure (first_of rows)

  module _ (service : String) where
    abbrev pub own_flow : String → String → String → Bool → TaintFlow
    own_flow src dst via regulated = record {
      src_field_id = src;
      dst_field_id = some dst;
      via_endpoint = via;
      src_service = service;
      dst_service = some service;
      regulated = regulated;
      unregulated = false;
    }

    unfoldable pub codeql_edge : CodeqlFlow → Exec W (Unit {0})
    unfolding service_is_regulated upsert_flows_to
    codeql_edge flow_data = do
      regulated ← service_is_regulated service
      upsert_flows_to (
          own_flow (service <> ":" <> last_name flow_data.src_expr)
            (service <> ":" <> last_name flow_data.sink_expr) flow_data.sink_file regulated)

    -- A field that an endpoint reaches gets an edge to itself.
    unfoldable pub graph_edge : IntraRow → Exec W (Unit {0})
    unfolding service_is_regulated upsert_flows_to
    graph_edge row = do
      regulated ← service_is_regulated service
      upsert_flows_to (own_flow row.src_field_id row.src_field_id row.endpoint_id regulated)

    -- Strategy A: the number of flows, each of which has been written.
    abbrev pub by_codeql : String → Bool → Exec W ℕ
    by_codeql repo_dir available =
        if available
        then (do
          raw_flows ← run_codeql_python sources repo_dir
          for_each codeql_edge raw_flows
          pure (length raw_flows))
        else pure 0

    abbrev pub strategy_a : Option String → Exec W ℕ
    strategy_a none = pure 0
    strategy_a (some repo_dir) =
        if repo_dir == "" then pure 0 else codeql_available sources >>= by_codeql repo_dir

    unfoldable pub analyse : Option String → Exec W Summary
    unfolding codeql_available run_codeql_python codeql_edge graph_edge flag_unregulated_pii_flows
    analyse repo_dir = do
      codeql_flows ← strategy_a repo_dir
      intra_flows ← sources.pii_flows service
      for_each graph_edge intra_flows
      cross_service ← sources.cross_calls service http_client_patterns
      for_each (λ row. sources.mark_leak row.src_field_id) cross_service
      unregulated ← flag_unregulated_pii_flows service
      pure (record {
        status = "ok";
        service = service;
        codeql_flows = codeql_flows;
        graph_flows_created = codeql_flows + length intra_flows;
        unregulated_pii_flows = unregulated;
      })

  unfoldable pub analyse_all_services : Exec W (List Summary)
  unfolding analyse
  analyse_all_services = do
    services ← sources.service_ids
    for_each (λ id. analyse id none) services
