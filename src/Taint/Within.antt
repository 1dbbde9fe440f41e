-- ===== src/Taint/Within.antt =====
-- Which edges an analysis of layer4/taint_tracker.py writes.
use live_system_intelligence.Prelude.{
  String, ◌<>◌, Bool, true, false, Option, none, some, ◌==◌, string_eq,
}
use live_system_intelligence.Exec.{pure, ◌>>=◌, for_each}
use live_system_intelligence.Exec.Keeps.{Keeps, Keeps-bind, Keeps-branch, Keeps-for_each}
use live_system_intelligence.Taint.{CodeqlFlow, IntraRow, Edge, Sources}
use live_system_intelligence.Taint.Codeql.{codeql_available, run_codeql_python}
use live_system_intelligence.Taint.Calm.{Calm, Keeps-codeql_available, Keeps-run_codeql_python}
use live_system_intelligence.Taint.Flows.{
  http_client_patterns, or_external, upsert_flows_to, service_is_regulated,
  flag_unregulated_pii_flows, own_flow, codeql_edge, graph_edge, by_codeql, strategy_a, analyse,
}

-- An edge of the service's own. The query that flags flows may mark it as unregulated later.
abbrev pub own_edge : String → String → String → String → Bool → Edge
own_edge service src dst via regulated = record {
  src = src;
  dst = dst;
  via = via;
  svc_path = service <> "→" <> or_external (some service);
  regulated = regulated;
  unregulated = false;
}

module _ {W : Type 0} (sources : Sources W) (P : W → Type 0) (calm : Calm sources P)
    (service : String) where
  abbrev pub OwnEdges : Type 0
  OwnEdges =
      (src dst via : String) (regulated : Bool)
      → Keeps P (sources.merge_edge (own_edge service src dst via regulated))

  module _ (edges : OwnEdges) where
    Keeps-own_flow :
        (src dst via : String) (regulated : Bool)
        → Keeps P (upsert_flows_to sources (own_flow sources service src dst via regulated))
    unfolding upsert_flows_to
    Keeps-own_flow src dst via regulated =
        Keeps-branch P (dst == "") (pure tt) _ (λ e w p. p) λ e. edges src dst via regulated

    Keeps-service_is_regulated : Keeps P (service_is_regulated sources service)
    unfolding service_is_regulated
    Keeps-service_is_regulated =
        Keeps-bind P (sources.scopes_of service) _ (calm.scopes_of service) λ rows w p. p

    Keeps-codeql_edge : (flow_data : CodeqlFlow) → Keeps P (codeql_edge sources service flow_data)
    unfolding codeql_edge
    Keeps-codeql_edge flow_data =
        Keeps-bind P (service_is_regulated sources service) _ Keeps-service_is_regulated
          λ regulated. Keeps-own_flow _ _ flow_data.sink_file regulated

    Keeps-graph_edge : (row : IntraRow) → Keeps P (graph_edge sources service row)
    unfolding graph_edge
    Keeps-graph_edge row =
        Keeps-bind P (service_is_regulated sources service) _ Keeps-service_is_regulated
          λ regulated. Keeps-own_flow row.src_field_id row.src_field_id row.endpoint_id regulated

    Keeps-by_codeql :
        (repo_dir : String) (available : Bool)
        → Keeps P (by_codeql sources service repo_dir available)
    Keeps-by_codeql repo_dir true =
        Keeps-bind P (run_codeql_python sources repo_dir) _
          (Keeps-run_codeql_python sources P calm repo_dir)
          λ raw_flows.
            Keeps-bind P (for_each (codeql_edge sources service) raw_flows) _
              (Keeps-for_each P (codeql_edge sources service) Keeps-codeql_edge raw_flows)
              λ units w p. p
    Keeps-by_codeql repo_dir false = λ w p. p

    Keeps-strategy_a : (repo_dir : Option String) → Keeps P (strategy_a sources service repo_dir)
    Keeps-strategy_a none = λ w p. p
    Keeps-strategy_a (some repo_dir) =
        Keeps-branch P (repo_dir == "") (pure 0)
          (codeql_available sources >>= by_codeql sources service repo_dir) (λ e w p. p)
          λ e.
            Keeps-bind P (codeql_available sources) (by_codeql sources service repo_dir)
              (Keeps-codeql_available sources P calm) (Keeps-by_codeql repo_dir)

    -- Let `P` be something that is left alone by the processes, the files, the queries that read, the
    -- mark of a leak, by the query that flags flows as unregulated, and by the MERGE of an edge whose path
    -- goes from the service to itself and which does not carry that flag at first. Then an analysis of the
    -- service leaves it alone, whether it returns or raises: it writes nothing else.
    pub analyse-Keeps :
        Keeps P (sources.flag_unregulated service)
        → (repo_dir : Option String) → Keeps P (analyse sources service repo_dir)
    unfolding analyse flag_unregulated_pii_flows
    analyse-Keeps flagging repo_dir =
        Keeps-bind P (strategy_a sources service repo_dir) _ (Keeps-strategy_a repo_dir)
          λ codeql_flows.
            Keeps-bind P (sources.pii_flows service) _ (calm.pii_flows service) λ intra_flows.
              Keeps-bind P (for_each (graph_edge sources service) intra_flows) _
                (Keeps-for_each P (graph_edge sources service) Keeps-graph_edge intra_flows)
                λ units.
                  Keeps-bind P (sources.cross_calls service http_client_patterns) _
                    (calm.cross_calls service http_client_patterns)
                    λ cross_service.
                      Keeps-bind P
                        (for_each (λ row. sources.mark_leak row.src_field_id) cross_service) _
                        (Keeps-for_each P (λ row. sources.mark_leak row.src_field_id)
                          (λ row. calm.mark_leak row.src_field_id) cross_service)
                        λ marks.
                          Keeps-bind P (flag_unregulated_pii_flows sources service) _
                            (Keeps-bind P (sources.flag_unregulated service) _ flagging
                              λ rows w p. p)
                            λ unregulated w p. p
