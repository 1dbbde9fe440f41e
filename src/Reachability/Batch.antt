-- ===== src/Reachability/Batch.antt =====
-- The batch update of a service, of layer3/reachability.py.
use live_system_intelligence.Prelude.{String, List, string_eq, ◌≡◌}
use live_system_intelligence.Exec.{ok}
use live_system_intelligence.Exec.Laws.{Returns, Returns-bind, Returns-then, Each, for_each-Each}
use live_system_intelligence.Reachability.{
  ReachabilityResult, Graph, SetOrder, VulnEdge, compute_reachability, update_edge, run_for_service,
  or_nil,
}
use live_system_intelligence.Reachability.Labels.{IsExplained, compute_reachability-IsExplained}

module _ {W : Type 0} (graph : Graph W) (unique : SetOrder) where
  abbrev pub Explains : VulnEdge → ReachabilityResult → Type 0
  Explains edge r = IsExplained edge.vuln_id edge.dep_id r

  update_edge-Explains :
      (service : String) (edge : VulnEdge) (w : W)
      → Returns (Explains edge) (update_edge graph unique service edge w)
  unfolding update_edge
  update_edge-Explains service edge w =
      Returns-then (Explains edge) (Explains edge)
        (compute_reachability graph unique edge.vuln_id edge.dep_id service
          (or_nil edge.vuln_funcs))
        _ w
        (compute_reachability-IsExplained graph unique edge.vuln_id edge.dep_id service
          (or_nil edge.vuln_funcs) w)
        λ r h v.
          Returns-bind (Explains edge) (graph.set_reachability edge.dep_id edge.vuln_id r) _ v
            λ _ u. h

  -- A run for a service that returns gives one result for each HAS_VULN edge that the graph
  -- listed, in order, each for its own edge and with the label that its evidence calls for.
  pub run_for_service-Explains :
      (service : String) (w : W) {edges : List VulnEdge} {w' : W}
      → graph.has_vuln_edges service w ≡ (ok edges, w')
      → Returns (Each Explains edges) (run_for_service graph unique service w)
  unfolding run_for_service
  run_for_service-Explains service w {edges} {w'} listed = rw listed (
      for_each-Each Explains (update_edge graph unique service) (update_edge-Explains service) edges
        w')
