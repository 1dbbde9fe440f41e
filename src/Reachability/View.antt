-- ===== src/Reachability/View.antt =====
-- What the graph shows to `compute_reachability` of layer3/reachability.py, and the label that it calls for.
use live_system_intelligence.Prelude.{
  String, Bool, List, [], is_empty, any, not, if◌then◌else◌, string_eq, ◌≡◌,
}
use live_system_intelligence.Exec.{ok}
use live_system_intelligence.Reachability.{
  Reachability, critical, high, low, not_reachable, StaticPath, RuntimeEvidence, External, Graph,
  SetOrder, all_path_nodes,
}

-- The content of a graph: the answers of the three queries, and which functions were called at runtime.
pub record View : Type 0 where
  pub called : String → Bool
  pub paths : String → List String → List StaticPath
  pub calls : List String → List RuntimeEvidence
  pub externals : String → List External

-- A graph that answers every query from its content and stays as it is. The query for the evidence
-- has a row if and only if some of the functions asked for was called.
pub record Shows {W : Type 0} (graph : Graph W) (view : View) : Type 0 where
  pub shows_paths :
      (s : String) (fs : List String) (w : W)
      → graph.static_paths s fs w ≡ (ok (view.paths s fs), w)
  pub shows_calls :
      (ids : List String) (w : W) → graph.runtime_calls ids w ≡ (ok (view.calls ids), w)
  pub shows_called : (ids : List String) → is_empty (view.calls ids) ≡ not (any view.called ids)
  pub shows_externals :
      (ep : String) (w : W) → graph.external_endpoints ep w ≡ (ok (view.externals ep), w)

module _ (view : View) where
  abbrev pub found_paths : String → List String → List StaticPath
  found_paths service fs = if is_empty fs then [] else view.paths service fs

  abbrev pub is_external : String → Bool
  is_external ep = not (is_empty (view.externals ep))

  abbrev pub verdict_of : List StaticPath → Reachability
  verdict_of ps =
      if is_empty ps
      then not_reachable
      else if not (any view.called (all_path_nodes ps))
      then low
      else if any (λ p. is_external p.endpoint_id) ps
      then critical
      else high

  -- The label that the content of the graph calls for.
  abbrev pub verdict : String → List String → Reachability
  verdict service fs = verdict_of (found_paths service fs)

-- The evidence for the functions on the paths, asked for in the order that the set has.
abbrev pub found_calls : View → SetOrder → List StaticPath → List RuntimeEvidence
found_calls view unique ps =
    let nodes = unique (all_path_nodes ps) in if is_empty nodes then [] else view.calls nodes
