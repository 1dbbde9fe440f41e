-- ===== src/Reachability/Labels.antt =====
-- The labels that `compute_reachability` of layer3/reachability.py gives, and the evidence that it records with them.
use live_system_intelligence.Prelude.{
  String, Bool, true, false, Option, none, some, List, [], ◌∷◌, if◌then◌else◌, string_eq, ◌≡◌, refl,
  arith,
}
use live_system_intelligence.Exec.Laws.{Returns, Returns-bind}
use live_system_intelligence.Reachability.{
  Reachability, critical, high, low, not_reachable, StaticPath, ReachabilityResult, Graph, SetOrder,
  all_path_nodes, reached, observed, attack_surface, runtime_step, compute_reachability,
  check_static_reachability, check_runtime_reachability, check_attack_surface_reachability,
}

abbrev is_some : {A : Type 0} → Option A → Bool
is_some none = false
is_some (some a) = true

-- The label that three pieces of evidence call for: a static path, a runtime call on it, and an
-- external entry endpoint.
abbrev pub label : Bool → Bool → Bool → Reachability
label false runtime external = not_reachable
label true false external = low
label true true false = high
label true true true = critical

-- A result whose label, fields and names agree.
pub record IsExplained (vuln_id dep_id : String) (r : ReachabilityResult) : Type 0 where
  pub labelled :
      r.reachability ≡ label r.static_path_found r.runtime_evidence r.externally_reachable
  pub with_url : is_some r.external_url ≡ r.externally_reachable
  pub for_vuln : r.vuln_id ≡ vuln_id
  pub for_dep : r.dep_id ≡ dep_id
  pub counted :
      r.runtime_call_count_24h ≡ (if r.runtime_evidence then r.runtime_call_count_24h else 0)

-- A result with runtime evidence, before the attack surface is looked at.
record IsEvidenced (vuln_id dep_id : String) (r : ReachabilityResult) : Type 0 where
  for_vuln : r.vuln_id ≡ vuln_id
  for_dep : r.dep_id ≡ dep_id
  static : r.static_path_found ≡ true
  runtime : r.runtime_evidence ≡ true
  internal : r.externally_reachable ≡ false
  no_url : r.external_url ≡ none

module _ {W : Type 0} (graph : Graph W) (unique : SetOrder) where
  attack_surface-IsExplained :
      (vuln_id dep_id : String) (r : ReachabilityResult) (endpoints : List String) (w : W)
      → IsEvidenced vuln_id dep_id r
      → Returns (IsExplained vuln_id dep_id) (attack_surface graph unique r endpoints w)
  unfolding attack_surface
  attack_surface-IsExplained vuln_id dep_id r [] w h = ground arith
  attack_surface-IsExplained vuln_id dep_id r (x ∷ xs) w h =
      Returns-bind (IsExplained vuln_id dep_id) (check_attack_surface_reachability graph unique x) _
        w
        (elim [
          | none ↦ λ v. attack_surface-IsExplained vuln_id dep_id r xs v h
          | some ext ↦ λ v. ground arith
        ])

  runtime_step-IsExplained :
      (vuln_id dep_id : String) (r : ReachabilityResult) (paths : List StaticPath) (w : W)
      → r.vuln_id ≡ vuln_id
      → r.dep_id ≡ dep_id
      → r.static_path_found ≡ true
      → r.runtime_evidence ≡ false
      → r.runtime_call_count_24h ≡ 0
      → r.externally_reachable ≡ false
      → r.external_url ≡ none
      → Returns (IsExplained vuln_id dep_id) (runtime_step graph unique r paths w)
  unfolding runtime_step
  runtime_step-IsExplained vuln_id dep_id r paths w v d s t c e u =
      Returns-bind (IsExplained vuln_id dep_id)
        (check_runtime_reachability graph unique (unique (all_path_nodes paths))) _ w
        (elim [
          | [] ↦ λ w'. ground arith
          | x ∷ xs ↦ λ w'.
              attack_surface-IsExplained vuln_id dep_id (observed r (x ∷ xs))
                r.static_entry_endpoints w' (ground arith)
        ])

  -- A result that `compute_reachability` returns has the label that its evidence calls for: no
  -- static path NOT_REACHABLE, no runtime call LOW, an external endpoint CRITICAL, otherwise HIGH.
  -- It has an external URL exactly when it is externally reachable, no call count without runtime
  -- evidence, and the names that it was asked for. So it is never MEDIUM nor UNKNOWN.
  pub compute_reachability-IsExplained :
      (vuln_id dep_id service : String) (vulnerable_functions : List String) (w : W)
      → Returns
          (IsExplained vuln_id dep_id)
          (compute_reachability graph unique vuln_id dep_id service vulnerable_functions w)
  unfolding compute_reachability
  compute_reachability-IsExplained vuln_id dep_id service vulnerable_functions w =
      Returns-bind (IsExplained vuln_id dep_id)
        (check_static_reachability graph unique service vulnerable_functions) _ w
        (elim [
          | [] ↦ λ v. ground arith
          | p ∷ ps ↦ λ v.
              runtime_step-IsExplained vuln_id dep_id (reached unique vuln_id dep_id (p ∷ ps))
                (p ∷ ps) v refl refl refl refl refl refl refl
        ])
