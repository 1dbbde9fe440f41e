-- ===== src/Reachability/Decision.antt =====
-- `compute_reachability` of layer3/reachability.py over a graph whose queries answer and change
-- nothing.
use live_system_intelligence.Prelude.{
  String, Bool, true, some, List, [], ◌∷◌, map, is_empty, any, not, if◌then◌else◌, string_eq, ◌≡◌,
  refl, sym, ap, ◌∙◌, arith, Bool-cases, inl, inr,
}
use live_system_intelligence.Prelude.Members.{any-of_contains, witness_of-any}
use live_system_intelligence.Exec.{ok, Exec, pure}
use live_system_intelligence.Reachability.{
  Reachability, critical, high, low, not_reachable, StaticPath, RuntimeEvidence, External,
  ReachabilityResult, Graph, SetOrder, KeepsMembers, all_path_nodes, blank, reached, observed,
  first, answer, attack_surface, runtime_step, compute_reachability,
  check_attack_surface_reachability, check_static_reachability, check_runtime_reachability,
}
use live_system_intelligence.Reachability.View.{
  View, Shows, found_paths, is_external, verdict_of, verdict, found_calls,
}

-- A test that some member passes does not depend on the order of the set.
any_unique :
    (unique : SetOrder)
    → KeepsMembers unique
    → (p : String → Bool) (xs : List String) → any p (unique xs) ≡ any p xs
any_unique unique keeps p xs = elim (Bool-cases (any p (unique xs))) [
  | inl yes_u ↦
      let (x, m, q) = witness_of-any p (unique xs) yes_u in
      yes_u ∙ sym (any-of_contains p x xs (sym (keeps xs x) ∙ m) q)
  | inr no_u ↦ elim (Bool-cases (any p xs)) [
    | inl yes_x ↦
        let (x, m, q) = witness_of-any p xs yes_x in
        cc (any-of_contains p x (unique xs) (keeps xs x ∙ m) q)
    | inr no_x ↦ no_u ∙ sym no_x
  ]
]

any-map :
    (p : String → Bool) (ps : List StaticPath)
    → any p (map (λ q. q.endpoint_id) ps) ≡ any (λ q. p q.endpoint_id) ps
any-map p [] = refl
any-map p (q ∷ ps) = ground (arith, any-map p ps)

-- The result of the loop over the entry endpoints, as a function of the content.
surfaced : View → ReachabilityResult → List String → ReachabilityResult
surfaced view r [] = record r { reachability = high }
surfaced view r (x ∷ xs) =
    let rest = surfaced view r xs in
    elim (view.externals x) [
      | [] ↦ rest
      | e ∷ es ↦ record r {
        externally_reachable = true;
        external_url = some e.url;
        reachability = critical;
      }
    ]

surfaced-label :
    (view : View) (r : ReachabilityResult) (xs : List String)
    → (surfaced view r xs).reachability ≡ (if any (is_external view) xs then critical else high)
unfolding surfaced
surfaced-label view r [] = refl
surfaced-label view r (x ∷ xs) = ground (arith, surfaced-label view r xs)

module _ {W : Type 0} (graph : Graph W) (view : View) (shows : Shows graph view)
    (unique : SetOrder) where
  attack_surface-eq-surfaced :
      (r : ReachabilityResult) (xs : List String) (w : W)
      → attack_surface graph unique r xs w ≡ (ok (surfaced view r xs), w)
  unfolding attack_surface check_attack_surface_reachability surfaced
  attack_surface-eq-surfaced r [] w = refl
  attack_surface-eq-surfaced r (x ∷ xs) w =
      rw (shows.shows_externals x w) (go (view.externals x) (attack_surface-eq-surfaced r xs w))
    where
      go :
          (es : List External)
          → attack_surface graph unique r xs w ≡ (ok (surfaced view r xs), w)
          → answer graph unique r (attack_surface graph unique r xs) (first es) w ≡ (
            ok (elim es as (λ _. ReachabilityResult) [
              | [] ↦ surfaced view r xs
              | e ∷ es ↦ record r {
                externally_reachable = true;
                external_url = some e.url;
                reachability = critical;
              }
            ]),
            w,
          )
      go [] ih = ih
      go (e ∷ es) ih = refl

  check_static-eq :
      (service : String) (fs : List String) (w : W)
      → check_static_reachability graph unique service fs w ≡ (ok (found_paths view service fs), w)
  unfolding check_static_reachability
  check_static-eq service [] w = refl
  check_static-eq service (f ∷ fs) w = shows.shows_paths service (f ∷ fs) w

  check_runtime-eq :
      (nodes : List String) (w : W)
      → check_runtime_reachability graph unique nodes w
        ≡ (ok (if is_empty nodes then [] else view.calls nodes), w)
  unfolding check_runtime_reachability
  check_runtime-eq [] w = refl
  check_runtime-eq (n ∷ ns) w = shows.shows_calls (n ∷ ns) w

  -- The returned result, with the label that the content calls for.
  abbrev pub Gives : Reachability → W → Exec W ReachabilityResult → Type 0
  Gives label w m = (r : ReachabilityResult) × (m w ≡ (ok r, w)) × (r.reachability ≡ label)

  -- Steps 2 and 3 over known rows of runtime evidence.
  runtime_step-eq :
      (r : ReachabilityResult) (ps : List StaticPath) (es : List RuntimeEvidence) (w : W)
      → found_calls view unique ps ≡ es
      → runtime_step graph unique r ps w ≡ (
        ok (
            if is_empty es
            then record r { reachability = low }
            else surfaced view (observed r es) r.static_entry_endpoints),
        w,
      )
  unfolding runtime_step
  runtime_step-eq r ps [] w e = rw (check_runtime-eq (unique (all_path_nodes ps)) w, e) refl
  runtime_step-eq r ps (x ∷ xs) w e =
      rw (check_runtime-eq (unique (all_path_nodes ps)) w, e)
        (attack_surface-eq-surfaced (observed r (x ∷ xs)) r.static_entry_endpoints w)

  is_empty-found_calls :
      KeepsMembers unique
      → (ps : List StaticPath)
      → is_empty (found_calls view unique ps) ≡ not (any view.called (all_path_nodes ps))
  is_empty-found_calls keeps ps =
      asked (unique (all_path_nodes ps))
      ∙ ap not (any_unique unique keeps view.called (all_path_nodes ps))
    where
      asked :
          (nodes : List String)
          → is_empty (if is_empty nodes then [] else view.calls nodes) ≡ not (any view.called nodes)
      asked [] = refl
      asked (n ∷ ns) = shows.shows_called (n ∷ ns)

  runtime_step-Gives :
      KeepsMembers unique
      → (vuln_id dep_id : String) (p : StaticPath) (ps : List StaticPath) (w : W)
      → Gives
          (verdict_of view (p ∷ ps))
          w
          (runtime_step graph unique (reached unique vuln_id dep_id (p ∷ ps)) (p ∷ ps))
  runtime_step-Gives keeps vuln_id dep_id p ps w =
      rw (← is_empty-found_calls keeps (p ∷ ps))
        (go (found_calls view unique (p ∷ ps)) (runtime_step-eq r (p ∷ ps) _ w refl))
    where
      r : ReachabilityResult
      r = reached unique vuln_id dep_id (p ∷ ps)

      external : Bool
      external = any (λ q. is_external view q.endpoint_id) (p ∷ ps)

      entries : any (is_external view) r.static_entry_endpoints ≡ external
      entries =
          any_unique unique keeps (is_external view) (map (λ q. q.endpoint_id) (p ∷ ps))
          ∙ any-map (is_external view) (p ∷ ps)

      go :
          (es : List RuntimeEvidence)
          → runtime_step graph unique r (p ∷ ps) w ≡ (
            ok (
                if is_empty es
                then record r { reachability = low }
                else surfaced view (observed r es) r.static_entry_endpoints),
            w,
          )
          → Gives
              (if is_empty es then low else if external then critical else high)
              w
              (runtime_step graph unique r (p ∷ ps))
      go [] e = (record r { reachability = low }, e, refl)
      go (x ∷ xs) e = (
        surfaced view (observed r (x ∷ xs)) r.static_entry_endpoints,
        e,
        rw (surfaced-label view, entries),
      )

  -- Over a graph that answers and stays as it is, `compute_reachability` returns, and leaves the graph
  -- alone. In whatever order Python's sets list their members, it gives NOT_REACHABLE if no function is
  -- named or there is no static path, LOW if no function on the paths was called at runtime, CRITICAL if
  -- some entry endpoint of the paths is external, and HIGH otherwise.
  pub compute_reachability-verdict :
      KeepsMembers unique
      → (vuln_id dep_id service : String) (vulnerable_functions : List String) (w : W)
      → Gives
          (verdict view service vulnerable_functions)
          w
          (compute_reachability graph unique vuln_id dep_id service vulnerable_functions)
  unfolding compute_reachability
  compute_reachability-verdict keeps vuln_id dep_id service fs w =
      rw (check_static-eq service fs w) (go (found_paths view service fs))
    where
      go :
          (ps : List StaticPath)
          → Gives (verdict_of view ps) w (
              if is_empty ps
              then pure (record (blank vuln_id dep_id) { reachability = not_reachable })
              else runtime_step graph unique (reached unique vuln_id dep_id ps) ps)
      go [] = (record (blank vuln_id dep_id) { reachability = not_reachable }, refl, refl)
      go (p ∷ ps) = runtime_step-Gives keeps vuln_id dep_id p ps w
