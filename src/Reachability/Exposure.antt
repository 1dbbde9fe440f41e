-- ===== src/Reachability/Exposure.antt =====
-- What `compute_pr_security_delta` of layer3/reachability.py returns: an account of it without the
-- loop that appends to the three lists.
use live_system_intelligence.Prelude.{
  String, Bool, true, false, not, Option, none, some, List, [], ◌∷◌, ◌++◌, any, map, select,
  contains, is_empty, if◌then◌else◌, ◌&&◌, ◌==◌, string_eq, ◌≡◌, refl, ap, ◌∙◌, arith, Bool-cases,
  inl, inr,
}
use live_system_intelligence.Exec.{Result, ok, err, Exec, pure, continue, ◌>>=◌}
use live_system_intelligence.Reachability.{
  Reachability, critical, high, medium, low, not_reachable, unknown, value, ReachabilityResult,
  Graph, SetOrder, AffectedRow,
}
use live_system_intelligence.Reachability.Delta.{
  NewExposure, RemovedExposure, Unchanged, Delta, no_delta, is_in, hidden, exposed, unreached,
  classify, recompute, delta_loop, compute_pr_security_delta,
}

-- How a change of label counts: which labels are exposed, hidden, not reached.
abbrev pub is_exposed : Reachability → Bool
is_exposed critical = true
is_exposed high = true
is_exposed _ = false

abbrev pub is_unreached : Reachability → Bool
is_unreached low = true
is_unreached not_reachable = true
is_unreached _ = false

abbrev pub is_hidden : Reachability → Bool
is_hidden unknown = true
is_hidden r = is_unreached r

value-tests :
    (r : Reachability)
    → (contains (value r) exposed ≡ is_exposed r)
      × (contains (value r) unreached ≡ is_unreached r)
      × (contains (value r) hidden ≡ is_hidden r)
unfolding value
value-tests critical = (refl, refl, refl)
value-tests _ = (refl, refl, refl)

-- The label of the database, if there is one, is that of such a value.
abbrev pub was : (Reachability → Bool) → Option String → Bool
was p none = false
was p (some label) =
    any (λ l. label == value l && p l)
      (critical ∷ high ∷ medium ∷ low ∷ not_reachable ∷ unknown ∷ [])

was-tests :
    (o : Option String) → (is_in o hidden ≡ was is_hidden o) × (is_in o exposed ≡ was is_exposed o)
unfolding value
was-tests none = (refl, refl)
was-tests (some label) = ground arith

-- A row with its new result.
abbrev pub Judged : Type 0
Judged = AffectedRow × ReachabilityResult

-- It was hidden, NOT_REACHABLE, LOW or UNKNOWN, and is exposed, CRITICAL or HIGH.
abbrev pub is_new : Judged → Bool
is_new (row, r) = was is_hidden row.current_reachability && is_exposed r.reachability

-- It was exposed and is NOT_REACHABLE or LOW.
abbrev pub is_removed : Judged → Bool
is_removed (row, r) = was is_exposed row.current_reachability && is_unreached r.reachability

abbrev pub is_same : Judged → Bool
is_same p = not (is_new p) && not (is_removed p)

abbrev pub new_entry : Judged → NewExposure
new_entry (row, r) = record {
  vuln_id = row.vuln_id;
  dep_id = row.dep_id;
  old_reachability = row.current_reachability;
  new_reachability = value r.reachability;
  severity = row.severity;
  externally_reachable = r.externally_reachable;
}

abbrev pub removed_entry : Judged → RemovedExposure
removed_entry (row, r) = record {
  vuln_id = row.vuln_id;
  dep_id = row.dep_id;
  old_reachability = row.current_reachability;
  new_reachability = value r.reachability;
}

abbrev pub same_entry : Judged → Unchanged
same_entry (row, r) = record { vuln_id = row.vuln_id; reachability = value r.reachability }

abbrev pub delta_of : List Judged → Delta
delta_of judged = record {
  new_exposures = map new_entry (select is_new judged);
  removed_exposures = map removed_entry (select is_removed judged);
  unchanged = map same_entry (select is_same judged);
}

abbrev onto : Delta → Delta → Delta
onto d e = record {
  new_exposures = d.new_exposures ++ e.new_exposures;
  removed_exposures = d.removed_exposures ++ e.removed_exposures;
  unchanged = d.unchanged ++ e.unchanged;
}

snoc-append {ℓ} :
    {A : Type ℓ} (xs : List A) (x : A) (ys : List A) → (xs ++ x ∷ []) ++ ys ≡ xs ++ x ∷ ys
snoc-append [] x ys = refl
snoc-append (z ∷ xs) x ys = ap (λ l. z ∷ l) (snoc-append xs x ys)

append-nil {ℓ} : {A : Type ℓ} (xs : List A) → xs ++ [] ≡ xs
append-nil [] = refl
append-nil (x ∷ xs) = ap (λ l. x ∷ l) (append-nil xs)

exclusive : (r : Reachability) → is_exposed r ≡ true → is_unreached r ≡ false
exclusive critical e = refl
exclusive high e = refl
exclusive _ e = ground arith

onto-classify :
    (row : AffectedRow) (r : ReachabilityResult) (judged : List Judged) (d : Delta)
    → onto (classify row r d) (delta_of judged) ≡ onto d (delta_of ((row, r) ∷ judged))
unfolding classify
onto-classify row r judged d =
    let (was_hidden, was_exposed) = was-tests row.current_reachability in
    let (now_exposed, now_unreached, _) = value-tests r.reachability in
    rw (was_hidden, was_exposed, now_exposed, now_unreached)
      (elim (Bool-cases (is_new p)) [
        | inl new ↦
            let gone : is_removed p ≡ false = ground (arith, new, exclusive r.reachability) in
            rw (new, gone) (rw (snoc-append d.new_exposures) refl)
        | inr kept ↦ elim (Bool-cases (is_removed p)) [
          | inl gone ↦ rw (kept, gone) (rw (snoc-append d.removed_exposures) refl)
          | inr same ↦ rw (kept, same) (rw (snoc-append d.unchanged) refl)
        ]
      ])
  where
    p : Judged
    p = (row, r)

module _ {W : Type 0} (graph : Graph W) (unique : SetOrder) (service : String) where
  -- The rows with their new results, in order.
  abbrev pub judge_all : List AffectedRow → Exec W (List Judged)
  judge_all [] = pure []
  judge_all (row ∷ rows) = do
    r ← recompute graph unique service row
    more ← judge_all rows
    pure ((row, r) ∷ more)

  abbrev pub judged_delta : List String → Exec W Delta
  judged_delta ids = if is_empty ids then pure no_delta else (do
    rows ← graph.affected_vulns ids service
    judged ← judge_all rows
    pure (delta_of judged))

  delta_loop-eq :
      (rows : List AffectedRow) (d : Delta) (w : W)
      → delta_loop graph unique service rows d w
        ≡ (judge_all rows >>= λ judged. pure (onto d (delta_of judged))) w
  unfolding delta_loop
  delta_loop-eq [] d w =
      rw (append-nil d.new_exposures, append-nil d.removed_exposures, append-nil d.unchanged) refl
  delta_loop-eq (row ∷ rows) d w =
      by_result (recompute graph unique service row w) λ r. delta_loop-eq rows (classify row r d)
    where
      by_rest :
          (r : ReachabilityResult) (q : Result (List Judged) × W)
          → continue q.0 (λ more. pure (onto (classify row r d) (delta_of more))) q.1 ≡ (
              let m = continue q.0 (λ more. pure ((row, r) ∷ more)) q.1 in
              continue m.0 (λ judged. pure (onto d (delta_of judged))) m.1)
      by_rest r (ok more, v) = ap (λ e. (ok e, v)) (onto-classify row r more d)
      by_rest r (err e, v) = refl

      by_result :
          (p : Result ReachabilityResult × W)
          → ((r : ReachabilityResult) (v : W)
              → delta_loop graph unique service rows (classify row r d) v
                ≡ (judge_all rows >>= λ more. pure (onto (classify row r d) (delta_of more))) v)
          → continue p.0 (λ r. delta_loop graph unique service rows (classify row r d)) p.1 ≡ (
              let m = continue p.0 (λ r. judge_all rows >>= λ more. pure ((row, r) ∷ more)) p.1 in
              continue m.0 (λ judged. pure (onto d (delta_of judged))) m.1)
      by_result (ok r, v) ih = ih r v ∙ by_rest r (judge_all rows v)
      by_result (err e, v) ih = refl

  -- The delta of a pull request is that of the affected rows with their new results, in order: new
  -- exposures are the rows that were NOT_REACHABLE, LOW or UNKNOWN and are CRITICAL or HIGH, removed
  -- ones those that were CRITICAL or HIGH and are NOT_REACHABLE or LOW, unchanged all others, each
  -- with the row's own names and labels. What is raised, and when, is the same too.
  pub compute_pr_security_delta-eq :
      (ids : List String) (w : W)
      → compute_pr_security_delta graph unique service ids w ≡ judged_delta ids w
  unfolding compute_pr_security_delta
  compute_pr_security_delta-eq ids w = elim (Bool-cases (is_empty ids)) [
    | inl e ↦ rw e refl
    | inr e ↦ rw e (by_rows (graph.affected_vulns ids service w))
  ]
    where
      by_rows :
          (p : Result (List AffectedRow) × W)
          → continue p.0 (λ rows. delta_loop graph unique service rows no_delta) p.1
            ≡ continue p.0 (λ rows. judge_all rows >>= λ judged. pure (delta_of judged)) p.1
      by_rows (ok rows, v) = delta_loop-eq rows no_delta v
      by_rows (err e, v) = refl
