-- ===== src/Reachability/Delta.antt =====
-- layer3/reachability.py: `compute_pr_security_delta`, the exposure that a pull request changes.
-- A column of a Cypher row is always there, so a missing label is the null of the database.
use live_system_intelligence.Prelude.{
  String, Bool, false, Option, none, some, List, [], ◌∷◌, ◌++◌, contains, is_empty, if◌then◌else◌,
  ◌&&◌, string_eq,
}
use live_system_intelligence.Exec.{Exec, pure, ◌>>=◌}
use live_system_intelligence.Reachability.{
  value, ReachabilityResult, Graph, SetOrder, AffectedRow, compute_reachability, or_nil, first,
}

pub record NewExposure : Type 0 where
  pub vuln_id : String
  pub dep_id : String
  pub old_reachability : Option String
  pub new_reachability : String
  pub severity : String
  pub externally_reachable : Bool

pub record RemovedExposure : Type 0 where
  pub vuln_id : String
  pub dep_id : String
  pub old_reachability : Option String
  pub new_reachability : String

pub record Unchanged : Type 0 where
  pub vuln_id : String
  pub reachability : String

pub record Delta : Type 0 where
  pub new_exposures : List NewExposure
  pub removed_exposures : List RemovedExposure
  pub unchanged : List Unchanged

abbrev pub no_delta : Delta
no_delta = record { new_exposures = []; removed_exposures = []; unchanged = [] }

-- `label in (…)`, where a null label is in no tuple of strings.
abbrev pub is_in : Option String → List String → Bool
is_in none labels = false
is_in (some label) labels = contains label labels

abbrev pub hidden : List String
hidden = "NOT_REACHABLE" ∷ "LOW" ∷ "UNKNOWN" ∷ []

abbrev pub exposed : List String
exposed = "CRITICAL" ∷ "HIGH" ∷ []

abbrev pub unreached : List String
unreached = "NOT_REACHABLE" ∷ "LOW" ∷ []

-- The three `append` calls of the loop.
abbrev pub append_new : AffectedRow → ReachabilityResult → Delta → Delta
append_new row new_result d = record d {
  new_exposures =
      d.new_exposures
      ++ (record {
        vuln_id = row.vuln_id;
        dep_id = row.dep_id;
        old_reachability = row.current_reachability;
        new_reachability = value new_result.reachability;
        severity = row.severity;
        externally_reachable = new_result.externally_reachable;
      })
        ∷ [];
}

abbrev pub append_removed : AffectedRow → ReachabilityResult → Delta → Delta
append_removed row new_result d = record d {
  removed_exposures =
      d.removed_exposures
      ++ (record {
        vuln_id = row.vuln_id;
        dep_id = row.dep_id;
        old_reachability = row.current_reachability;
        new_reachability = value new_result.reachability;
      })
        ∷ [];
}

abbrev pub append_unchanged : AffectedRow → ReachabilityResult → Delta → Delta
append_unchanged row new_result d = record d {
  unchanged =
      d.unchanged
      ++ (record { vuln_id = row.vuln_id; reachability = value new_result.reachability }) ∷ [];
}

-- The lists of the delta after one row and its new result.
unfoldable pub classify : AffectedRow → ReachabilityResult → Delta → Delta
classify row new_result d =
    let old = row.current_reachability in
    let new_r = value new_result.reachability in
    if is_in old hidden && contains new_r exposed
    then append_new row new_result d
    else if is_in old exposed && contains new_r unreached
    then append_removed row new_result d
    else append_unchanged row new_result d

-- `(rows[0]["f"] or []) if rows else []`
abbrev pub functions_of : Option (Option (List String)) → List String
functions_of none = []
functions_of (some f) = or_nil f

module _ {W : Type 0} (graph : Graph W) (unique : SetOrder) (service : String) where
  unfoldable pub recompute : AffectedRow → Exec W ReachabilityResult
  recompute row = do
    vuln_funcs_rows ← graph.vulnerable_functions row.vuln_id
    compute_reachability graph unique row.vuln_id row.dep_id service
        (functions_of (first vuln_funcs_rows))

  unfoldable pub delta_loop : List AffectedRow → Delta → Exec W Delta
  unfolding recompute classify
  delta_loop [] d = pure d
  delta_loop (row ∷ rows) d = do
    new_result ← recompute row
    delta_loop rows (classify row new_result d)

  unfoldable pub compute_pr_security_delta : List String → Exec W Delta
  unfolding delta_loop
  compute_pr_security_delta changed_function_ids =
      if is_empty changed_function_ids then pure no_delta else (do
        affected_vulns ← graph.affected_vulns changed_function_ids service
        delta_loop affected_vulns no_delta)
