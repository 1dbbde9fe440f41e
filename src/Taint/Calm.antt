-- ===== src/Taint/Calm.antt =====
-- That CodeQL's run in layer4/taint_tracker.py leaves the graph alone.
use live_system_intelligence.Prelude.{String, not, List, [], ◌∷◌, string_eq, nat_beq, map}
use live_system_intelligence.Exec.{pure, lift, ◌>>=◌}
use live_system_intelligence.Exec.Keeps.{Keeps, Keeps-bind, Keeps-branch}
use live_system_intelligence.Text.{split, strip_of}
use live_system_intelligence.Process.{run_checked, Keeps-run_checked, Keeps-available}
use live_system_intelligence.Taint.{CodeqlFlow, Sources}
use live_system_intelligence.Taint.Codeql.{
  codeql_available, int_or_zero, flow_of_parts, parse_rows, rest_of, decode, query, in_directory,
  run_codeql_python,
}

module _ {W : Type 0} (sources : Sources W) (P : W → Type 0) where
  -- The processes, the files, the queries that read and the mark of a leak on a field are nothing to
  -- `P`.
  pub record Calm : Type 0 where
    pub run : (command : List String) → Keeps P (sources.run command)
    pub temporary : Keeps P sources.temporary
    pub write_text : (path text : String) → Keeps P (sources.write_text path text)
    pub read_lines : (path : String) → Keeps P (sources.read_lines path)
    pub pii_flows : (service : String) → Keeps P (sources.pii_flows service)
    pub cross_calls :
        (service : String) (patterns : List String) → Keeps P (sources.cross_calls service patterns)
    pub scopes_of : (service : String) → Keeps P (sources.scopes_of service)
    pub mark_leak : (field_id : String) → Keeps P (sources.mark_leak field_id)

  module _ (calm : Calm) where
    pub Keeps-codeql_available : Keeps P (codeql_available sources)
    unfolding codeql_available
    Keeps-codeql_available = Keeps-available sources.run P calm.run ("codeql" ∷ "version" ∷ [])

    Keeps-flow_of_parts : (parts : List String) → Keeps P (flow_of_parts sources parts)
    Keeps-flow_of_parts (a ∷ b ∷ c ∷ d ∷ e ∷ f ∷ more) =
        Keeps-bind P (lift (int_or_zero sources b)) _ (λ w p. p)
          λ src.
            Keeps-bind {B = List CodeqlFlow} P (lift (int_or_zero sources d))
              (λ sink. pure (
                record {
                  src_file = a;
                  src_line = src;
                  sink_file = c;
                  sink_line = sink;
                  src_expr = e;
                  sink_expr = f;
                }
                ∷ []))
              (λ w p. p) λ sink w p. p
    Keeps-flow_of_parts _ = λ w p. p

    Keeps-parse_rows : (lines : List String) → Keeps P (parse_rows sources lines)
    unfolding parse_rows
    Keeps-parse_rows [] = λ w p. p
    Keeps-parse_rows (line ∷ lines) =
        Keeps-bind P (flow_of_parts sources (map (strip_of 34) (split 44 line))) _
          (Keeps-flow_of_parts (map (strip_of 34) (split 44 line)))
          λ flows. Keeps-bind P (parse_rows sources lines) _ (Keeps-parse_rows lines) λ more w p. p

    Keeps-decode : (tmpdir : String) → Keeps P (decode sources tmpdir)
    Keeps-decode tmpdir =
        Keeps-bind P (run_checked sources.run _) _ (Keeps-run_checked sources.run P calm.run _)
          λ process.
            Keeps-bind P (sources.read_lines _) _ (calm.read_lines _)
              λ lines. Keeps-parse_rows (rest_of sources lines)

    Keeps-query : (tmpdir : String) → Keeps P (query sources tmpdir)
    Keeps-query tmpdir = Keeps-bind P (sources.run _) _ (calm.run _) λ result.
        Keeps-branch P (not (nat_beq result.returncode 0)) (pure []) (decode sources tmpdir)
          (λ e w p. p) λ e. Keeps-decode tmpdir

    Keeps-in_directory : (repo_dir tmpdir : String) → Keeps P (in_directory sources repo_dir tmpdir)
    Keeps-in_directory repo_dir tmpdir =
        Keeps-bind P (sources.write_text _ _) _ (calm.write_text _ _) λ u.
          Keeps-bind P (sources.run _) _ (calm.run _) λ result.
            Keeps-branch P (not (nat_beq result.returncode 0)) (pure []) (query sources tmpdir)
              (λ e w p. p) λ e. Keeps-query tmpdir

    pub Keeps-run_codeql_python : (repo_dir : String) → Keeps P (run_codeql_python sources repo_dir)
    unfolding run_codeql_python
    Keeps-run_codeql_python repo_dir =
        Keeps-bind P (codeql_available sources) _ Keeps-codeql_available λ available.
          Keeps-branch P (not available) (pure [])
            (sources.temporary >>= in_directory sources repo_dir) (λ e w p. p)
            λ e.
              Keeps-bind P sources.temporary (in_directory sources repo_dir) calm.temporary
                (Keeps-in_directory repo_dir)
