-- ===== src/Taint/Codeql.antt =====
-- CodeQL's run in layer4/taint_tracker.py, and its results as CSV.
use live_system_intelligence.Prelude.{
  ℕ, String, ◌<>◌, Bool, not, List, [], ◌∷◌, ◌++◌, map, ◌==◌, string_eq, nat_beq, if◌then◌else◌,
}
use live_system_intelligence.Exec.{Result, ok, Exec, pure, lift, ◌>>=◌, ◌>>◌}
use live_system_intelligence.Text.{split, strip_of}
use live_system_intelligence.Process.{run_checked, available}
use live_system_intelligence.Taint.{CodeqlFlow, Sources}

module _ {W : Type 0} (sources : Sources W) where
  unfoldable pub codeql_available : Exec W Bool
  unfolding available
  codeql_available = available sources.run ("codeql" ∷ "version" ∷ [])

  -- `int(part or 0)`
  abbrev pub int_or_zero : String → Result ℕ
  int_or_zero part = if part == "" then ok 0 else sources.parse_int part

  abbrev pub flow_of_parts : List String → Exec W (List CodeqlFlow)
  flow_of_parts (src_file ∷ src_line ∷ sink_file ∷ sink_line ∷ src_expr ∷ sink_expr ∷ more) = do
    src ← lift (int_or_zero src_line)
    sink ← lift (int_or_zero sink_line)
    pure (
        record {
          src_file = src_file;
          src_line = src;
          sink_file = sink_file;
          sink_line = sink;
          src_expr = src_expr;
          sink_expr = sink_expr;
        }
        ∷ [])
  flow_of_parts _ = pure []

  -- The rows that have six parts or more.
  unfoldable pub parse_rows : List String → Exec W (List CodeqlFlow)
  parse_rows [] = pure []
  parse_rows (line ∷ lines) = do
    flows ← flow_of_parts (map (strip_of 34) (split 44 line))
    more ← parse_rows lines
    pure (flows ++ more)

  abbrev pub rest_of : List String → List String
  rest_of [] = []
  rest_of (header ∷ lines) = lines

  abbrev pub decode : String → Exec W (List CodeqlFlow)
  decode tmpdir = do
    run_checked sources.run (
        "codeql"
        ∷ "bqrs"
        ∷ "decode"
        ∷ "--format=csv"
        ∷ ("--output=" <> tmpdir <> "/results.csv")
        ∷ (tmpdir <> "/results.bqrs")
        ∷ [])
    lines ← sources.read_lines (tmpdir <> "/results.csv")
    parse_rows (rest_of lines)

  abbrev pub query : String → Exec W (List CodeqlFlow)
  query tmpdir = do
    result ← sources.run (
        "codeql"
        ∷ "query"
        ∷ "run"
        ∷ (tmpdir <> "/pii_taint.ql")
        ∷ ("--database=" <> tmpdir <> "/codeql-db")
        ∷ ("--output=" <> tmpdir <> "/results.bqrs")
        ∷ [])
    if not (nat_beq result.returncode 0) then pure [] else decode tmpdir

  -- The `with` block over a temporary directory.
  abbrev pub in_directory : String → String → Exec W (List CodeqlFlow)
  in_directory repo_dir tmpdir = do
    sources.write_text (tmpdir <> "/pii_taint.ql") sources.query_text
    result ← sources.run (
        "codeql"
        ∷ "database"
        ∷ "create"
        ∷ (tmpdir <> "/codeql-db")
        ∷ "--language=python"
        ∷ ("--source-root=" <> repo_dir)
        ∷ "--overwrite"
        ∷ [])
    if not (nat_beq result.returncode 0) then pure [] else query tmpdir

  unfoldable pub run_codeql_python : String → Exec W (List CodeqlFlow)
  unfolding codeql_available parse_rows
  run_codeql_python repo_dir = do
    available ← codeql_available
    if not available then pure [] else sources.temporary >>= in_directory repo_dir
