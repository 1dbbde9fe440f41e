-- ===== src/Tests/CodeIngester.antt =====
-- layer1/code_ingester.py, at two functions of one name and at a directory that is no clone.
use live_system_intelligence.Prelude.{
  ℕ, ◌+◌, String, true, false, none, some, List, [], ◌∷◌, ◌==◌, string_eq, ◌≡◌, refl,
}
use live_system_intelligence.Prelude.Dict.{values, insert}
use live_system_intelligence.Exec.{ok, pure}
use live_system_intelligence.CodeIngester.{FunctionNode, Found, Syntax, Sources, no_changes}
use live_system_intelligence.CodeIngester.Parse.{
  sorted_by_line, enclosing_from, handler_after, method_of, functions_of, calls_of, endpoints_of,
  parse_file_regex, function_id,
}
use live_system_intelligence.CodeIngester.Ingest.{collect, ingest}
use live_system_intelligence.CodeIngester.Enclosing.{Encloses, enclosing_from-Encloses}
use live_system_intelligence.CodeIngester.Unversioned.{ingest-unversioned}

abbrev at : String → ℕ → FunctionNode
at name line = record {
  name = name;
  file = "a.py";
  line = line;
  language = "python";
  service = "s";
}

abbrev fns : List FunctionNode
fns = at "late" 9 ∷ at "early" 2 ∷ at "mid" 5 ∷ []

caller : enclosing_from none 7 (sorted_by_line fns) ≡ some (at "mid" 5)
unfolding enclosing_from sorted_by_line
caller = refl

enclosing_from-Encloses_example : Encloses 7 fns (enclosing_from none 7 (sorted_by_line fns))
enclosing_from-Encloses_example = enclosing_from-Encloses 7 fns

-- Of two functions of one name only the last is kept.
one_kept : values (collect (at "f" 1 ∷ at "g" 3 ∷ at "f" 8 ∷ []) []) ≡ at "f" 8 ∷ at "g" 3 ∷ []
unfolding collect insert
one_kept = refl

abbrev found : String → ℕ → Found
found text start = record { text = text; start = start; groups = some text ∷ [] }

-- The source "def f\nf g if\n" and its route "g".
abbrev syntax : Syntax
syntax = record {
  patterns = λ language. record {
    func_def = λ source. found "f" 0 ∷ found "if" 10 ∷ [];
    call = λ source. found "f" 6 ∷ found "g" 8 ∷ found "if" 10 ∷ [];
    route = λ source. found "g" 8 ∷ [];
    verb = some (λ before. some "get");
  };
  mentions_auth = λ s. false;
  lower = λ s. s;
  upper = λ s. s;
  show = λ n. "n";
}

parsed : parse_file_regex syntax "def f\nf g if\n" "python" "a.py" "s" ≡ record {
  functions = at "f" 1 ∷ [];
  calls = record { caller_id = "s:a.py:f:n"; callee_name = "g" } ∷ [];
  endpoints =
      record {
        path = "g";
        method = "get";
        service = "s";
        handler_name = "unknown";
        handler_file = "a.py";
        handler_line = 2;
        authenticated = false;
      }
      ∷ [];
}
unfolding parse_file_regex functions_of calls_of endpoints_of sorted_by_line enclosing_from
    handler_after method_of function_id
parsed = refl

abbrev sources : Sources ℕ
sources = record {
  syntax = syntax;
  timing = record { uniform = λ d w. (d, w); sleep = λ d w. w };
  run = λ command. pure (record { returncode = 0; stderr = "" });
  check_output = λ command. pure "sha";
  changed_names = λ repo sha. pure [];
  exists = λ path w. path == "/src";
  repo_base = λ w. "/tmp";
  rglob = λ repo w. [];
  entry_of =
      λ path w. record { path = path; relative = path; parts = []; suffix = ".py"; is_file = true };
  read_text = λ path w. none;
  read_state = λ service. pure none;
  write_state = λ service sha. pure tt;
  run_query = λ cypher params w. (ok tt, w + 1);
}

ingest-unversioned_example : ingest sources "/src" "s" none false 4 ≡ (ok (no_changes none), 4)
ingest-unversioned_example = ingest-unversioned sources "/src" "s" none 4 refl refl refl refl
