-- ===== src/Tests/Ownership.antt =====
-- layer4/ownership_ingester.py, at a small CODEOWNERS file and the lines of one source file.
use live_system_intelligence.Prelude.{
  ℕ, ◌+◌, String, true, none, some, List, [], ◌∷◌, select, ◌==◌, string_eq, ◌≡◌, refl, arith,
}
use live_system_intelligence.Prelude.Dict.{insert, lookup}
use live_system_intelligence.Exec.{ok, pure}
use live_system_intelligence.Exec.Laws.{Returns}
use live_system_intelligence.Ownership.{
  OwnerRule, Sources, parse_codeowners_lines, rule_matches, match_owners, ingest_files,
}
use live_system_intelligence.Ownership.Contributor.{count_emails, dominant}
use live_system_intelligence.Ownership.Winner.{Wins, dominant-Wins}
use live_system_intelligence.Ownership.Match.{
  last_or, Accounts, match_owners-eq-last_or, ingest_files-Accounts,
}

abbrev rules : List OwnerRule
rules =
    record { pattern = "*.py"; owners = "@ann" ∷ "@org/core" ∷ []; team = "@org/core" }
    ∷ record { pattern = "auth/"; owners = "@bob" ∷ []; team = "@bob" }
    ∷ []

parsed :
    parse_codeowners_lines
      ("# owners" ∷ "*.py  @ann @org/core" ∷ "" ∷ "lonely" ∷ " auth/ @bob " ∷ [])
    ≡ rules
unfolding parse_codeowners_lines
parsed = refl

abbrev emails : List String
emails = "ci-bot@x" ∷ "ann@x" ∷ "bob@x" ∷ "ci-bot@x" ∷ "bob@x" ∷ "ci-bot@x" ∷ []

abbrev sources : Sources ℕ
sources = record {
  timing = record { uniform = λ d w. (d, w); sleep = λ d w. w + d };
  exists = λ path w. true;
  lines_of = λ path w. none;
  blame_emails = λ path. pure emails;
  changed_files = λ sha w. none;
  graph_files = λ service. pure ("auth/jwt.py" ∷ []);
  annotate = λ service file team email w. (ok tt, w + 1);
  fnmatch = λ name pattern. pattern == "*.py";
  basename = λ path. path;
  lower = λ s. s;
}

dominant_run : dominant sources.lower emails ≡ some "bob@x"
unfolding dominant count_emails insert lookup
dominant_run = refl

matched :
    match_owners sources "auth/jwt.py" rules
    ≡ some (record { pattern = "auth/"; owners = "@bob" ∷ []; team = "@bob" })
unfolding match_owners rule_matches
matched = refl

match_owners-eq-last_or_example :
    match_owners sources "auth/jwt.py" rules
    ≡ last_or none (select (rule_matches sources "auth/jwt.py") rules)
match_owners-eq-last_or_example = match_owners-eq-last_or sources "auth/jwt.py" rules

ingest_files-Accounts_example :
    Returns
      (Accounts sources ("auth/jwt.py" ∷ []))
      (ingest_files sources "auth" rules ("auth/jwt.py" ∷ []) 0)
ingest_files-Accounts_example = ingest_files-Accounts sources "auth" rules ("auth/jwt.py" ∷ []) 0

dominant-Wins_example : (winner : String) × Wins sources.lower emails 1 winner
dominant-Wins_example = dominant-Wins sources.lower emails "ann@x" refl (omega arith)
