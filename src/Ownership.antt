-- ===== src/Ownership.antt =====
-- layer4/ownership_ingester.py: the rules of CODEOWNERS, the contributor of a file, and the
-- annotation of a service. The file system, `git`, `fnmatch`, `Path.name` and the queries are the
-- record `Sources`.
pub mod Contributor
pub mod Match
pub mod Dominant
pub mod Winner
use live_system_intelligence.Prelude.{
  ℕ, ◌+◌, String, ◌<>◌, Bool, true, false, not, ◌&&◌, ◌||◌, Option, none, some, List, [], ◌∷◌,
  contains, select, length, is_empty, ◌==◌, string_eq, if◌then◌else◌,
}
use live_system_intelligence.Exec.{Error, ok, err, Exec, pure, raise, ◌>>=◌, ◌>>◌}
use live_system_intelligence.Retry.{Timing, with_attempts, with_retry}
use live_system_intelligence.Text.{starts_with, occurs, strip, words, split_at, right_strip}
use live_system_intelligence.Ownership.Contributor.{dominant}

pub record OwnerRule : Type 0 where
  pub pattern : String
  pub owners : List String
  pub team : String

pub record Sources (W : Type 0) : Type 0 where
  pub timing : Timing W
  pub exists : String → W → Bool
  pub lines_of : String → W → Option (List String)
  pub blame_emails : String → Exec W (List String)
  pub changed_files : String → W → Option (List String)
  pub graph_files : String → Exec W (List String)
  pub annotate : String → String → String → String → Exec W Unit
  pub fnmatch : String → String → Bool
  pub basename : String → String
  pub lower : String → String

pub record Summary : Type 0 where
  pub status : String
  pub service : String
  pub files_annotated : ℕ
  pub files_without_owner : ℕ
  pub codeowners_rules : ℕ

abbrev pub is_team : String → Bool
is_team owner = occurs "/" owner

-- The first team among the owners, or else the first owner.
abbrev pub first_team : String → List String → String
first_team default [] = default
first_team default (owner ∷ owners) = if is_team owner then owner else first_team default owners

abbrev pub rule_of_words : List String → List OwnerRule → List OwnerRule
rule_of_words (pattern ∷ owner ∷ owners) rules =
    record { pattern = pattern; owners = owner ∷ owners; team = first_team owner (owner ∷ owners) }
    ∷ rules
rule_of_words _ rules = rules

-- `_parse_codeowners_file`, of the lines of a file.
unfoldable pub parse_codeowners_lines : List String → List OwnerRule
parse_codeowners_lines [] = []
parse_codeowners_lines (line ∷ lines) =
    let rules = parse_codeowners_lines lines in
    let text = strip line in
    if text == "" || starts_with "#" text then rules else rule_of_words (words text) rules

-- `s[1:] if s.startswith("/") else s`
abbrev pub without_root : String → String
without_root String.[] = ""
without_root (String.◌∷◌ c s) = if starts_with "/" (String.◌∷◌ c "") then s else String.◌∷◌ c s

-- `s.rstrip("/")`
abbrev pub strip_slashes : String → String
strip_slashes String.[] = ""
strip_slashes (String.◌∷◌ c s) =
    let rest = strip_slashes s in
    if rest == "" && starts_with "/" (String.◌∷◌ c "") then "" else String.◌∷◌ c rest

-- `s.endswith("/")`
abbrev pub ends_with_slash : String → Bool
ends_with_slash String.[] = false
ends_with_slash (String.◌∷◌ c String.[]) = starts_with "/" (String.◌∷◌ c "")
ends_with_slash (String.◌∷◌ c (String.◌∷◌ d s)) = ends_with_slash (String.◌∷◌ d s)

module _ {W : Type 0} (sources : Sources W) where
  -- The test of one rule.
  unfoldable pub rule_matches : String → OwnerRule → Bool
  rule_matches file_path rule =
      let pattern = without_root rule.pattern in
      sources.fnmatch file_path pattern
      || sources.fnmatch file_path ("**/" <> pattern)
      || (ends_with_slash pattern && starts_with (strip_slashes pattern) file_path)
      || (not (occurs "/" pattern) && sources.fnmatch (sources.basename file_path) pattern)

  -- The loop of `match_owners`, from what was matched so far.
  abbrev pub match_from : String → Option OwnerRule → List OwnerRule → Option OwnerRule
  match_from file_path matched [] = matched
  match_from file_path matched (rule ∷ rules) =
      match_from file_path (if rule_matches file_path rule then some rule else matched) rules

  unfoldable pub match_owners : String → List OwnerRule → Option OwnerRule
  unfolding rule_matches
  match_owners file_path rules = match_from file_path none rules

  abbrev pub first_lines : List String → W → List OwnerRule
  first_lines [] w = []
  first_lines (path ∷ paths) w = elim (sources.lines_of path w) [
    | some lines ↦ parse_codeowners_lines lines
    | none ↦ first_lines paths w
  ]

  -- `parse_codeowners`: the first of the three places that exists.
  unfoldable pub parse_codeowners : String → W → List OwnerRule
  unfolding parse_codeowners_lines
  parse_codeowners repo w =
      first_lines
        ((repo <> "/CODEOWNERS")
          ∷ (repo <> "/.github/CODEOWNERS")
          ∷ (repo <> "/docs/CODEOWNERS")
          ∷ [])
        w

  unfoldable pub dominant_contributor : String → Exec W (Option String)
  unfolding dominant
  dominant_contributor file_path = do
    emails ← sources.blame_emails file_path
    pure (dominant sources.lower emails)

  abbrev pub team_of : Option OwnerRule → String
  team_of none = ""
  team_of (some rule) = rule.team

  abbrev pub or_empty : Option String → String
  or_empty none = ""
  or_empty (some s) = s

  -- One file: its counters are of files annotated and of files without an owner.
  unfoldable pub annotate_file : String → List OwnerRule → ℕ × ℕ → String → Exec W (ℕ × ℕ)
  unfolding match_owners dominant_contributor with_retry
  annotate_file service rules (annotated, no_owner) file_path = do
    let owner_team = team_of (match_owners file_path rules)
    email ← with_retry sources.timing (with_attempts 2) (dominant_contributor file_path)
    if owner_team == "" && or_empty email == "" then pure (annotated, no_owner + 1) else (do
      sources.annotate service file_path owner_team (or_empty email)
      pure (annotated + 1, no_owner))

  unfoldable pub annotate_files : String → List OwnerRule → List String → ℕ × ℕ → Exec W (ℕ × ℕ)
  unfolding annotate_file
  annotate_files service rules [] counts = pure counts
  annotate_files service rules (file_path ∷ files) counts = do
    counts' ← annotate_file service rules counts file_path
    annotate_files service rules files counts'

  -- The files to process: all of them, or those changed since a commit, where `git` knows it.
  abbrev pub only_changed : Option (List String) → List String → List String
  only_changed none files = files
  only_changed (some changed) files = select (λ f. contains f changed) files

  abbrev pub changed_since : Option String → W → Option (List String)
  changed_since none w = none
  changed_since (some sha) w = if sha == "" then none else sources.changed_files sha w

  unfoldable pub ingest_files : String → List OwnerRule → List String → Exec W Summary
  unfolding annotate_files
  ingest_files service rules files = do
    (annotated, no_owner) ← annotate_files service rules files (0, 0)
    pure (record {
      status = "ok";
      service = service;
      files_annotated = annotated;
      files_without_owner = no_owner;
      codeowners_rules = length rules;
    })

  -- The counts are 0 where the code's dict has none, for a service without files.
  abbrev pub no_files : String → Summary
  no_files service = record {
    status = "no_files";
    service = service;
    files_annotated = 0;
    files_without_owner = 0;
    codeowners_rules = 0;
  }

  -- The rest of `ingest`, over the files that the graph lists.
  unfoldable pub ingest_listed :
      List OwnerRule → String → Option String → List String → Exec W Summary
  unfolding ingest_files
  ingest_listed rules service since_sha files w =
      if is_empty files
      then (ok (no_files service), w)
      else ingest_files service rules (only_changed (changed_since since_sha w) files) w

  unfoldable pub ingest : String → String → Option String → Exec W Summary
  unfolding ingest_listed parse_codeowners
  ingest repo service since_sha w =
      if sources.exists repo w
      then (sources.graph_files service
            >>= ingest_listed (parse_codeowners repo w) service since_sha)
          w
      else (
        err (record { kind = "FileNotFoundError"; message = "Repo path not found: " <> repo }),
        w,
      )
