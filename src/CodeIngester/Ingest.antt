-- ===== src/CodeIngester/Ingest.antt =====
-- The ingestion of layer1/code_ingester.py. The listing of a repository is taken before it is parsed.
use live_system_intelligence.Prelude.{
  ℕ, ◌+◌, String, ◌<>◌, Bool, true, false, not, ◌&&◌, Option, none, some, List, [], ◌∷◌, ◌++◌, map,
  any, select, contains, length, ◌==◌, string_eq, if◌then◌else◌,
}
use live_system_intelligence.Prelude.Dict.{Dict, values, lookup, insert}
use live_system_intelligence.Exec.{ok, err, Exec, pure, raise, try_except, ◌>>=◌, ◌>>◌, for_each}
use live_system_intelligence.Retry.{default_policy, with_retry}
use live_system_intelligence.Process.{run_checked}
use live_system_intelligence.Text.{starts_with, strip}
use live_system_intelligence.Neo4j.{upsert_node, upsert_relationship}
use live_system_intelligence.Certificate.Json.{str, num, bool}
use live_system_intelligence.Pii.{Entry}
use live_system_intelligence.Pii.Scan.{skip_dirs, forward_slashes}
use live_system_intelligence.CodeIngester.{
  FunctionNode, CallEdge, ApiEndpointNode, IngestResult, Sources, lang_extensions, Outcome,
  no_changes, ingested,
}
use live_system_intelligence.CodeIngester.Parse.{function_id, endpoint_id, parse_file_regex}

-- `x == y`, of values that may be null.
abbrev pub same_sha : Option String → Option String → Bool
same_sha none none = true
same_sha (some a) (some b) = a == b
same_sha _ _ = false

abbrev pub keep_source : Entry → Option String → List (Entry × String)
keep_source p none = []
keep_source p (some language) = (p, language) ∷ []

-- The files of a supported language, each with it.
unfoldable pub source_files : List Entry → List (Entry × String)
unfolding lookup
source_files [] = []
source_files (p ∷ ps) =
    let rest = source_files ps in
    if p.is_file && not (any (λ part. contains part skip_dirs) p.parts)
    then keep_source p (lookup p.suffix lang_extensions) ++ rest
    else rest

-- What the loop over the files has gathered; of functions with one name, the last.
pub record Parsed : Type 0 where
  pub all_functions : Dict String FunctionNode
  pub all_calls : List CallEdge
  pub all_endpoints : List ApiEndpointNode
  pub file_count : ℕ

unfoldable pub collect : List FunctionNode → Dict String FunctionNode → Dict String FunctionNode
unfolding insert
collect [] d = d
collect (fn ∷ fns) d = collect fns (insert fn.name fn d)

unfoldable pub add_result : IngestResult → Parsed → Parsed
unfolding collect
add_result result parsed = record {
  all_functions = collect result.functions parsed.all_functions;
  all_calls = parsed.all_calls ++ result.calls;
  all_endpoints = parsed.all_endpoints ++ result.endpoints;
  file_count = parsed.file_count + 1;
}

module _ {W : Type 0} (sources : Sources W) where
  unfoldable pub clone_or_update : String → String → Exec W (Unit {0})
  clone_or_update repo_url target_dir w =
      (run_checked sources.run (
            if sources.exists (target_dir <> "/.git") w
            then "git" ∷ "-C" ∷ target_dir ∷ "pull" ∷ "--ff-only" ∷ []
            else "git" ∷ "clone" ∷ "--depth=50" ∷ repo_url ∷ target_dir ∷ [])
          >> pure tt)
        w

  abbrev pub git_diff : String → String → Exec W (Option (List String))
  git_diff repo_dir sha =
      try_except
        (do
          out ← sources.changed_names repo_dir sha
          pure (some (map (λ p. repo_dir <> "/" <> p) (select (λ p. not (strip p == "")) out))))
        (λ e. if e.kind == "CalledProcessError" then pure none else raise e)

  -- No SHA, an empty one, or one that git does not know, stands for all files.
  abbrev pub diff_from : String → Option String → Exec W (Option (List String))
  diff_from repo_dir none = pure none
  diff_from repo_dir (some sha) = if sha == "" then pure none else git_diff repo_dir sha

  unfoldable pub changed_files_since : String → Option String → Exec W (Option (List String))
  changed_files_since repo_dir since_sha = diff_from repo_dir since_sha

  unfoldable pub current_sha : String → Exec W String
  current_sha repo_dir = do
    out ← sources.check_output ("git" ∷ "-C" ∷ repo_dir ∷ "rev-parse" ∷ "HEAD" ∷ [])
    pure (strip out)

  abbrev pub candidates : String → Option (List String) → W → List Entry
  candidates repo_dir none w = sources.rglob repo_dir w
  candidates repo_dir (some files) w = map (λ p. sources.entry_of p w) files

  abbrev pub add_file : String → Entry × String → Option String → Parsed → Parsed
  add_file service (p, language) none parsed = parsed
  add_file service (p, language) (some source) parsed =
      add_result
        (parse_file_regex sources.syntax source language (forward_slashes p.relative) service)
        parsed

  -- A file that cannot be read is passed over.
  unfoldable pub parse_files : String → W → List (Entry × String) → Parsed → Parsed
  unfolding add_result parse_file_regex forward_slashes
  parse_files service w [] parsed = parsed
  parse_files service w (p ∷ ps) parsed =
      parse_files service w ps (add_file service p (sources.read_text p.0.path w) parsed)

  unfoldable pub upsert_function : FunctionNode → Exec W Unit
  unfolding upsert_node function_id
  upsert_function fn =
      upsert_node sources.run_query "Function" (("id", str (function_id sources.syntax fn)) ∷ []) (
        ("name", str fn.name)
        ∷ ("file", str fn.file)
        ∷ ("line", num fn.line)
        ∷ ("language", str fn.language)
        ∷ ("service", str fn.service)
        ∷ [])

  abbrev pub handler_id : ApiEndpointNode → String
  handler_id ep =
      ep.service
      <> ":"
      <> ep.handler_file
      <> ":"
      <> ep.handler_name
      <> ":"
      <> sources.syntax.show ep.handler_line

  unfoldable pub upsert_endpoint : ApiEndpointNode → Exec W Unit
  unfolding upsert_node upsert_relationship endpoint_id
  upsert_endpoint ep = do
    upsert_node sources.run_query "APIEndpoint" (("id", str (endpoint_id sources.syntax ep)) ∷ []) (
        ("path", str ep.path)
        ∷ ("method", str ep.method)
        ∷ ("service", str ep.service)
        ∷ ("authenticated", bool ep.authenticated)
        ∷ [])
    upsert_relationship sources.run_query "APIEndpoint"
        (("id", str (endpoint_id sources.syntax ep)) ∷ []) "HANDLED_BY" [] "Function"
        (("id", str (handler_id ep)) ∷ [])

  abbrev pub call_to : CallEdge → Option FunctionNode → Exec W Unit
  call_to edge none = pure tt
  call_to edge (some callee_fn) =
      upsert_relationship sources.run_query "Function" (("id", str edge.caller_id) ∷ []) "CALLS" []
        "Function" (("id", str (function_id sources.syntax callee_fn)) ∷ [])

  unfoldable pub resolve_and_upsert_calls :
      List CallEdge → Dict String FunctionNode → Exec W (List Unit)
  unfolding upsert_relationship function_id lookup
  resolve_and_upsert_calls calls all_functions =
      for_each (λ edge. call_to edge (lookup edge.callee_name all_functions)) calls

  abbrev pub missing_handler : ApiEndpointNode → Option FunctionNode → Exec W Unit
  missing_handler ep (some fn) = pure tt
  missing_handler ep none =
      upsert_node sources.run_query "Function" (("id", str (handler_id ep)) ∷ []) (
        ("name", str ep.handler_name)
        ∷ ("file", str ep.handler_file)
        ∷ ("line", num ep.handler_line)
        ∷ ("language", str "unknown")
        ∷ ("service", str ep.service)
        ∷ [])

  -- The body of the loop over the endpoints: the handler's node is made only for a name that is new.
  unfoldable pub write_endpoint : Dict String FunctionNode → ApiEndpointNode → Exec W Unit
  unfolding upsert_endpoint upsert_node lookup
  write_endpoint all_functions ep = do
    missing_handler ep (lookup ep.handler_name all_functions)
    upsert_endpoint ep

  abbrev pub save_sha : String → Option String → Exec W (Unit {0})
  save_sha service none = pure tt
  save_sha service (some sha) =
      if sha == "" then pure tt else sources.write_state service sha >> pure tt

  -- The part that writes to Neo4j.
  unfoldable pub write_parsed : String → Option String → Parsed → Exec W Outcome
  unfolding upsert_function write_endpoint resolve_and_upsert_calls
  write_parsed service sha parsed = do
    for_each upsert_function (values parsed.all_functions)
    for_each (write_endpoint parsed.all_functions) parsed.all_endpoints
    resolve_and_upsert_calls parsed.all_calls parsed.all_functions
    save_sha service sha
    pure (
        ingested service sha parsed.file_count (length parsed.all_functions)
          (length parsed.all_endpoints) (length parsed.all_calls))

  abbrev pub nothing_parsed : Parsed
  nothing_parsed = record { all_functions = []; all_calls = []; all_endpoints = []; file_count = 0 }

  unfoldable pub ingest_changed :
      String → String → String → Option String → Option (List String) → Exec W Outcome
  unfolding upsert_node source_files parse_files write_parsed
  ingest_changed repo service repo_dir sha changed_files = do
    upsert_node sources.run_query "Service" (("id", str service) ∷ [])
        (("name", str service) ∷ ("repo_url", str repo) ∷ [])
    λ w.
        write_parsed service sha
          (parse_files service w (source_files (candidates repo_dir changed_files w))
            nothing_parsed)
          w

  abbrev pub resolve_local : String → Exec W String
  resolve_local repo w = if sources.exists repo w then (ok repo, w) else (
    err (record { kind = "FileNotFoundError"; message = "Repo path does not exist: " <> repo }),
    w,
  )

  abbrev pub clone_to : String → String → Exec W String
  clone_to repo repo_dir =
      with_retry sources.timing default_policy (clone_or_update repo repo_dir) >> pure repo_dir

  abbrev pub dir_or : String → Option String → String
  dir_or default none = default
  dir_or default (some dir) = dir

  -- The directory of the repository, which is cloned from an address.
  unfoldable pub resolve_repo : String → String → Option String → Exec W String
  unfolding clone_or_update with_retry
  resolve_repo repo service work_dir w =
      if starts_with "http" repo
      then clone_to repo (dir_or (sources.repo_base w <> "/" <> service) work_dir) w
      else resolve_local repo w

  abbrev pub state_or_empty : Option (Option String) → Option String
  state_or_empty none = none
  state_or_empty (some last_sha) = last_sha

  -- `state.get("last_sha")`
  unfoldable pub last_sha_of : String → Bool → Exec W (Option String)
  last_sha_of service true = pure none
  last_sha_of service false = do state ← sources.read_state service; pure (state_or_empty state)

  -- A directory that is no clone has no SHA.
  unfoldable pub sha_of : String → Exec W (Option String)
  unfolding current_sha
  sha_of repo_dir w =
      (if sources.exists (repo_dir <> "/.git") w
          then (do sha ← current_sha repo_dir; pure (some sha))
          else pure none)
        w

  unfoldable pub ingest_at : String → String → Bool → String → Exec W Outcome
  unfolding last_sha_of sha_of changed_files_since ingest_changed
  ingest_at repo service force_full repo_dir = do
    last_sha ← last_sha_of service force_full
    sha ← sha_of repo_dir
    if same_sha last_sha sha && not force_full then pure (no_changes sha) else (do
      changed_files ← if not force_full then changed_files_since repo_dir last_sha else pure none
      ingest_changed repo service repo_dir sha changed_files)

  unfoldable pub ingest : String → String → Option String → Bool → Exec W Outcome
  unfolding resolve_repo ingest_at
  ingest repo service work_dir force_full =
      resolve_repo repo service work_dir >>= ingest_at repo service force_full
