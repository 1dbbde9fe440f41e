-- ===== src/CodeIngester/Parse.antt =====
-- `_parse_file_regex` of layer1/code_ingester.py.
use live_system_intelligence.Prelude.{
  ℕ, ◌+◌, ◌-◌, String, ◌<>◌, not, Option, none, some, List, [], ◌∷◌, ◌++◌, leb, contains, is_empty,
  ◌==◌, string_eq, if◌then◌else◌,
}
use live_system_intelligence.Text.{slice_to, slice_from, occurs, count_of, len}
use live_system_intelligence.CodeIngester.{
  FunctionNode, CallEdge, ApiEndpointNode, IngestResult, Found, Syntax, noise_words,
}

-- The first group that is there and not empty.
abbrev pub first_group : List (Option String) → Option String
first_group [] = none
first_group (none ∷ groups) = first_group groups
first_group (some g ∷ groups) = if g == "" then first_group groups else some g

-- `m.group(1)`, where an empty one counts as none.
abbrev pub group_1 : List (Option String) → Option String
group_1 [] = none
group_1 (none ∷ groups) = none
group_1 (some g ∷ groups) = if g == "" then none else some g

-- A name, unless it is a word that is not counted.
abbrev pub unless_noise : Option String → Option String
unless_noise none = none
unless_noise (some name) = if contains name noise_words then none else some name

-- `sorted(fns, key=line)`, which is stable.
abbrev pub insert_by_line : FunctionNode → List FunctionNode → List FunctionNode
insert_by_line fn [] = fn ∷ []
insert_by_line fn (f ∷ fns) = if leb fn.line f.line then fn ∷ f ∷ fns else f ∷ insert_by_line fn fns

unfoldable pub sorted_by_line : List FunctionNode → List FunctionNode
sorted_by_line [] = []
sorted_by_line (fn ∷ fns) = insert_by_line fn (sorted_by_line fns)

-- The loop for the caller, with the one found so far; it stops at the first function past the line.
unfoldable pub enclosing_from : Option FunctionNode → ℕ → List FunctionNode → Option FunctionNode
enclosing_from caller call_line [] = caller
enclosing_from caller call_line (fn ∷ fns) =
    let later = enclosing_from (some fn) call_line fns in
    if leb fn.line call_line then later else caller

-- The first function from the line on.
unfoldable pub handler_after : ℕ → List FunctionNode → Option FunctionNode
handler_after call_line [] = none
handler_after call_line (fn ∷ fns) =
    let later = handler_after call_line fns in if leb call_line fn.line then some fn else later

module _ (syntax : Syntax) where
  unfoldable pub function_id : FunctionNode → String
  function_id fn = fn.service <> ":" <> fn.file <> ":" <> fn.name <> ":" <> syntax.show fn.line

  unfoldable pub endpoint_id : ApiEndpointNode → String
  endpoint_id ep = ep.service <> ":" <> syntax.upper ep.method <> ":" <> ep.path

  module _ (source language file_path service : String) where
    abbrev pub line_of : ℕ → ℕ
    line_of start = count_of "\n" (slice_to start source) + 1

    abbrev pub function_of : Found → Option String → List FunctionNode
    function_of m none = []
    function_of m (some name) =
        record {
          name = name;
          file = file_path;
          line = line_of m.start;
          language = language;
          service = service;
        }
        ∷ []

    unfoldable pub functions_of : List Found → List FunctionNode
    functions_of [] = []
    functions_of (m ∷ ms) = function_of m (unless_noise (first_group m.groups)) ++ functions_of ms

    -- A call within a function, unless it calls a function of its own name.
    abbrev pub call_from : Option FunctionNode → String → List CallEdge
    call_from none callee = []
    call_from (some caller) callee =
        if not (callee == caller.name)
        then record { caller_id = function_id caller; callee_name = callee } ∷ []
        else []

    abbrev pub call_of : List FunctionNode → Found → Option String → List CallEdge
    call_of sorted_fns m none = []
    call_of sorted_fns m (some callee) =
        call_from (enclosing_from none (line_of m.start) sorted_fns) callee

    unfoldable pub calls_of : List FunctionNode → List Found → List CallEdge
    unfolding enclosing_from function_id
    calls_of sorted_fns [] = []
    calls_of sorted_fns (m ∷ ms) =
        call_of sorted_fns m (unless_noise (group_1 m.groups)) ++ calls_of sorted_fns ms

    abbrev pub verb_or_get : Option String → String
    verb_or_get none = "GET"
    verb_or_get (some verb) = syntax.upper verb

    -- The method of a route: the first verb of the source up to its end, where the language has a
    -- pattern of verbs, or else what its own text says.
    unfoldable pub method_of : Option (String → Option String) → Found → String
    method_of (some verb) m = verb_or_get (verb (slice_to (m.start + len m.text) source))
    method_of none m =
        let text = syntax.lower m.text in
        if occurs "post" text
        then "POST"
        else if occurs "put" text
        then "PUT"
        else if occurs "delete" text
        then "DELETE"
        else "GET"

    abbrev pub handler_name_of : Option FunctionNode → String
    handler_name_of none = "unknown"
    handler_name_of (some fn) = fn.name

    abbrev pub handler_line_of : ℕ → Option FunctionNode → ℕ
    handler_line_of call_line none = call_line
    handler_line_of call_line (some fn) = fn.line

    abbrev pub route_path_of : List (Option String) → String
    route_path_of (some path ∷ groups) = path
    route_path_of _ = ""

    abbrev pub endpoint_of :
        Option (String → Option String) → List FunctionNode → Found → ApiEndpointNode
    endpoint_of verb sorted_fns m =
        let handler_fn = handler_after (line_of m.start) sorted_fns in
        record {
          path = route_path_of m.groups;
          method = method_of verb m;
          service = service;
          handler_name = handler_name_of handler_fn;
          handler_file = file_path;
          handler_line = handler_line_of (line_of m.start) handler_fn;
          authenticated =
              syntax.mentions_auth (slice_from (m.start - 200) (slice_to (m.start + 200) source));
        }

    unfoldable pub endpoints_of :
        Option (String → Option String) → List FunctionNode → List Found → List ApiEndpointNode
    unfolding method_of handler_after
    endpoints_of verb sorted_fns [] = []
    endpoints_of verb sorted_fns (m ∷ ms) =
        endpoint_of verb sorted_fns m ∷ endpoints_of verb sorted_fns ms

    unfoldable pub parse_file_regex : IngestResult
    unfolding sorted_by_line functions_of calls_of endpoints_of
    parse_file_regex =
        let patterns = syntax.patterns language in
        let functions = functions_of (patterns.func_def source) in
        let sorted_fns = sorted_by_line functions in
        record {
          functions = functions;
          calls = if is_empty functions then [] else calls_of sorted_fns (patterns.call source);
          endpoints = endpoints_of patterns.verb sorted_fns (patterns.route source);
        }
