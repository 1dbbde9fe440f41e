-- ===== src/CodeIngester.antt =====
-- layer1/code_ingester.py: a repository's functions, calls and endpoints become nodes and edges. The
-- regular expressions of the languages, git's processes, the file system, the state file, and the
-- queries are the record `Sources`; `search` of a pattern gives its first group.
pub mod Parse
pub mod Ingest
pub mod Enclosing
pub mod Unversioned
use live_system_intelligence.Prelude.{ℕ, String, ◌<>◌, Bool, Option, List, [], ◌∷◌}
use live_system_intelligence.Prelude.Dict.{Dict}
use live_system_intelligence.Exec.{Exec}
use live_system_intelligence.Retry.{Timing}
use live_system_intelligence.Process.{Process}
use live_system_intelligence.Certificate.Json.{Json}
use live_system_intelligence.Pii.{Entry}

pub record FunctionNode : Type 0 where
  pub name : String
  pub file : String
  pub line : ℕ
  pub language : String
  pub service : String

-- The fields of the callee's place are always null.
pub record CallEdge : Type 0 where
  pub caller_id : String
  pub callee_name : String

pub record ApiEndpointNode : Type 0 where
  pub path : String
  pub method : String
  pub service : String
  pub handler_name : String
  pub handler_file : String
  pub handler_line : ℕ
  pub authenticated : Bool

pub record IngestResult : Type 0 where
  pub functions : List FunctionNode
  pub calls : List CallEdge
  pub endpoints : List ApiEndpointNode

-- A match of a pattern: the whole of it, its start and its groups.
pub record Found : Type 0 where
  pub text : String
  pub start : ℕ
  pub groups : List (Option String)

-- The patterns of a language: what they find in a source.
pub record Patterns : Type 0 where
  pub func_def : String → List Found
  pub call : String → List Found
  pub route : String → List Found
  pub verb : Option (String → Option String)

-- Python's texts, and the patterns.
pub record Syntax : Type 0 where
  pub patterns : String → Patterns
  pub mentions_auth : String → Bool
  pub lower : String → String
  pub upper : String → String
  pub show : ℕ → String

pub record Sources (W : Type 0) : Type 0 where
  pub syntax : Syntax
  pub timing : Timing W
  pub run : List String → Exec W Process
  pub check_output : List String → Exec W String
  pub changed_names : String → String → Exec W (List String)
  pub exists : String → W → Bool
  pub repo_base : W → String
  pub rglob : String → W → List Entry
  pub entry_of : String → W → Entry
  pub read_text : String → W → Option String
  pub read_state : String → Exec W (Option (Option String))
  pub write_state : String → String → Exec W Unit
  pub run_query : String → Dict String Json → Exec W Unit

abbrev pub lang_extensions : Dict String String
lang_extensions =
    (".py", "python")
    ∷ (".js", "javascript")
    ∷ (".jsx", "javascript")
    ∷ (".ts", "typescript")
    ∷ (".tsx", "tsx")
    ∷ (".go", "go")
    ∷ (".java", "java")
    ∷ (".rb", "ruby")
    ∷ []

abbrev pub noise_words : List String
noise_words =
    "if" ∷ "for" ∷ "while" ∷ "return" ∷ "print" ∷ "len" ∷ "range" ∷ "str" ∷ "int" ∷ "list" ∷ "dict"
    ∷ "set" ∷ "type" ∷ "isinstance" ∷ "super" ∷ "self" ∷ "cls" ∷ "require" ∷ "module" ∷ "exports"
    ∷ "console" ∷ "process" ∷ "object" ∷ "array" ∷ "string" ∷ "number" ∷ "boolean" ∷ "undefined"
    ∷ "null" ∷ "true" ∷ "false" ∷ "new" ∷ "delete" ∷ "typeof" ∷ "instanceof" ∷ "import" ∷ "export"
    ∷ "from" ∷ "const" ∷ "let" ∷ "var" ∷ "function" ∷ "class" ∷ "extends" ∷ "implements" ∷ "public"
    ∷ "private" ∷ "protected" ∷ "static" ∷ "void" ∷ "this" ∷ "throw" ∷ "try" ∷ "catch" ∷ "finally"
    ∷ "switch" ∷ "case" ∷ "break" ∷ "continue" ∷ "async" ∷ "await" ∷ "yield" ∷ "lambda" ∷ "pass"
    ∷ "raise" ∷ "with" ∷ "as" ∷ "in" ∷ "not" ∷ "and" ∷ "or" ∷ "is" ∷ "None" ∷ "True" ∷ "False" ∷ []

-- The summary of a run.
pub data Outcome : Type 0 where
  no_changes : Option String → Outcome
  ingested : (service : String) → Option String → (files functions endpoints calls : ℕ) → Outcome
