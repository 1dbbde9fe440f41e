-- ===== src/NlQuery.antt =====
-- layer5/nl_to_cypher.py: a question becomes a query, which is run and summed up.
-- Claude's client, the clock, in milliseconds, `json.dumps`, Python's text of a number, the text of
-- the schema, and `run_query` are the record `Services`.
pub mod Validator
pub mod Translate
pub mod Guarded
pub mod Answered
use live_system_intelligence.Prelude.{ℕ, String, ◌<>◌, Bool, true, false, Option, none, some, List}
use live_system_intelligence.Prelude.Dict.{Dict}
use live_system_intelligence.Exec.{Error, Exec}
use live_system_intelligence.Retry.{Timing}
use live_system_intelligence.Certificate.Json.{Json}

-- `messages.create`: the system prompt, the parts of the user's message, and the limit of tokens.
pub record Request : Type 0 where
  pub system : String
  pub content : List String
  pub max_tokens : ℕ

-- The number of tokens read from the cache, an attribute of the usage.
pub data CacheRead : Type 0 where
  absent : CacheRead
  null : CacheRead
  tokens : ℕ → CacheRead

-- An answer: the texts of its blocks, and its usage.
pub record Response : Type 0 where
  pub texts : List String
  pub cache_read : CacheRead

abbrev pub Row : Type 0
Row = Dict String Json

pub record Services (W : Type 0) : Type 0 where
  pub wide : ℕ → Bool
  pub timing : Timing W
  pub now : W → ℕ
  pub api_key : W → Option String
  pub create : Request → Exec W Response
  pub run_query : String → Dict String Json → Exec W (List Row)
  pub dumps : List Row → String
  pub show : ℕ → String
  pub schema_context : String

pub record NlQueryResult : Type 0 where
  pub question : String
  pub cypher : String
  pub records : List Row
  pub summary : String
  pub cached : Bool
  pub latency_ms : ℕ
  pub record_count : ℕ
  pub error : Option String

abbrev pub system_prompt : String
system_prompt =
    "You are a Neo4j Cypher query expert for the LSIG (Live System Intelligence Graph) "
    <> "platform. Given a natural language question, generate a single valid read-only Cypher "
    <> "query that answers it using the schema provided. " <> "Rules:\n"
    <> "1. Output ONLY the Cypher query — no explanation, no markdown fences, no comments.\n"
    <> "2. Always filter deprecated nodes: `WHERE n.deprecated_at IS NULL`.\n"
    <> "3. Use LIMIT 50 unless the question explicitly asks for more or all results.\n"
    <> "4. Never use WRITE operations (CREATE, MERGE, SET, DELETE, REMOVE).\n"
    <> "5. Use parameter syntax ($param) for any user-supplied values embedded in the query.\n"
    <> "6. Prefer DISTINCT to avoid duplicates in aggregations.\n"
    <> "7. If the question cannot be answered with the given schema, return: "
    <> "MATCH (n:SchemaVersion) RETURN 'UNSUPPORTED_QUERY' AS error LIMIT 1\n"

abbrev pub summary_system_prompt : String
summary_system_prompt =
    "You are a senior security and engineering analyst. Given a question and its query "
    <> "results from a live code intelligence graph, write a concise 2-3 sentence plain-English "
    <> "summary of the findings. Be direct about risk implications. "
    <> "If results are empty, say so clearly and suggest what that implies."
