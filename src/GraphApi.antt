-- ===== src/GraphApi.antt =====
-- layer5/graph_api.py: who may ask, and the endpoints that query and search. The environment, the
-- search index, VictoriaMetrics and `round` are the record `Backend`; a handler returns its body, or
-- the body of an error with its status.
pub mod Query
pub mod Search
pub mod Admitted
use live_system_intelligence.Prelude.{
  ℕ, String, Bool, true, false, not, Option, none, some, List, [], ◌∷◌, contains, ◌==◌, string_eq,
  if◌then◌else◌,
}
use live_system_intelligence.Prelude.Dict.{Dict}
use live_system_intelligence.Exec.{Error, Exec, pure, raise, ◌>>=◌}
use live_system_intelligence.Text.{starts_with, slice_from}
use live_system_intelligence.Certificate.Json.{Json}

-- The headers that are read.
pub record Headers : Type 0 where
  pub x_auth_token : Option String
  pub authorization : Option String

pub record Claims : Type 0 where
  pub sub : String
  pub roles : List String

pub record SearchResult : Type 0 where
  pub neo4j_id : String
  pub description : String
  pub certainty : Json
  pub node_type : String

pub record Series : Type 0 where
  pub timestamps : List Json
  pub values : List Json

pub record Backend (W : Type 0) : Type 0 where
  pub auth_disabled : W → Option String
  pub lower : String → String
  pub search : String → String → ℕ → Option String → Exec W (List SearchResult)
  pub search_all : String → ℕ → Exec W (List SearchResult)
  pub enrich : String → List String → Exec W (List (Dict String Json))
  pub round : Json → Json
  pub sync : Option String → Exec W (Dict String ℕ)
  pub call_history : String → String → ℕ → Exec W (Option Series)
  pub certificate_p95 : Exec W Json
  pub false_positive_reduction : Exec W Json
  pub health : Exec W Bool

-- The body of an error.
pub record ErrorBody : Type 0 where
  pub what : String
  pub layer : String
  pub input : String
  pub action : String

pub data Reply (A : Type 0) : Type 0 where
  body : A → Reply A
  error : ℕ → ErrorBody → Reply A

abbrev pub http_exception : String → Error
http_exception detail = record { kind = "HTTPException"; message = detail }

abbrev pub or_blank : Option String → String
or_blank none = ""
or_blank (some s) = s

-- `s.removeprefix("Bearer ")`
abbrev pub without_bearer : String → String
without_bearer s = if starts_with "Bearer " s then slice_from 7 s else s

-- The token of the first header, or else of the second.
unfoldable pub token_of : Headers → String
token_of h =
    if or_blank h.x_auth_token == ""
    then without_bearer (or_blank h.authorization)
    else or_blank h.x_auth_token

abbrev pub dev_user : Claims
dev_user = record { sub = "dev-user"; roles = "admin" ∷ "reader" ∷ [] }

-- Any token is taken for that of a reader.
abbrev pub by_token : String → {W : Type 0} → Exec W Claims
by_token token =
    if token == ""
    then raise (http_exception "Missing X-Auth-Token header")
    else pure (record { sub = "authenticated"; roles = "reader" ∷ [] })

module _ {W : Type 0} (backend : Backend W) where
  abbrev pub is_dev : W → Bool
  is_dev w = backend.lower (or_blank (backend.auth_disabled w)) == "true"

  unfoldable pub require_auth : Headers → Exec W Claims
  unfolding token_of
  require_auth headers w = (if is_dev w then pure dev_user else by_token (token_of headers)) w

  unfoldable pub require_admin : Headers → Exec W Claims
  unfolding require_auth
  require_admin headers = do
    claims ← require_auth headers
    if not (contains "admin" claims.roles)
        then raise (http_exception "Admin role required for raw Cypher queries")
        else pure claims
