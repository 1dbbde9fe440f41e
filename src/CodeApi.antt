-- ===== src/CodeApi.antt =====
-- layer1/code_api.py: the endpoints over the code graph and the security of a service that do more
-- than pass on the rows of one query. The queries, the order of a set, `round` of a percentage and
-- `upper` are the record `Queries`.
pub mod Graph
pub mod Security
pub mod Breakdown
use live_system_intelligence.Prelude.{ℕ, String, Option, List}
use live_system_intelligence.Prelude.Dict.{Dict}
use live_system_intelligence.Exec.{Exec, Error}
use live_system_intelligence.Certificate.Json.{Json}

pub record NodeInfo : Type 0 where
  pub id : String
  pub name : String
  pub file : String

-- A path of calls: its nodes, and its edges from one ID to another.
pub record CallPath : Type 0 where
  pub nodes : List NodeInfo
  pub edges : List (String × String)

-- A function that calls, or is called by, those asked for; a missing one has no ID.
pub record Affected : Type 0 where
  pub id : Option String
  pub name : Option String
  pub role : String

pub record VulnNode : Type 0 where
  pub id : String
  pub label : Option String

pub record DependencyNode : Type 0 where
  pub id : String
  pub label : String
  pub reachability : String
  pub vuln_id : String

pub record EndpointNode : Type 0 where
  pub id : String
  pub label : String
  pub method : String
  pub dep_id : String

pub record Queries (W : Type 0) : Type 0 where
  pub call_paths : String → ℕ → Exec W (List CallPath)
  pub set_of : List (String × String) → List (String × String)
  pub affected : List String → Exec W (List (List Affected))
  pub total_calls : List String → Exec W (List ℕ)
  pub global_calls : Exec W (List ℕ)
  pub percent : ℕ → ℕ → Json
  pub upper : String → String
  pub vulns : String → Dict String String → Exec W (List (Dict String Json))
  pub pr_functions : String → Exec W (List (Option (List String)))
  pub vulnerability : String → Exec W (List VulnNode)
  pub dependencies : String → Exec W (List DependencyNode)
  pub endpoints : String → Exec W (List EndpointNode)
  pub pii_flows : String → Exec W (List (Dict String Json))
  pub owner : String → Exec W (List (Dict String Json))

abbrev pub http_exception : String → Error
http_exception detail = record { kind = "HTTPException"; message = detail }
