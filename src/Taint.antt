-- ===== src/Taint.antt =====
-- layer4/taint_tracker.py: the flows of personal data within a service. The processes of CodeQL, the
-- temporary files, `int` of a text, and the queries are the record `Sources`; the values of a row are
-- those that the program reads.
pub mod Codeql
pub mod Flows
pub mod Calm
pub mod Within
use live_system_intelligence.Prelude.{ℕ, String, Bool, Option, List}
use live_system_intelligence.Exec.{Result, Exec}
use live_system_intelligence.Process.{Process}

pub record CodeqlFlow : Type 0 where
  pub src_file : String
  pub src_line : ℕ
  pub sink_file : String
  pub sink_line : ℕ
  pub src_expr : String
  pub sink_expr : String

pub record IntraRow : Type 0 where
  pub src_field_id : String
  pub endpoint_id : String

pub record CrossRow : Type 0 where
  pub src_field_id : String
  pub http_call : String

-- The parameters of the query that merges a FLOWS_TO edge.
pub record Edge : Type 0 where
  pub src : String
  pub dst : String
  pub via : String
  pub svc_path : String
  pub regulated : Bool
  pub unregulated : Bool

pub record Sources (W : Type 0) : Type 0 where
  pub run : List String → Exec W Process
  pub temporary : Exec W String
  pub write_text : String → String → Exec W Unit
  pub read_lines : String → Exec W (List String)
  pub parse_int : String → Result ℕ
  pub query_text : String
  pub pii_flows : String → Exec W (List IntraRow)
  pub cross_calls : String → List String → Exec W (List CrossRow)
  pub merge_edge : Edge → Exec W Unit
  pub flag_unregulated : String → Exec W (List ℕ)
  pub scopes_of : String → Exec W (List (Option (List String)))
  pub fields_named : String → String → Exec W (List String)
  pub services_at : String → String → Exec W (List String)
  pub mark_leak : String → Exec W Unit
  pub service_ids : Exec W (List String)

pub record TaintFlow : Type 0 where
  pub src_field_id : String
  pub dst_field_id : Option String
  pub via_endpoint : String
  pub src_service : String
  pub dst_service : Option String
  pub regulated : Bool
  pub unregulated : Bool

pub record Summary : Type 0 where
  pub status : String
  pub service : String
  pub codeql_flows : ℕ
  pub graph_flows_created : ℕ
  pub unregulated_pii_flows : ℕ
