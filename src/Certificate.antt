-- ===== src/Certificate.antt =====
-- layer6/certificate_engine.py: the certificate's data, and the risk that it states. Rows of the
-- graph database are records; a column that Cypher may return as null is an option. An EPSS score
-- is a whole number, in a unit that this code never looks at.
pub mod Json
pub mod Signing
pub mod Risk
pub mod Narrative
pub mod Encode
pub mod Engine
pub mod Issued
pub mod Total
use live_system_intelligence.Prelude.{
  ℕ, ◌+◌, ◌<◌, String, ◌<>◌, Bool, true, false, not, ◌&&◌, ◌||◌, Option, none, some, List, [], ◌∷◌,
  ◌++◌, map, take, select, any, is_empty, length, ltb, ◌==◌, string_eq, if◌then◌else◌, ◌≡◌,
}

pub record FunctionImpact : Type 0 where
  pub function_id : String
  pub function_name : String
  pub file : String
  pub owner_team : String
  pub owner_email : String
  pub callers_count : ℕ
  pub runtime_callers_count : ℕ
  pub is_endpoint_handler : Bool

-- A row of the query for the changed functions.
pub record FunctionRow : Type 0 where
  pub id : Option String
  pub name : String
  pub file : String
  pub owner_team : Option String
  pub owner_email : Option String
  pub callers_count : ℕ
  pub runtime_callers_count : ℕ
  pub is_endpoint_handler : Bool

pub record VulnRow : Type 0 where
  pub cve_id : Option String
  pub severity : String
  pub reachability : String
  pub epss_score : ℕ
  pub in_kev : Option Bool

pub record FlowRow : Type 0 where
  pub source_field : String
  pub pii_type : Option String
  pub dest_field : String
  pub dest_service : String
  pub unregulated : Option Bool

pub record BlastRow : Type 0 where
  pub caller_ids : List String
  pub endpoint_ids : List String
  pub services : List (Option String)

pub record SecurityDelta : Type 0 where
  pub new_critical_vulns : List VulnRow
  pub resolved_vulns : List VulnRow
  pub pii_flows_added : List FlowRow
  pub pii_flows_removed : List FlowRow
  pub net_risk_change : String

pub record BlastRadius : Type 0 where
  pub direct_callers : List String
  pub transitive_callers : List String
  pub affected_endpoints : List String
  pub affected_services : List String

pub record ChangeImpactCertificate : Type 0 where
  pub certificate_id : String
  pub pr_id : String
  pub service : String
  pub generated_at : String
  pub generation_duration_ms : ℕ
  pub changed_functions : List FunctionImpact
  pub blast_radius : BlastRadius
  pub security_delta : SecurityDelta
  pub narrative : String
  pub risk_level : String
  pub signature : String

-- The truth value of an optional flag.
abbrev pub holds : Option Bool → Bool
holds none = false
holds (some b) = b

-- `s or ""`
abbrev pub or_empty : Option String → String
or_empty none = ""
or_empty (some s) = s

-- The strings of a list of optional strings that are neither null nor empty.
abbrev pub truthy : List (Option String) → List String
truthy [] = []
truthy (none ∷ os) = truthy os
truthy (some s ∷ os) = if s == "" then truthy os else s ∷ truthy os

-- The list comprehension over the rows of the changed functions.
abbrev pub function_impact : String → FunctionRow → FunctionImpact
function_impact id r = record {
  function_id = id;
  function_name = r.name;
  file = r.file;
  owner_team = or_empty r.owner_team;
  owner_email = or_empty r.owner_email;
  callers_count = r.callers_count;
  runtime_callers_count = r.runtime_callers_count;
  is_endpoint_handler = r.is_endpoint_handler;
}

abbrev pub with_impact : FunctionRow → Option String → List FunctionImpact → List FunctionImpact
with_impact r none fs = fs
with_impact r (some id) fs = if id == "" then fs else function_impact id r ∷ fs

unfoldable pub function_impacts : List FunctionRow → List FunctionImpact
function_impacts [] = []
function_impacts (r ∷ rs) = with_impact r r.id (function_impacts rs)

abbrev pub no_blast : BlastRadius
no_blast = record {
  direct_callers = [];
  transitive_callers = [];
  affected_endpoints = [];
  affected_services = [];
}

abbrev pub is_critical : VulnRow → Bool
is_critical v = v.reachability == "CRITICAL"

abbrev pub is_unregulated : FlowRow → Bool
is_unregulated p = holds p.unregulated

-- The blast radius of the first row, if there is one.
unfoldable pub blast_of : List BlastRow → BlastRadius
blast_of [] = no_blast
blast_of (r ∷ rs) = record {
  direct_callers = take 20 r.caller_ids;
  transitive_callers = r.caller_ids;
  affected_endpoints = r.endpoint_ids;
  affected_services = truthy r.services;
}

-- The net risk of the rows of the two delta queries.
unfoldable pub net_risk : List VulnRow → List FlowRow → String
net_risk new_vulns pii_flows =
    let critical_count = length (select is_critical new_vulns) in
    let pii_unregulated = length (select is_unregulated pii_flows) in
    if ltb 0 critical_count || ltb 0 pii_unregulated
    then "INCREASED"
    else if is_empty new_vulns && is_empty pii_flows
    then "UNCHANGED"
    else "DECREASED"

unfoldable pub security_delta_of : List VulnRow → List FlowRow → SecurityDelta
unfolding net_risk
security_delta_of new_vulns pii_flows = record {
  new_critical_vulns = new_vulns;
  resolved_vulns = [];
  pii_flows_added = pii_flows;
  pii_flows_removed = [];
  net_risk_change = net_risk new_vulns pii_flows;
}

-- `_determine_risk_level`
unfoldable pub determine_risk_level : SecurityDelta → BlastRadius → String
determine_risk_level delta blast =
    let critical = select is_critical delta.new_critical_vulns in
    let kev = select (λ v. holds v.in_kev) critical in
    if not (is_empty kev)
    then "CRITICAL"
    else if not (is_empty critical)
        || (not (is_empty delta.pii_flows_added) && not (is_empty blast.affected_endpoints))
    then "HIGH"
    else if not (is_empty delta.new_critical_vulns) || not (is_empty delta.pii_flows_added)
    then "MEDIUM"
    else if not (is_empty blast.affected_services)
    then "LOW"
    else "NONE"
