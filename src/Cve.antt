-- ===== src/Cve.antt =====
-- layer3/cve_ingester.py: the data of the CVE ingester, and what it reads and writes. JSON is decoded to
-- the types that OSV, EPSS and CISA document, a missing list to an empty one. An EPSS score is a
-- whole number of 1/100000, a CVSS score of tenths, and a time of seconds.
pub mod Version
pub mod Events
pub mod Enrich
pub mod Ingest
pub mod Ingested
use live_system_intelligence.Prelude.{ℕ, String, Bool, Option, List}
use live_system_intelligence.Prelude.Dict.{Dict}
use live_system_intelligence.Exec.{Exec}
use live_system_intelligence.Retry.{Timing}

-- A range of versions, a dict in which each member may be missing or null.
pub record VersionRange : Type 0 where
  pub introduced : Option String
  pub fixed : Option String
  pub last_affected : Option String

pub record RangeEvent : Type 0 where
  pub introduced : Option String
  pub fixed : Option String
  pub last_affected : Option String

pub record OsvRange : Type 0 where
  pub kind : String
  pub events : List RangeEvent

pub record Affected : Type 0 where
  pub package_name : String
  pub ecosystem : String
  pub versions : List String
  pub ranges : List OsvRange
  pub functions : List String

pub record OsvRecord : Type 0 where
  pub aliases : List String
  pub affected : List Affected
  pub severity_scores : List String
  pub database_severity : String
  pub published : String

pub record VulnerabilityRecord : Type 0 where
  pub osv_id : String
  pub cve_id : Option String
  pub affected_package : String
  pub affected_ecosystem : String
  pub affected_versions : List String
  pub affected_version_ranges : List VersionRange
  pub vulnerable_functions : List String
  pub severity : String
  pub epss_score : ℕ
  pub in_kev : Bool
  pub published_at : ℕ
  pub aliases : List String

pub record Dependency : Type 0 where
  pub id : String
  pub name : String
  pub version : Option String
  pub ecosystem : String

-- The module's two caches, and the outside.
pub record Ingester (W : Type 0) : Type 0 where
  pub epss_cache : Dict String ℕ
  pub kev_set : List String
  pub kev_loaded_at : Option ℕ
  pub world : W

pub record Feeds (W : Type 0) : Type 0 where
  pub timing : Timing W
  pub now : W → ℕ
  pub epss_scores : String → Exec W (List ℕ)
  pub kev_ids : Exec W (List String)
  pub osv_ids : String → String → Option String → Exec W (List String)
  pub osv_detail : String → Exec W OsvRecord
  pub upper : String → String
  pub lower : String → String
  pub read_time : String → Option ℕ
  pub dependencies : String → Exec W (List Dependency)
  pub named_dependencies : String → String → Exec W (List Dependency)
  pub services : Exec W (List String)
  pub upsert_vulnerability : VulnerabilityRecord → Exec W Unit
  pub link_dependency_to_vuln : String → String → String → ℕ → Bool → Exec W Unit
