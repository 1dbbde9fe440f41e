-- ===== src/Sbom.antt =====
-- layer3/sbom_ingester.py: the components of a service's image become nodes of the graph. Syft's and
-- docker's processes, the files, JSON, SHA-256, the clock, MinIO and the queries are the record
-- `Sources`.
pub mod Components
pub mod Ingest
pub mod Ecosystem
pub mod Skipped
use live_system_intelligence.Prelude.{ℕ, String, Bool, Option, List}
use live_system_intelligence.Prelude.Dict.{Dict}
use live_system_intelligence.Exec.{Exec}
use live_system_intelligence.Retry.{Timing}
use live_system_intelligence.Process.{Process}
use live_system_intelligence.Certificate.Json.{Json}

-- The CPE of a component in the JSON: nothing, a text, or a list.
pub data Cpe : Type 0 where
  absent : Cpe
  one : String → Cpe
  many : List String → Cpe

-- An entry of the licenses: a dict, with what it has under "id" and "name", or something else.
pub data License : Type 0 where
  entry : Option String → Option String → License
  other : License

-- A component of the JSON; a key that is missing is the empty text, as the code reads it.
pub record Item : Type 0 where
  pub name : String
  pub version : String
  pub purl : String
  pub cpe : Cpe
  pub licenses : List License

pub record Component : Type 0 where
  pub name : String
  pub version : String
  pub ecosystem : String
  pub purl : String
  pub cpe : String
  pub licenses : List String

pub record Minio (W : Type 0) : Type 0 where
  pub bucket_exists : String → Exec W Bool
  pub make_bucket : String → Exec W Unit
  pub fput_object : String → String → String → Exec W Unit

pub record Sources (W : Type 0) : Type 0 where
  pub timing : Timing W
  pub run : List String → Exec W Process
  pub check_output : List String → Exec W String
  pub sha256_hex : String → String
  pub today : W → String
  pub temporary : Exec W String
  pub load_components : String → Exec W (List Item)
  pub minio : Option (Minio W)
  pub run_query : String → Dict String Json → Exec W Unit
  pub link_dependency : String → String → Exec W Unit
  pub last_digests : String → Exec W (List (Option String))
  pub set_digest : String → String → Exec W Unit
  pub show : ℕ → String

-- The summary of a run.
pub data Outcome : Type 0 where
  no_changes : (service digest : String) → Outcome
  ingested : (service image digest : String) → ℕ → Outcome
