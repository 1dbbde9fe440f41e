-- ===== src/Nuclei.antt =====
-- layer3/nuclei_runner.py: the endpoints that Nuclei finds become nodes, linked with those of the code.
-- Nuclei's process, the files, JSON, `urlparse`, SHA-256, the clock and the queries are the record
-- `Sources`; the digits of a path are ASCII.
pub mod Paths
pub mod Scan
pub mod Discovered
pub mod Counted
use live_system_intelligence.Prelude.{ℕ, String, Bool, Option, List}
use live_system_intelligence.Prelude.Dict.{Dict}
use live_system_intelligence.Exec.{Result, Exec}
use live_system_intelligence.Retry.{Timing}
use live_system_intelligence.Process.{Process}
use live_system_intelligence.Certificate.Json.{Json}

-- A line of Nuclei's output; the address is empty where it is missing.
pub record Finding : Type 0 where
  pub template_id : Option String
  pub matched_at : String
  pub severity : Option String

pub record Sources (W : Type 0) : Type 0 where
  pub timing : Timing W
  pub run : List String → Exec W Process
  pub temporary : Exec W String
  pub exists : String → W → Bool
  pub read_lines : String → Exec W (List String)
  pub loads : String → Option Finding
  pub url_path : String → Result String
  pub sha256_hex : String → String
  pub now : W → String
  pub run_query : String → Dict String Json → Exec W Unit
  pub matching_endpoints : String → String → String → Exec W (List String)
  pub link : String → String → Exec W Unit
  pub services : Exec W (List (String × String))

pub record Summary : Type 0 where
  pub status : String
  pub service : String
  pub target_url : String
  pub nuclei_findings : ℕ
  pub paths_discovered : ℕ
  pub external_endpoints_created : ℕ
  pub api_endpoint_links : ℕ
