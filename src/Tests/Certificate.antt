-- ===== src/Tests/Certificate.antt =====
-- layer6/certificate_engine.py, over a database with one changed function, one exploited critical
-- CVE and one affected service; the model is not available.
pub mod Signing
use live_system_intelligence.Prelude.{
  ℕ, ◌+◌, ◌≤◌, String, Bool, true, false, not, ◌&&◌, ◌||◌, Option, none, some, List, [], ◌∷◌, ◌++◌,
  any, is_empty, ◌==◌, string_eq, ◌≡◌, refl, if◌then◌else◌,
}
use live_system_intelligence.Exec.{Error, ok, err, Exec, pure, raise}
use live_system_intelligence.Exec.Laws.{Returns, Succeeds}
use live_system_intelligence.Certificate.{
  FunctionRow, FunctionImpact, VulnRow, FlowRow, BlastRow, BlastRadius, SecurityDelta, no_blast,
  is_critical, security_delta_of, determine_risk_level,
}
use live_system_intelligence.Certificate.Narrative.{
  Writer, type_error, texts, generate_narrative, generate_narrative-null,
}
use live_system_intelligence.Certificate.Risk.{
  rank, rank_of, is_exploited, rank-determine_risk_level, determine_risk_level_mono,
  net_risk-decreased,
}
use live_system_intelligence.Certificate.Engine.{Services, generate_certificate}
use live_system_intelligence.Certificate.Issued.{IsIssued, generate_certificate-IsIssued}
use live_system_intelligence.Certificate.Total.{Answers, IsExpected, generate_certificate-Succeeds}
use live_system_intelligence.Tests.Certificate.Signing.{crypto, crypto-IsSound}

abbrev pub unavailable : Error
unavailable = record { kind = "APIConnectionError"; message = "no route" }

abbrev pub function_row : FunctionRow
function_row = record {
  id = some "f1";
  name = "decode";
  file = "auth/jwt.py";
  owner_team = none;
  owner_email = some "a@example.org";
  callers_count = 3;
  runtime_callers_count = 1;
  is_endpoint_handler = false;
}

abbrev pub vuln_row : VulnRow
vuln_row = record {
  cve_id = some "CVE-1";
  severity = "HIGH";
  reachability = "CRITICAL";
  epss_score = 900;
  in_kev = some true;
}

abbrev pub blast_row : BlastRow
blast_row = record { caller_ids = "f2" ∷ []; endpoint_ids = []; services = some "auth" ∷ none ∷ [] }

abbrev pub services_over : {W : Type 0} → Services W
services_over = record {
  changed_rows = λ files s. pure (function_row ∷ []);
  blast_rows = λ ids. pure [];
  single_hop_rows = λ ids. pure (if is_empty ids then [] else blast_row ∷ []);
  vuln_rows = λ s ids. pure (vuln_row ∷ []);
  flow_rows = λ ids. pure [];
  writer = record {
    timing = record { uniform = λ d w. (d, w); sleep = λ d w. w };
    api_key = some "key";
    ask = λ prompt. raise unavailable;
    show = λ n. "n";
  };
  monotonic_ms = λ w. 5;
  utcnow = λ w. "2024-01-01T00:00:00+00:00";
  unix_time = λ w. 1704067200;
  write_duration = λ pr_id ms. raise unavailable;
  crypto = crypto;
  secret = "secret";
}

abbrev pub services : Services ℕ
services = services_over

generate_certificate-IsIssued_example :
    Returns
      (IsIssued services "PR-42" "auth")
      (generate_certificate services "PR-42" ("auth/jwt.py" ∷ []) "auth" 0)
generate_certificate-IsIssued_example =
    generate_certificate-IsIssued services crypto-IsSound "PR-42" ("auth/jwt.py" ∷ []) "auth" 0

abbrev answers : Answers services
answers = record {
  rows = λ files s. function_row ∷ [];
  blast = λ ids. [];
  hop = λ ids. if is_empty ids then [] else blast_row ∷ [];
  vulns = λ s ids. vuln_row ∷ [];
  flows = λ ids. [];
  gives_rows = λ files s w. refl;
  gives_blast = λ ids w. refl;
  gives_hop = λ ids w. refl;
  gives_vulns = λ s ids w. refl;
  gives_flows = λ ids w. refl;
}

named : texts (some "CVE-1" ∷ []) ≡ ok ("CVE-1" ∷ [])
unfolding texts
named = refl

generate_certificate-Succeeds_example :
    Succeeds
      (IsExpected services answers ("auth/jwt.py" ∷ []) "auth")
      (generate_certificate services "PR-42" ("auth/jwt.py" ∷ []) "auth" 0)
generate_certificate-Succeeds_example =
    generate_certificate-Succeeds services answers ("auth/jwt.py" ∷ []) "auth" "PR-42" 0 named

abbrev pub delta : SecurityDelta
delta = record {
  new_critical_vulns = vuln_row ∷ record vuln_row { cve_id = none } ∷ [];
  resolved_vulns = [];
  pii_flows_added = [];
  pii_flows_removed = [];
  net_risk_change = "INCREASED";
}

determine_risk_level_mono_example :
    rank (determine_risk_level delta no_blast)
    ≤ rank (
        determine_risk_level
          (record delta { new_critical_vulns = vuln_row ∷ delta.new_critical_vulns })
          (record no_blast {
            affected_endpoints = "GET /login" ∷ [];
            affected_services = "auth" ∷ [];
          }))
determine_risk_level_mono_example =
    determine_risk_level_mono delta no_blast (vuln_row ∷ []) [] ("GET /login" ∷ []) ("auth" ∷ [])

abbrev mild : VulnRow
mild = record vuln_row { reachability = "HIGH" }

generate_narrative-null_example :
    generate_narrative services.writer "PR-42" [] no_blast delta "CRITICAL" 7 ≡ (err type_error, 7)
generate_narrative-null_example =
    generate_narrative-null services.writer "PR-42" [] no_blast delta "CRITICAL" 7 refl refl refl
