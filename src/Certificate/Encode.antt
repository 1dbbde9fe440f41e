-- ===== src/Certificate/Encode.antt =====
-- `dataclasses.asdict` of a certificate.
use live_system_intelligence.Prelude.{
  String, Option, none, some, List, [], ◌∷◌, ◌≡◌, refl, string_eq,
}
use live_system_intelligence.Prelude.Dict.{Dict, insert}
use live_system_intelligence.Certificate.{
  FunctionImpact, VulnRow, FlowRow, BlastRadius, SecurityDelta, ChangeImpactCertificate,
}
use live_system_intelligence.Certificate.Json.{
  Json, null, bool, num, str, arr, obj, Items, nil, cons, end, field,
}

abbrev json_list : {A : Type 0} → (A → Json) → List A → Items
json_list f [] = nil
json_list f (x ∷ xs) = cons (f x) (json_list f xs)

abbrev optional : {A : Type 0} → (A → Json) → Option A → Json
optional f none = null
optional f (some a) = f a

abbrev pub strings : List String → Json
strings ss = arr (json_list str ss)

abbrev impact_json : FunctionImpact → Json
impact_json f = obj (
    field "function_id" (str f.function_id) (
      field "function_name" (str f.function_name) (
        field "file" (str f.file) (
          field "owner_team" (str f.owner_team) (
            field "owner_email" (str f.owner_email) (
              field "callers_count" (num f.callers_count) (
                field "runtime_callers_count" (num f.runtime_callers_count)
                  (field "is_endpoint_handler" (bool f.is_endpoint_handler) end))))))))

abbrev vuln_json : VulnRow → Json
vuln_json v = obj (
    field "cve_id" (optional str v.cve_id) (
      field "severity" (str v.severity) (
        field "reachability" (str v.reachability)
          (field "epss_score" (num v.epss_score) (field "in_kev" (optional bool v.in_kev) end)))))

abbrev flow_json : FlowRow → Json
flow_json p = obj (
    field "source_field" (str p.source_field) (
      field "pii_type" (optional str p.pii_type) (
        field "dest_field" (str p.dest_field) (
          field "dest_service" (str p.dest_service)
            (field "unregulated" (optional bool p.unregulated) end)))))

abbrev blast_json : BlastRadius → Json
blast_json b = obj (
    field "direct_callers" (strings b.direct_callers) (
      field "transitive_callers" (strings b.transitive_callers) (
        field "affected_endpoints" (strings b.affected_endpoints)
          (field "affected_services" (strings b.affected_services) end))))

abbrev delta_json : SecurityDelta → Json
delta_json d = obj (
    field "new_critical_vulns" (arr (json_list vuln_json d.new_critical_vulns)) (
      field "resolved_vulns" (arr (json_list vuln_json d.resolved_vulns)) (
        field "pii_flows_added" (arr (json_list flow_json d.pii_flows_added)) (
          field "pii_flows_removed" (arr (json_list flow_json d.pii_flows_removed))
            (field "net_risk_change" (str d.net_risk_change) end)))))

unfoldable pub asdict : ChangeImpactCertificate → Dict String Json
asdict c =
    ("certificate_id", str c.certificate_id)
    ∷ ("pr_id", str c.pr_id)
    ∷ ("service", str c.service)
    ∷ ("generated_at", str c.generated_at)
    ∷ ("generation_duration_ms", num c.generation_duration_ms)
    ∷ ("changed_functions", arr (json_list impact_json c.changed_functions))
    ∷ ("blast_radius", blast_json c.blast_radius)
    ∷ ("security_delta", delta_json c.security_delta)
    ∷ ("narrative", str c.narrative)
    ∷ ("risk_level", str c.risk_level)
    ∷ ("signature", str c.signature)
    ∷ []

-- Setting the signature of a certificate is setting the entry of its dict.
pub asdict-signature :
    (c : ChangeImpactCertificate) (s : String)
    → asdict (record c { signature = s }) ≡ insert "signature" (str s) (asdict c)
unfolding asdict insert
asdict-signature c s = refl
