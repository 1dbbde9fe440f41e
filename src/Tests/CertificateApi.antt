-- ===== src/Tests/CertificateApi.antt =====
-- layer6/certificate_api.py, over a database that holds the node merged last, and layer1/neo4j_client.py.
use live_system_intelligence.Prelude.{
  ℕ, String, Bool, false, Option, none, some, List, [], ◌∷◌, ap, ◌==◌, ==_refl, string_eq,
  if◌then◌else◌, ◌≡◌, refl,
}
use live_system_intelligence.Prelude.Dict.{Dict, lookup, insert, update}
use live_system_intelligence.Exec.{ok}
use live_system_intelligence.Neo4j.{upsert_node, upsert_params, upsert_cypher}
use live_system_intelligence.Certificate.Json.{Json, str}
use live_system_intelligence.Certificate.Narrative.{join}
use live_system_intelligence.CertificateApi.{Property, plain, text, Archive, generate}
use live_system_intelligence.CertificateApi.Retrieved.{
  IsArchive, IsRetrieved, ReturnsAt, generate-IsRetrieved,
}
use live_system_intelligence.Tests.Certificate.{services_over}
use live_system_intelligence.Tests.Certificate.Signing.{crypto-IsSound}

abbrev Text : Type 0
Text = Dict String Json

abbrev Node : Type 0
Node = Dict String (Property Text)

abbrev has_id : String → Option (Property Text) → Bool
has_id id (some (plain (str s))) = id == s
has_id id _ = false

abbrev payload_of : Option (Property Text) → Option Text
payload_of (some (text t)) = some t
payload_of _ = none

abbrev rows : String → Option Node → List (Option Text)
rows id none = []
rows id (some node) =
    if has_id id (lookup "id" node) then payload_of (lookup "payload" node) ∷ [] else []

abbrev archive : Archive (Option Node) Text
archive = record {
  run_query = λ cypher params w. (ok tt, some params);
  payloads = λ id w. (ok (rows id w), w);
  latest_payloads = λ pr_id w. (ok [], w);
  dumps = λ d. d;
  loads = λ t. some t;
  is_blank = λ t. false;
}

archive-IsArchive : IsArchive services_over archive
unfolding upsert_node upsert_params update insert lookup
archive-IsArchive = record {
  finds = λ cert w w' merged. rw (← ap (λ r. r.1) merged) (rw (==_refl cert.certificate_id) refl);
  reads = λ d. refl;
  nonempty = λ d. refl;
}

generate-IsRetrieved_example :
    ReturnsAt services_over archive archive-IsArchive
      (IsRetrieved services_over archive archive-IsArchive "PR-7" "auth")
      (generate services_over archive "PR-7" ("auth/jwt.py" ∷ []) "auth" none)
generate-IsRetrieved_example =
    generate-IsRetrieved services_over archive archive-IsArchive "PR-7" "auth" ("auth/jwt.py" ∷ [])
      none crypto-IsSound

abbrev ids : Dict String ℕ
ids = ("id", 1) ∷ []

abbrev extras : Dict String ℕ
extras = ("service", 2) ∷ ("payload", 3) ∷ []

cypher_run :
    upsert_cypher "Certificate" ids extras
    ≡ "\n        MERGE (n:Certificate {id: $id})\n        SET n.service = $service, n.payload = $payload\n    "
unfolding upsert_cypher join
cypher_run = refl
