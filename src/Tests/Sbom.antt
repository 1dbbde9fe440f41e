-- ===== src/Tests/Sbom.antt =====
-- layer3/sbom_ingester.py, at an image of one component that is kept and one without a version.
use live_system_intelligence.Prelude.{
  String, false, Option, none, some, List, [], ◌∷◌, ◌==◌, string_eq, ◌≡◌, refl, if◌then◌else◌,
}
use live_system_intelligence.Prelude.Dict.{lookup}
use live_system_intelligence.Exec.{ok, pure, for_each}
use live_system_intelligence.Retry.{with_retry, retry_loop}
use live_system_intelligence.Process.{available}
use live_system_intelligence.Neo4j.{upsert_node, upsert_cypher}
use live_system_intelligence.Certificate.Json.{Json, str}
use live_system_intelligence.Sbom.{absent, many, entry, other, Item, Sources, no_changes, ingested}
use live_system_intelligence.Sbom.Components.{
  ecosystem_from_purl, cpe_of, licenses_of, parse_cyclonedx,
}
use live_system_intelligence.Sbom.Ingest.{
  run_syft, ingest_components, archive_sbom, image_digest, last_digest, ingest,
}
use live_system_intelligence.Sbom.Ecosystem.{ecosystem_from_purl-lookup}
use live_system_intelligence.Sbom.Skipped.{Database, ingest-skips}

abbrev items : List Item
items =
    record {
      name = "flask";
      version = "2.0";
      purl = "pkg:pypi/flask@2.0";
      cpe = many ("cpe:flask" ∷ []);
      licenses = entry none (some "BSD") ∷ other ∷ entry none none ∷ [];
    }
    ∷ record { name = "x"; version = ""; purl = "pkg:generic/x"; cpe = absent; licenses = [] }
    ∷ []

parsed :
    parse_cyclonedx items
    ≡ record {
      name = "flask";
      version = "2.0";
      ecosystem = "pypi";
      purl = "pkg:pypi/flask@2.0";
      cpe = "cpe:flask";
      licenses = "BSD" ∷ "" ∷ [];
    }
      ∷ []
unfolding parse_cyclonedx ecosystem_from_purl cpe_of licenses_of
parsed = refl

ecosystem_from_purl-lookup_example : ecosystem_from_purl "pkg:golang/x@1" ≡ "go"
unfolding lookup
ecosystem_from_purl-lookup_example =
    ecosystem_from_purl-lookup "pkg:golang/x@1" "pkg:golang" "go" refl refl

abbrev create_service : String
create_service = upsert_cypher {V = Json} "Service" (("id", str "s") ∷ []) (("name", str "s") ∷ [])

-- The outside: the node of the service, if there is one, with its digest.
abbrev Node : Type 0
Node = Option (Option String)

abbrev merged : Node → Node
merged none = some none
merged (some digest) = some digest

abbrev digests : Node → List (Option String)
digests none = []
digests (some digest) = digest ∷ []

-- Without a node, nothing is set.
abbrev with_digest : String → Node → Node
with_digest digest none = none
with_digest digest (some old) = some (some digest)

abbrev sources : Sources Node
sources = record {
  timing = record { uniform = λ d w. (d, w); sleep = λ d w. w };
  run = λ command. pure (record { returncode = 0; stderr = "" });
  check_output = λ command. pure "sha\n";
  sha256_hex = λ s. s;
  today = λ w. "2024-01-01";
  temporary = pure "/tmp/d";
  load_components = λ path. pure items;
  minio = none;
  run_query = λ cypher params w. (ok tt, if cypher == create_service then merged w else w);
  link_dependency = λ service id. pure tt;
  last_digests = λ service w. (ok (digests w), w);
  set_digest = λ service digest w. (ok tt, with_digest digest w);
  show = λ n. "n";
}

abbrev HasNode : Node → Type 0
HasNode w = (digest : Option String) × (w ≡ some digest)

merged-HasNode : (w : Node) → HasNode (merged w)
merged-HasNode none = (none, refl)
merged-HasNode (some digest) = (digest, refl)

database : Database sources "s" HasNode
unfolding upsert_node upsert_cypher
database = record { merges = merged-HasNode; stores = λ digest w (old, e). rw e refl }

first_run :
    ingest sources "img" "s" false none ≡ (ok (ingested "s" "img" "sha" 1), some (some "sha"))
unfolding ingest image_digest last_digest run_syft available with_retry retry_loop parse_cyclonedx
    ingest_components archive_sbom upsert_node upsert_cypher for_each
first_run = refl

same_digest : image_digest sources "img" (some (some "sha")) ≡ (ok "sha", some (some "sha"))
unfolding image_digest
same_digest = refl

ingest-skips_example :
    ingest sources "img" "s" false (some (some "sha"))
    ≡ (ok (no_changes "s" "sha"), some (some "sha"))
ingest-skips_example =
    ingest-skips sources "s" HasNode database "img" "s" "img" "sha" false 1 none (some (some "sha"))
      first_run same_digest refl
