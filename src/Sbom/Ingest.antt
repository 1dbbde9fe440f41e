-- ===== src/Sbom/Ingest.antt =====
-- The ingestion of layer3/sbom_ingester.py.
use live_system_intelligence.Prelude.{
  ℕ, String, ◌<>◌, Bool, false, not, ◌&&◌, Option, none, some, List, [], ◌∷◌, length, nat_beq, ◌==◌,
  string_eq, if◌then◌else◌,
}
use live_system_intelligence.Exec.{
  Error, Exec, pure, raise, gets, try_except, ◌>>=◌, ◌>>◌, for_each,
}
use live_system_intelligence.Retry.{with_attempts, with_retry}
use live_system_intelligence.Process.{Process, available}
use live_system_intelligence.Text.{slice_to, strip}
use live_system_intelligence.Neo4j.{upsert_node}
use live_system_intelligence.Certificate.Json.{str}
use live_system_intelligence.Certificate.Encode.{strings}
use live_system_intelligence.Sbom.{Component, Minio, Sources, Outcome, no_changes, ingested}
use live_system_intelligence.Sbom.Components.{parse_cyclonedx, dep_id}

abbrev pub minio_bucket : String
minio_bucket = "lsig-sboms"

module _ {W : Type 0} (sources : Sources W) where
  abbrev pub upload : Minio W → String → String → Exec W (Option String)
  upload client object_key sbom_path = do
    exists ← client.bucket_exists minio_bucket
    if not exists then client.make_bucket minio_bucket else pure tt
    client.fput_object minio_bucket object_key sbom_path
    pure (some object_key)

  -- A failure leaves no key.
  abbrev pub archive_with : Option (Minio W) → String → String → String → Exec W (Option String)
  archive_with none service image_digest sbom_path = pure none
  archive_with (some client) service image_digest sbom_path =
      try_except
        (upload client (service <> "/" <> image_digest <> "/sbom.cyclonedx.json") sbom_path)
        (λ e. pure none)

  unfoldable pub archive_sbom : String → String → String → Exec W (Option String)
  archive_sbom service image_digest sbom_path =
      archive_with sources.minio service image_digest sbom_path

  abbrev pub syft_missing : Error
  syft_missing = record {
    kind = "RuntimeError";
    message = "syft not found in PATH. Install from https://github.com/anchore/syft";
  }

  abbrev pub syft_failed : Process → Error
  syft_failed result = record {
    kind = "RuntimeError";
    message =
        "Syft failed (exit "
        <> sources.show result.returncode
        <> "): "
        <> slice_to 500 result.stderr;
  }

  unfoldable pub run_syft : String → String → Exec W (Unit {0})
  unfolding available
  run_syft image_ref output_path = do
    installed ← available sources.run ("syft" ∷ "version" ∷ [])
    if not installed then raise syft_missing else (do
      result ←
          sources.run
            ("syft" ∷ image_ref ∷ "--output" ∷ ("cyclonedx-json=" <> output_path) ∷ "--quiet" ∷ [])
      if not (nat_beq result.returncode 0) then raise (syft_failed result) else pure tt)

  abbrev pub upsert_service : String → Exec W Unit
  upsert_service service =
      upsert_node sources.run_query "Service" (("id", str service) ∷ [])
        (("name", str service) ∷ [])

  -- The body of the loop over the components.
  abbrev pub upsert_component : String → Component → Exec W Unit
  upsert_component service comp = do
    upsert_node sources.run_query "Dependency" (("id", str (dep_id service comp)) ∷ []) (
        ("name", str comp.name)
        ∷ ("version", str comp.version)
        ∷ ("ecosystem", str comp.ecosystem)
        ∷ ("purl", str comp.purl)
        ∷ ("cpe", str comp.cpe)
        ∷ ("service", str service)
        ∷ ("licenses", strings comp.licenses)
        ∷ [])
    sources.link_dependency service (dep_id service comp)

  unfoldable pub ingest_components : String → List Component → Exec W ℕ
  ingest_components service components = do
    upsert_service service
    for_each (upsert_component service) components
    pure (length components)

  -- `hashlib.sha256(s).hexdigest()[:16]`
  abbrev pub short_hash : String → String
  short_hash s = slice_to 16 (sources.sha256_hex s)

  abbrev pub repo_digest : String → Exec W (Option String)
  repo_digest image_ref = do
    out ←
        sources.check_output
          ("docker" ∷ "inspect" ∷ "--format={{index .RepoDigests 0}}" ∷ image_ref ∷ [])
    pure (if strip out == "" then none else some (short_hash (strip out)))

  abbrev pub or_daily : String → Option String → Exec W String
  or_daily image_ref (some digest) = pure digest
  or_daily image_ref none = gets (λ w. short_hash (image_ref <> ":" <> sources.today w))

  unfoldable pub image_digest : String → Exec W String
  image_digest image_ref =
      try_except (repo_digest image_ref) (λ e. pure none) >>= or_daily image_ref

  abbrev pub known : List (Option String) → Option String
  known [] = none
  known (none ∷ rows) = none
  known (some d ∷ rows) = if d == "" then none else some d

  unfoldable pub last_digest : String → Exec W (Option String)
  last_digest service = do rows ← sources.last_digests service; pure (known rows)

  -- `last == digest`
  abbrev pub unchanged : Option String → String → Bool
  unchanged none digest = false
  unchanged (some d) digest = d == digest

  -- What is done for a digest that is new, or when it is forced.
  abbrev pub ingest_image : String → String → String → Exec W Outcome
  ingest_image image_ref service digest = do
    tmpdir ← sources.temporary
    let sbom_path = tmpdir <> "/sbom.cyclonedx.json"
    with_retry sources.timing (with_attempts 3) (run_syft image_ref sbom_path)
    components ← sources.load_components sbom_path
    count ← ingest_components service (parse_cyclonedx components)
    archive_sbom service digest sbom_path
    upsert_service service
    sources.set_digest service digest
    pure (ingested service image_ref digest count)

  abbrev pub unless_known : String → String → Bool → String → Option String → Exec W Outcome
  unless_known image_ref service force digest last =
      if unchanged last digest && not force
      then pure (no_changes service digest)
      else ingest_image image_ref service digest

  unfoldable pub ingest : String → String → Bool → Exec W Outcome
  unfolding image_digest last_digest
  ingest image_ref service force = do
    digest ← image_digest image_ref
    last ← last_digest service
    unless_known image_ref service force digest last
