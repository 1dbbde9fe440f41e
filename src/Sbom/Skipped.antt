-- ===== src/Sbom/Skipped.antt =====
-- The incremental runs of layer3/sbom_ingester.py.
use mathlib.Core.Path.{subst}
use live_system_intelligence.Prelude.{
  ℕ, String, ◌<>◌, Bool, true, false, not, ◌&&◌, Option, some, [], ◌∷◌, ◌==◌, ==_refl, string_eq,
  ◌≡◌, refl, if◌then◌else◌,
}
use live_system_intelligence.Exec.{ok, pure}
use live_system_intelligence.Exec.Keeps.{Leaves, Leaves-bind, Leaves-then}
use live_system_intelligence.Retry.{with_attempts, with_retry}
use live_system_intelligence.Sbom.{Sources, Outcome, no_changes, ingested}
use live_system_intelligence.Sbom.Components.{parse_cyclonedx}
use live_system_intelligence.Sbom.Ingest.{
  image_digest, last_digest, unchanged, run_syft, ingest_components, archive_sbom, upsert_service,
  ingest_image, unless_known, ingest,
}

module _ {W : Type 0} (sources : Sources W) (service : String) where
  -- The query for the service's digest gives this one, and changes nothing.
  abbrev pub Stored : String → W → Type 0
  Stored digest w = sources.last_digests service w ≡ (ok (some digest ∷ []), w)

  abbrev pub LeavesStored : Outcome → W → Type 0
  LeavesStored (no_changes s d) w = Unit
  LeavesStored (ingested s i d n) w = Stored d w

  -- What is known of the database: after the MERGE of the service's node has returned the node is
  -- there, and where it is there, the query that stores a digest sets it.
  pub record Database (HasNode : W → Type 0) : Type 0 where
    pub merges : (w : W) → Leaves (λ u. HasNode) (upsert_service sources service w)
    pub stores :
        (digest : String) (w : W)
        → HasNode w
        → Leaves (λ u. Stored digest) (sources.set_digest service digest w)

  module _ (HasNode : W → Type 0) (database : Database HasNode) where
    ingest_image-Leaves :
        (image_ref digest : String) (w : W)
        → Leaves LeavesStored (ingest_image sources image_ref service digest w)
    unfolding run_syft ingest_components archive_sbom
    ingest_image-Leaves image_ref digest w =
        Leaves-bind LeavesStored sources.temporary _ w λ tmpdir w1.
          Leaves-bind LeavesStored
            (with_retry sources.timing (with_attempts 3)
              (run_syft sources image_ref (tmpdir <> "/sbom.cyclonedx.json")))
            _ w1
            λ u w2. Leaves-bind LeavesStored (sources.load_components _) _ w2 λ components w3.
              Leaves-bind LeavesStored
                (ingest_components sources service (parse_cyclonedx components)) _ w3
                λ count w4.
                  Leaves-bind LeavesStored (archive_sbom sources service digest _) _ w4 λ key w5.
                    Leaves-then (λ u. HasNode) LeavesStored (upsert_service sources service) _ w5
                      (database.merges w5)
                      λ u w6 node.
                        Leaves-then (λ u. Stored digest) LeavesStored
                          (sources.set_digest service digest) _ w6 (database.stores digest w6 node)
                          λ u v h. h

    unless_known-Leaves :
        (image_ref digest : String) (force : Bool) (last : Option String) (w : W)
        → Leaves LeavesStored (unless_known sources image_ref service force digest last w)
    unless_known-Leaves image_ref digest force last w =
        by_test (unchanged sources last digest && not force)
      where
        by_test :
            (b : Bool)
            → Leaves LeavesStored (
                (if b
                    then pure (no_changes service digest)
                    else ingest_image sources image_ref service digest)
                  w)
        by_test true = tt
        by_test false = ingest_image-Leaves image_ref digest w

    ingest-Leaves :
        (image_ref : String) (force : Bool) (w : W)
        → Leaves LeavesStored (ingest sources image_ref service force w)
    unfolding ingest
    ingest-Leaves image_ref force w =
        Leaves-bind LeavesStored (image_digest sources image_ref) _ w λ digest v.
          Leaves-bind LeavesStored (last_digest sources service) _ v
            λ last u. unless_known-Leaves image_ref digest force last u

    -- Let the service's node be there once its MERGE has returned, and let the query that stores a
    -- digest, where the node is there, set what the query for it then gives. After an ingestion that
    -- returned, where the image still has the digest that was ingested, and it is not empty, a run that
    -- is not forced skips the image, and changes nothing.
    pub ingest-skips :
        (image_ref s i digest : String) (force : Bool) (n : ℕ) (w w' : W)
        → ingest sources image_ref service force w ≡ (ok (ingested s i digest n), w')
        → image_digest sources image_ref w' ≡ (ok digest, w')
        → (digest == "") ≡ false
        → ingest sources image_ref service false w' ≡ (ok (no_changes service digest), w')
    unfolding ingest last_digest
    ingest-skips image_ref s i digest force n w w' ran stable filled =
        rw (stable, stored, filled, ==_refl digest) refl
      where
        stored : Stored digest w'
        stored = subst (Leaves LeavesStored) ran (ingest-Leaves image_ref force w)
