-- ===== src/CertificateApi/Retrieved.antt =====
-- The certificates that layer6/certificate_api.py stores and gives back.
use live_system_intelligence.Prelude.{
  String, true, false, some, List, [], ◌∷◌, string_eq, ◌≡◌, refl,
}
use live_system_intelligence.Prelude.Dict.{Dict, lookup}
use live_system_intelligence.Exec.{Error, Result, ok, err, pure, raise, handle, continue, ◌>>◌}
use live_system_intelligence.Neo4j.{upsert_node}
use live_system_intelligence.Exec.Laws.{Returns}
use live_system_intelligence.Certificate.{ChangeImpactCertificate}
use live_system_intelligence.Certificate.Json.{Json, str}
use live_system_intelligence.Certificate.Signing.{IsSound}
use live_system_intelligence.Certificate.Encode.{asdict}
use live_system_intelligence.Certificate.Engine.{Services, generate_certificate}
use live_system_intelligence.Certificate.Issued.{IsIssued, generate_certificate-IsIssued}
use live_system_intelligence.CertificateApi.{
  Archive, id_props, extra_props, store_certificate, generate_and_store, generate, get_certificate,
  verify,
}

-- What the database and JSON do: a node that was merged is found by its ID, with its properties, and
-- the text of a dict reads back as that dict, and is not empty.
pub record IsArchive {W Text : Type 0} (services : Services W) (archive : Archive W Text)
    : Type 0 where
  pub finds :
      (cert : ChangeImpactCertificate) (w w' : W)
      → upsert_node archive.run_query "Certificate"
          (id_props services archive cert)
          (extra_props services archive cert)
          w
        ≡ (ok tt, w')
      → archive.payloads cert.certificate_id w' ≡ (ok (some (archive.dumps (asdict cert)) ∷ []), w')
  pub reads : (d : Dict String Json) → archive.loads (archive.dumps d) ≡ some d
  pub nonempty : (d : Dict String Json) → archive.is_blank (archive.dumps d) ≡ false

module _ {W Text : Type 0} (services : Services W) (archive : Archive W Text)
    (kept : IsArchive services archive) where
  get_certificate-stored :
      (cert : ChangeImpactCertificate) (w w' : W)
      → store_certificate services archive cert w ≡ (ok tt, w')
      → get_certificate services archive cert.certificate_id w' ≡ (ok (asdict cert), w')
  unfolding store_certificate get_certificate
  get_certificate-stored cert w w' stored =
      rw (kept.finds cert w w' stored, kept.nonempty (asdict cert), kept.reads (asdict cert)) refl

  -- What a generated certificate is, once it is stored.
  pub record IsRetrieved (pr_id service : String) (d : Dict String Json) (w : W) : Type 0 where
    pub cert : ChangeImpactCertificate
    pub encoded : d ≡ asdict cert
    pub issued : IsIssued services pr_id service cert
    pub retrieved : get_certificate services archive cert.certificate_id w ≡ (ok d, w)
    pub verified : verify services archive d ≡ ok (true, some (str cert.certificate_id))

  -- What is returned has `P` in the world that is left.
  abbrev pub ReturnsAt : {A : Type 0} → (A → W → Type 0) → Result A × W → Type 0
  ReturnsAt P (ok a, w) = P a w
  ReturnsAt P (err e, w) = Unit

  ReturnsAt-handle :
      {A : Type 0} (P : A → W → Type 0) (r : Result A) (f : Error → Error) (w : W)
      → ReturnsAt P (r, w)
      → ReturnsAt P (handle r (λ e. raise (f e)) w)
  ReturnsAt-handle P (ok a) f w h = h
  ReturnsAt-handle P (err e) f w h = tt

  module _ (pr_id service : String) where
    verify-issued :
        (cert : ChangeImpactCertificate)
        → IsIssued services pr_id service cert
        → verify services archive (asdict cert) ≡ ok (true, some (str cert.certificate_id))
    unfolding verify asdict lookup
    verify-issued cert issued = rw issued.verifies refl

    stored_at :
        (cert : ChangeImpactCertificate) (r : Result Unit) (u v : W)
        → IsIssued services pr_id service cert
        → store_certificate services archive cert u ≡ (r, v)
        → ReturnsAt (IsRetrieved pr_id service) (continue r (λ _. pure (asdict cert)) v)
    stored_at cert (ok _) u v issued stored = record {
      cert = cert;
      encoded = refl;
      issued = issued;
      retrieved = get_certificate-stored cert u v stored;
      verified = verify-issued cert issued;
    }
    stored_at cert (err e) u v issued stored = tt

    generated_at :
        (r : Result ChangeImpactCertificate) (u : W)
        → Returns (IsIssued services pr_id service) (r, u)
        → ReturnsAt
            (IsRetrieved pr_id service)
            (continue r (λ cert. do store_certificate services archive cert; pure (asdict cert)) u)
    generated_at (ok cert) u issued =
        let (r, v) = store_certificate services archive cert u in stored_at cert r u v issued refl
    generated_at (err e) u issued = tt

    -- Over an archive that keeps what it is given, and with sound cryptographic functions, a certificate
    -- that `generate` returns was issued for the pull request and the service asked for,
    -- it is found in the archive under its ID, just as it was returned, and it verifies there.
    pub generate-IsRetrieved :
        (changed_files : List String) (w : W)
        → IsSound services.crypto
        → ReturnsAt
            (IsRetrieved pr_id service)
            (generate services archive pr_id changed_files service w)
    unfolding generate generate_and_store
    generate-IsRetrieved changed_files w sound =
        let (r, v) = generate_and_store services archive pr_id changed_files service w in
        ReturnsAt-handle (IsRetrieved pr_id service) r (λ e. _) v
          (generated_at (generate_certificate services pr_id changed_files service w).0
            (generate_certificate services pr_id changed_files service w).1
            (generate_certificate-IsIssued services sound pr_id changed_files service w))
