-- ===== src/CertificateApi.antt =====
-- layer6/certificate_api.py: the endpoints that generate, store, retrieve and verify certificates. The
-- query for the stored payloads, `json.dumps` and `json.loads` are the record
-- `Archive`, over a type of the texts of JSON.
pub mod Retrieved
use live_system_intelligence.Prelude.{
  ℕ, String, ◌<>◌, Option, none, some, List, [], ◌∷◌, if◌then◌else◌, ◌==◌, string_eq, Bool,
}
use live_system_intelligence.Prelude.Dict.{Dict, lookup}
use live_system_intelligence.Exec.{
  Error, Result, ok, err, Exec, pure, raise, lift, try_except, ◌>>=◌, ◌>>◌,
}
use live_system_intelligence.Neo4j.{upsert_node}
use live_system_intelligence.Certificate.{ChangeImpactCertificate}
use live_system_intelligence.Certificate.Json.{Json, str, num}
use live_system_intelligence.Certificate.Signing.{verify_certificate}
use live_system_intelligence.Certificate.Encode.{asdict}
use live_system_intelligence.Certificate.Engine.{Services, generate_certificate}

-- A property of a node: a plain value, or the text of a JSON value, into which the program never looks.
pub data Property (Text : Type 0) : Type 0 where
  plain : Json → Property Text
  text : Text → Property Text

pub record Archive (W Text : Type 0) : Type 0 where
  pub run_query : String → Dict String (Property Text) → Exec W Unit
  pub payloads : String → Exec W (List (Option Text))
  pub latest_payloads : String → Exec W (List (Option Text))
  pub dumps : Dict String Json → Text
  pub loads : Text → Option (Dict String Json)
  pub is_blank : Text → Bool

abbrev pub http_exception : String → Error
http_exception message = record { kind = "HTTPException"; message = message }

module _ {W Text : Type 0} (services : Services W) (archive : Archive W Text) where
  abbrev pub id_props : ChangeImpactCertificate → Dict String (Property Text)
  id_props cert = ("id", plain (str cert.certificate_id)) ∷ []

  abbrev pub extra_props : ChangeImpactCertificate → Dict String (Property Text)
  extra_props cert =
      ("pr_id", plain (str cert.pr_id))
      ∷ ("service", plain (str cert.service))
      ∷ ("risk_level", plain (str cert.risk_level))
      ∷ ("generated_at", plain (str cert.generated_at))
      ∷ ("generation_duration_ms", plain (num cert.generation_duration_ms))
      ∷ ("payload", text (archive.dumps (asdict cert)))
      ∷ []

  -- `_store_certificate`; the entries of the dict are those of the certificate.
  unfoldable pub store_certificate : ChangeImpactCertificate → Exec W Unit
  unfolding upsert_node asdict
  store_certificate cert =
      upsert_node archive.run_query "Certificate" (id_props cert) (extra_props cert)

  -- The `try` block of `generate`.
  unfoldable pub generate_and_store : String → List String → String → Exec W (Dict String Json)
  unfolding store_certificate
  generate_and_store pr_id changed_files service = do
    cert ← generate_certificate services pr_id changed_files service
    store_certificate cert
    pure (asdict cert)

  unfoldable pub generate : String → List String → String → Exec W (Dict String Json)
  unfolding generate_and_store
  generate pr_id changed_files service =
      try_except (generate_and_store pr_id changed_files service)
        (λ e. raise (http_exception ("500: " <> e.message)))

  abbrev pub decoded : Option (Dict String Json) → Result (Dict String Json)
  decoded none = err (http_exception "500: Stored certificate is corrupt")
  decoded (some d) = ok d

  -- The answer to the rows of a query: the first one's payload, if it has one that is not empty.
  abbrev pub answer : String → List (Option Text) → Result (Dict String Json)
  answer missing [] = err (http_exception missing)
  answer missing (none ∷ rows) = err (http_exception missing)
  answer missing (some payload ∷ rows) =
      if archive.is_blank payload
      then err (http_exception missing)
      else decoded (archive.loads payload)

  unfoldable pub get_certificate : String → Exec W (Dict String Json)
  get_certificate cert_id = do
    rows ← archive.payloads cert_id
    lift (answer ("404: Certificate '" <> cert_id <> "' not found") rows)

  unfoldable pub latest_for_pr : String → Exec W (Dict String Json)
  latest_for_pr pr_id = do
    rows ← archive.latest_payloads pr_id
    lift (answer ("404: No certificate found for PR '" <> pr_id <> "'") rows)

  abbrev pub with_id : Dict String Json → Result Bool → Result (Bool × Option Json)
  with_id certificate (err e) = err e
  with_id certificate (ok valid) = ok (valid, lookup "certificate_id" certificate)

  unfoldable pub verify : Dict String Json → Result (Bool × Option Json)
  unfolding lookup
  verify certificate =
      with_id certificate (verify_certificate services.crypto services.secret certificate)
