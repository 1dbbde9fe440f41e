-- ===== src/Pii.antt =====
-- layer4/pii_detector.py: the classification of a field by its name and, failing that, by Presidio.
-- Presidio's analyser, the expressions that find fields in a source, the file system and the queries
-- are the record `Sources`; a score is compared only.
pub mod Extract
pub mod Scan
pub mod Names
pub mod Marked
use live_system_intelligence.Prelude.{
  ℕ, String, ◌<>◌, Bool, true, false, Option, none, some, List, [], ◌∷◌, map, string_eq, ◌==◌,
  if◌then◌else◌,
}
use live_system_intelligence.Prelude.Dict.{Dict, lookup}
use live_system_intelligence.Exec.{Exec, pure, ◌>>=◌, ◌>>◌, try_except}
use live_system_intelligence.Text.{slice_to}
use live_system_intelligence.Pattern.{search_words}
use live_system_intelligence.Pattern.Identifier.{one_word}
use live_system_intelligence.Certificate.Json.{Json}

-- What the analyser finds in a text.
pub record Recognized (Score : Type 0) : Type 0 where
  pub entity_type : String
  pub start : ℕ
  pub finish : ℕ
  pub score : Score

pub record Match : Type 0 where
  pub groups : List (Option String)
  pub start : ℕ
  pub finish : ℕ

pub record ExtractedField : Type 0 where
  pub name : String
  pub field_type : String
  pub file : String
  pub line : ℕ
  pub service : String
  pub context : String

-- A path below the repository.
pub record Entry : Type 0 where
  pub path : String
  pub relative : String
  pub parts : List String
  pub suffix : String
  pub is_file : Bool

pub record Sources (W Score : Type 0) : Type 0 where
  pub wide : ℕ → Bool
  pub analyzer : Option (String → List String → Score → Exec W (List (Recognized Score)))
  pub score_threshold : Score
  pub above : Score → Score → Bool
  pub finditer : String → String → List (List Match)
  pub rglob : String → W → List Entry
  pub read_text : String → W → Option String
  pub run_query : String → Dict String Json → Exec W Unit
  pub link_writer : String → String → ℕ → String → Exec W Unit
  pub mark_endpoints : String → Exec W (List ℕ)

abbrev pub pii_entity_types : List String
pii_entity_types =
    "EMAIL_ADDRESS" ∷ "PHONE_NUMBER" ∷ "CREDIT_CARD" ∷ "US_SSN" ∷ "US_PASSPORT"
    ∷ "US_DRIVER_LICENSE" ∷ "IBAN_CODE" ∷ "IP_ADDRESS" ∷ "PERSON" ∷ "LOCATION" ∷ "DATE_TIME" ∷ "NRP"
    ∷ "MEDICAL_LICENSE" ∷ "URL" ∷ []

abbrev pub presidio_to_lsig : Dict String String
presidio_to_lsig =
    ("EMAIL_ADDRESS", "EMAIL")
    ∷ ("PHONE_NUMBER", "PHONE")
    ∷ ("CREDIT_CARD", "CREDIT_CARD")
    ∷ ("US_SSN", "SSN")
    ∷ ("US_PASSPORT", "PASSPORT")
    ∷ ("US_DRIVER_LICENSE", "DRIVER_LICENSE")
    ∷ ("IBAN_CODE", "BANK_ACCOUNT")
    ∷ ("IP_ADDRESS", "IP_ADDRESS")
    ∷ ("PERSON", "PERSON_NAME")
    ∷ ("LOCATION", "LOCATION")
    ∷ ("DATE_TIME", "DATE")
    ∷ ("NRP", "SENSITIVE_DEMOGRAPHIC")
    ∷ ("MEDICAL_LICENSE", "MEDICAL_ID")
    ∷ []

-- The words of each pattern, and its type.
abbrev pub name_patterns : List (List String × String)
name_patterns =
    ("email" ∷ "e_mail" ∷ "email_address" ∷ "user_email" ∷ "contact_email" ∷ [], "EMAIL")
    ∷ ("phone" ∷ "phone_number" ∷ "mobile" ∷ "cell" ∷ "telephone" ∷ "tel" ∷ [], "PHONE")
    ∷ ("ssn" ∷ "social_security" ∷ "social_security_number" ∷ "tax_id" ∷ "tin" ∷ [], "SSN")
    ∷ (
      "credit_card" ∷ "card_number" ∷ "cc_number" ∷ "pan" ∷ "card_no" ∷ "cvv" ∷ "cvc" ∷ "expiry"
          ∷ [],
      "CREDIT_CARD",
    )
    ∷ (
      "password" ∷ "passwd" ∷ "pwd" ∷ "secret" ∷ "api_key" ∷ "access_token" ∷ "refresh_token"
          ∷ "auth_token" ∷ [],
      "CREDENTIAL",
    )
    ∷ ("dob" ∷ "date_of_birth" ∷ "birth_date" ∷ "birthday" ∷ "birthdate" ∷ [], "DATE_OF_BIRTH")
    ∷ (
      "address" ∷ "street" ∷ "zip_code" ∷ "postal_code" ∷ "city" ∷ "state" ∷ "country" ∷ [],
      "ADDRESS",
    )
    ∷ (
      "first_name" ∷ "last_name" ∷ "full_name" ∷ "given_name" ∷ "surname" ∷ "username" ∷ [],
      "PERSON_NAME",
    )
    ∷ ("ip_address" ∷ "ip_addr" ∷ "remote_addr" ∷ "client_ip" ∷ [], "IP_ADDRESS")
    ∷ (
      "passport" ∷ "passport_number" ∷ "national_id" ∷ "driver_license" ∷ "dl_number" ∷ [],
      "GOVERNMENT_ID",
    )
    ∷ ("iban" ∷ "bank_account" ∷ "account_number" ∷ "routing_number" ∷ "swift" ∷ [], "BANK_ACCOUNT")
    ∷ (
      "health" ∷ "diagnosis" ∷ "medical" ∷ "prescription" ∷ "patient_id" ∷ "mrn" ∷ "insurance" ∷ [],
      "HEALTH_DATA",
    )
    ∷ ("salary" ∷ "income" ∷ "wage" ∷ "earnings" ∷ "tax_return" ∷ [], "FINANCIAL")
    ∷ (
      "race" ∷ "ethnicity" ∷ "religion" ∷ "political" ∷ "sexual_orientation" ∷ "gender" ∷ [],
      "SENSITIVE_DEMOGRAPHIC",
    )
    ∷ []

-- `d.get(k, k)`
abbrev pub get_or_same : Dict String String → String → String
get_or_same d k = elim (lookup k d) [ none ↦ k | some v ↦ v ]

module _ (wide : ℕ → Bool) where
  abbrev pub first_match : String → List (List String × String) → Option String
  first_match field_name [] = none
  first_match field_name ((words, pii_type) ∷ patterns) =
      if search_words wide (map one_word words) field_name
      then some pii_type
      else first_match field_name patterns

  unfoldable pub detect_pii_in_name : String → Option String
  unfolding search_words
  detect_pii_in_name field_name = first_match field_name name_patterns

module _ {W Score : Type 0} (sources : Sources W Score) where
  abbrev pub detection : Recognized Score → Recognized Score
  detection r = record {
    entity_type = get_or_same presidio_to_lsig r.entity_type;
    start = r.start;
    finish = r.finish;
    score = r.score;
  }

  unfoldable pub detect_pii_with_presidio : String → Exec W (List (Recognized Score))
  unfolding lookup
  detect_pii_with_presidio text = elim sources.analyzer [
    | none ↦ pure []
    | some analyze ↦
        try_except
          (do
            results ← analyze text pii_entity_types sources.score_threshold
            pure (map detection results))
          (λ e. pure [])
  ]

  -- `max(results, key=score)`: the first of those with the highest score.
  abbrev pub best_from : Recognized Score → List (Recognized Score) → Recognized Score
  best_from best [] = best
  best_from best (r ∷ rs) = best_from (if sources.above r.score best.score then r else best) rs

  abbrev pub verdict_of : List (Recognized Score) → Bool × Option String
  verdict_of [] = (false, none)
  verdict_of (r ∷ rs) = (true, some (best_from r rs).entity_type)

  -- The type of the name, if it has one, or else what Presidio finds in the context.
  abbrev pub analyse_from : ExtractedField → Option String → Exec W (Bool × Option String)
  analyse_from field (some pii_type) = pure (true, some pii_type)
  analyse_from field none = if field.context == "" then pure (false, none) else (do
    results ← detect_pii_with_presidio (field.name <> " " <> slice_to 200 field.context)
    pure (verdict_of results))

  unfoldable pub analyse_field : ExtractedField → Exec W (Bool × Option String)
  unfolding detect_pii_in_name detect_pii_with_presidio
  analyse_field field = analyse_from field (detect_pii_in_name sources.wide field.name)

abbrev pub lang_extensions : Dict String String
lang_extensions =
    (".py", "python")
    ∷ (".js", "javascript")
    ∷ (".jsx", "javascript")
    ∷ (".ts", "typescript")
    ∷ (".tsx", "typescript")
    ∷ (".go", "go")
    ∷ (".java", "java")
    ∷ (".rb", "ruby")
    ∷ []
