-- ===== src/Pii/Scan.antt =====
-- The pipeline of layer4/pii_detector.py: the nodes that it writes and the scan of a repository.
use live_system_intelligence.Prelude.{
  ℕ, ◌+◌, String, ◌<>◌, Bool, not, ◌&&◌, Option, none, some, List, [], ◌∷◌, ◌++◌, any, contains,
  string_eq, if◌then◌else◌,
}
use live_system_intelligence.Prelude.Dict.{lookup}
use live_system_intelligence.Exec.{Exec, pure, ◌>>=◌, ◌>>◌}
use live_system_intelligence.Text.{split}
use live_system_intelligence.Neo4j.{upsert_node}
use live_system_intelligence.Certificate.Json.{Json, null, bool, num, str}
use live_system_intelligence.Certificate.Narrative.{join}
use live_system_intelligence.Regulatory.{first_count}
use live_system_intelligence.Pii.{ExtractedField, Entry, Sources, lang_extensions, analyse_field}
use live_system_intelligence.Pii.Extract.{extract_fields_from_source}

pub record Summary : Type 0 where
  pub status : String
  pub service : String
  pub files_scanned : ℕ
  pub fields_extracted : ℕ
  pub pii_fields_detected : ℕ
  pub endpoints_marked_pii : ℕ

-- The counters of a scan.
pub record Counts : Type 0 where
  pub files : ℕ
  pub total : ℕ
  pub pii : ℕ

abbrev pub skip_dirs : List String
skip_dirs = ".git" ∷ "node_modules" ∷ "__pycache__" ∷ "vendor" ∷ ".venv" ∷ "dist" ∷ "build" ∷ []

abbrev pub with_language : Entry → Option String → List (Entry × String)
with_language p none = []
with_language p (some lang) = (p, lang) ∷ []

unfoldable pub iter_source_files : List Entry → List (Entry × String)
unfolding lookup
iter_source_files [] = []
iter_source_files (p ∷ ps) =
    let rest = iter_source_files ps in
    if p.is_file && not (any (λ part. contains part skip_dirs) p.parts)
    then with_language p (lookup p.suffix lang_extensions) ++ rest
    else rest

abbrev pub text_or_null : Option String → Json
text_or_null none = null
text_or_null (some s) = str s

-- `path.replace("\\", "/")`
unfoldable pub forward_slashes : String → String
unfolding join
forward_slashes path = join "/" (split 92 path)

module _ {W Score : Type 0} (sources : Sources W Score) where
  unfoldable pub upsert_data_field : ExtractedField → Bool → Option String → Exec W String
  unfolding upsert_node
  upsert_data_field field pii_likely pii_type = do
    let field_id = field.service <> ":" <> field.name
    upsert_node sources.run_query "DataField" (("id", str field_id) ∷ []) (
        ("name", str field.name)
        ∷ ("type", str field.field_type)
        ∷ ("file", str field.file)
        ∷ ("line", num field.line)
        ∷ ("service", str field.service)
        ∷ ("pii_likely", bool pii_likely)
        ∷ ("pii_type", text_or_null pii_type)
        ∷ [])
    sources.link_writer field.service field.file field.line field_id
    pure field_id

  unfoldable pub mark_endpoints_exposing_pii : String → Exec W ℕ
  mark_endpoints_exposing_pii service = do
    rows ← sources.mark_endpoints service
    pure (first_count rows)

  abbrev pub counted : Bool → Counts → Counts
  counted pii_likely c = record c {
    total = c.total + 1;
    pii = c.pii + (if pii_likely then 1 else 0);
  }

  unfoldable pub scan_fields : List ExtractedField → Counts → Exec W Counts
  unfolding analyse_field upsert_data_field
  scan_fields [] c = pure c
  scan_fields (field ∷ fields) c = do
    (pii_likely, pii_type) ← analyse_field sources field
    upsert_data_field field pii_likely pii_type
    scan_fields fields (counted pii_likely c)

  abbrev pub fields_of : String → String → Entry → String → List ExtractedField
  fields_of service language p source =
      extract_fields_from_source source language (forward_slashes p.relative) service
        (sources.finditer language source)

  -- A file that cannot be read is passed over.
  abbrev pub scan_file : String → Entry × String → Option String → Counts → Exec W Counts
  scan_file service (p, language) none c = pure c
  scan_file service (p, language) (some source) c =
      scan_fields (fields_of service language p source) (record c { files = c.files + 1 })

  unfoldable pub scan_files : String → List (Entry × String) → Counts → Exec W Counts
  unfolding scan_fields
  scan_files service [] c = pure c
  scan_files service (p ∷ ps) c = do
    c' ← λ w. scan_file service p (sources.read_text p.0.path w) c w
    scan_files service ps c'

  abbrev pub no_counts : Counts
  no_counts = record { files = 0; total = 0; pii = 0 }

  unfoldable pub scan : String → String → Exec W Summary
  unfolding iter_source_files scan_files mark_endpoints_exposing_pii
  scan repo service = do
    c ← λ w. scan_files service (iter_source_files (sources.rglob repo w)) no_counts w
    endpoints_marked ← mark_endpoints_exposing_pii service
    pure (record {
      status = "ok";
      service = service;
      files_scanned = c.files;
      fields_extracted = c.total;
      pii_fields_detected = c.pii;
      endpoints_marked_pii = endpoints_marked;
    })
