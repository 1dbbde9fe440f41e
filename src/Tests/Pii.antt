-- ===== src/Tests/Pii.antt =====
-- layer4/pii_detector.py, at a few names and a file of two fields.
use native.Mathlib.Omega.{arith}
use live_system_intelligence.Prelude.{
  ℕ, String, Bool, true, false, Option, none, some, List, [], ◌∷◌, All, ◌≡◌, refl, string_eq,
}
use live_system_intelligence.Prelude.Dict.{Dict, insert, lookup, update}
use live_system_intelligence.Exec.{ok, pure}
use live_system_intelligence.Exec.Keeps.{Keeps}
use live_system_intelligence.Neo4j.{upsert_node, upsert_params}
use live_system_intelligence.Certificate.Json.{Json, bool, str, null}
use live_system_intelligence.Pattern.{
  search_words, search_from, starts_here, after_pieces, after_piece, after_literal,
}
use live_system_intelligence.Pii.{
  Match, ExtractedField, Sources, detect_pii_in_name, detect_pii_with_presidio, analyse_field,
  name_patterns,
}
use live_system_intelligence.Pii.Extract.{extract_fields_from_source, field_of_match}
use live_system_intelligence.Pii.Names.{type_listing, detect_pii_in_name-Identifier}
use live_system_intelligence.Pii.Scan.{
  upsert_data_field, scan_fields, scan_files, iter_source_files, forward_slashes,
  mark_endpoints_exposing_pii, scan,
}
use live_system_intelligence.Pii.Marked.{Fits, scan-Keeps}

abbrev ascii : ℕ → Bool
ascii c = false

listed : detect_pii_in_name ascii "E_Mail" ≡ some "EMAIL"
unfolding detect_pii_in_name search_words search_from starts_here after_pieces after_piece
    after_literal
listed = refl

-- An underscore is a character of words, so a prefixed name is not found.
prefixed : detect_pii_in_name ascii "customer_email" ≡ none
unfolding detect_pii_in_name search_words search_from starts_here after_pieces after_piece
    after_literal
prefixed = refl

apart : detect_pii_in_name ascii "customer email" ≡ some "EMAIL"
unfolding detect_pii_in_name search_words search_from starts_here after_pieces after_piece
    after_literal
apart = refl

detect_pii_in_name-Identifier_example :
    detect_pii_in_name ascii "a_ssn" ≡ type_listing "a_ssn" name_patterns
detect_pii_in_name-Identifier_example =
    detect_pii_in_name-Identifier ascii "a" "_ssn" (refl, (refl, (refl, (refl, (refl, tt)))))

abbrev declared : Match
declared = record { groups = some "String" ∷ some "email" ∷ []; start = 0; finish = 21 }

-- The type of a Java field is recorded as its name.
java_field :
    extract_fields_from_source "private String email;" "java" "A.java" "s" ((declared ∷ []) ∷ [])
    ≡ record {
      name = "email";
      field_type = "email";
      file = "A.java";
      line = 1;
      service = "s";
      context = "private String email;";
    }
      ∷ []
unfolding extract_fields_from_source field_of_match
java_field = refl

-- The name of an ActiveRecord column is recorded as its type.
ruby_field :
    extract_fields_from_source "t.String :email" "ruby" "a.rb" "s" ((declared ∷ []) ∷ [])
    ≡ record {
      name = "String";
      field_type = "email";
      file = "a.rb";
      line = 1;
      service = "s";
      context = "t.String :email";
    }
      ∷ []
unfolding extract_fields_from_source field_of_match
ruby_field = refl

-- The outside: the parameters of the writes so far.
abbrev Writes : Type 0
Writes = List (Dict String Json)

abbrev sources : Sources Writes ℕ
sources = record {
  wide = ascii;
  analyzer = none;
  score_threshold = 60;
  above = λ a b. false;
  finditer = λ language source. (declared ∷ []) ∷ [];
  rglob = λ repo w.
      record {
        path = "/r/A.java";
        relative = "A.java";
        parts = "r" ∷ "A.java" ∷ [];
        suffix = ".java";
        is_file = true;
      }
      ∷ record {
        path = "/r/vendor/B.java";
        relative = "vendor/B.java";
        parts = "r" ∷ "vendor" ∷ "B.java" ∷ [];
        suffix = ".java";
        is_file = true;
      }
      ∷ [];
  read_text = λ path w. some "private String email;";
  run_query = λ cypher params w. (ok tt, params ∷ w);
  link_writer = λ service file line field_id. pure tt;
  mark_endpoints = λ service. pure (2 ∷ []);
}

scanned :
    (scan sources "/r" "s" []).0
    ≡ ok (record {
      status = "ok";
      service = "s";
      files_scanned = 1;
      fields_extracted = 1;
      pii_fields_detected = 1;
      endpoints_marked_pii = 2;
    })
unfolding scan iter_source_files scan_files scan_fields mark_endpoints_exposing_pii analyse_field
    upsert_data_field upsert_node detect_pii_in_name search_words search_from starts_here
    after_pieces after_piece after_literal lookup extract_fields_from_source field_of_match
    forward_slashes
scanned = refl

abbrev agree : Option Json → Option Json → Bool
agree (some (bool true)) (some (str s)) = true
agree (some (bool false)) (some null) = true
agree _ _ = false

unfoldable Marked : Writes → Type 0
unfolding lookup
Marked = All (λ d. agree (lookup "pii_likely" d) (lookup "pii_type" d) ≡ true)

asks : (text : String) → Keeps Marked (detect_pii_with_presidio sources text)
unfolding detect_pii_with_presidio
asks text w p = p

writes :
    (field : ExtractedField) (v : Bool × Option String)
    → Fits sources field v
    → Keeps Marked (upsert_data_field sources field v.0 v.1)
unfolding upsert_data_field upsert_node upsert_params Marked lookup insert update
writes field (true, some t) fits w p = (refl, p)
writes field (false, none) fits w p = (refl, p)
writes field (true, none) fits w p = ground (arith, fits.0)
writes field (false, some t) fits w p = ground (arith, fits.0)

scan-Keeps_example : Keeps Marked (scan sources "/r" "s")
scan-Keeps_example = scan-Keeps sources Marked asks (λ service w p. p) writes "/r" "s"
