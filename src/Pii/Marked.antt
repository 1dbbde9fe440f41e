-- ===== src/Pii/Marked.antt =====
-- What a scan of layer4/pii_detector.py writes into the graph.
use mathlib.Core.Option.{none-ne-some}
use live_system_intelligence.Prelude.{
  String, ◌<>◌, Bool, true, false, Option, none, some, List, [], ◌∷◌, ◌==◌, string_eq, ◌≡◌, refl,
  sym, ◌∙◌, if◌then◌else◌,
}
use live_system_intelligence.Exec.{pure, ◌>>=◌}
use live_system_intelligence.Exec.Laws.{Returns, Returns-bind}
use live_system_intelligence.Exec.Keeps.{Keeps, Keeps-bind, Keeps-then, Keeps-branch}
use live_system_intelligence.Text.{slice_to}
use live_system_intelligence.Pii.{
  ExtractedField, Entry, Sources, Recognized, detect_pii_in_name, detect_pii_with_presidio,
  verdict_of, analyse_from, analyse_field,
}
use live_system_intelligence.Pii.Scan.{
  Counts, upsert_data_field, scan_fields, scan_file, scan_files, counted, fields_of,
  iter_source_files, no_counts, mark_endpoints_exposing_pii, scan,
}

abbrev pub is_some : Option String → Bool
is_some none = false
is_some (some s) = true

module _ {W Score : Type 0} (sources : Sources W Score) where
  -- A mark that agrees with its type, which is the one of the name where the name has one.
  abbrev pub Fits : ExtractedField → Bool × Option String → Type 0
  Fits field (pii_likely, pii_type) =
      (pii_likely ≡ is_some pii_type)
      × ((t : String) → detect_pii_in_name sources.wide field.name ≡ some t → pii_type ≡ some t)

  verdict-agrees :
      (rs : List (Recognized Score)) → (verdict_of sources rs).0 ≡ is_some (verdict_of sources rs).1
  verdict-agrees [] = refl
  verdict-agrees (r ∷ rs) = refl

  Fits-none :
      (field : ExtractedField) (v : Bool × Option String)
      → detect_pii_in_name sources.wide field.name ≡ none
      → v.0 ≡ is_some v.1
      → Fits field v
  Fits-none field v e agrees = (agrees, λ t h. absurd (none-ne-some t (sym e ∙ h)))

  analyse_from-Fits :
      (field : ExtractedField) (o : Option String) (w : W)
      → detect_pii_in_name sources.wide field.name ≡ o
      → Returns (Fits field) (analyse_from sources field o w)
  analyse_from-Fits field (some t) w e = (refl, λ u h. sym e ∙ h)
  analyse_from-Fits field none w e = by_context (field.context == "")
    where
      by_context :
          (b : Bool)
          → Returns (Fits field) (
              (if b then pure (false, none) else (do
                results ←
                    detect_pii_with_presidio sources
                      (field.name <> " " <> slice_to 200 field.context)
                pure (verdict_of sources results)))
                w)
      by_context true = Fits-none field (false, none) e refl
      by_context false =
          Returns-bind (Fits field)
            (detect_pii_with_presidio sources (field.name <> " " <> slice_to 200 field.context)) _ w
            λ rs v. Fits-none field (verdict_of sources rs) e (verdict-agrees rs)

  analyse_field-Fits :
      (field : ExtractedField) (w : W) → Returns (Fits field) (analyse_field sources field w)
  unfolding analyse_field
  analyse_field-Fits field w =
      analyse_from-Fits field (detect_pii_in_name sources.wide field.name) w refl

  module _ (P : W → Type 0)
      (asks : (text : String) → Keeps P (detect_pii_with_presidio sources text))
      (marks : (service : String) → Keeps P (sources.mark_endpoints service))
      (writes : (field : ExtractedField) (v : Bool × Option String)
        → Fits field v
        → Keeps P (upsert_data_field sources field v.0 v.1)) where
    Keeps-analyse_from :
        (field : ExtractedField) (o : Option String) → Keeps P (analyse_from sources field o)
    Keeps-analyse_from field (some t) = λ w q. q
    Keeps-analyse_from field none =
        Keeps-branch P (field.context == "") (pure (false, none)) _ (λ e w p. p)
          λ e.
            Keeps-bind P
              (detect_pii_with_presidio sources (field.name <> " " <> slice_to 200 field.context)) _
              (asks _) λ rs w p. p

    Keeps-scan_fields :
        (fields : List ExtractedField) (c : Counts) → Keeps P (scan_fields sources fields c)
    unfolding scan_fields analyse_field
    Keeps-scan_fields [] c = λ w q. q
    Keeps-scan_fields (field ∷ fields) c =
        Keeps-then P (Fits field) (analyse_field sources field) _
          (Keeps-analyse_from field (detect_pii_in_name sources.wide field.name))
          (analyse_field-Fits field)
          λ v fits.
            Keeps-bind P (upsert_data_field sources field v.0 v.1) _ (writes field v fits)
              λ i. Keeps-scan_fields fields (counted sources v.0 c)

    Keeps-scan_file :
        (service : String) (p : Entry × String) (o : Option String) (c : Counts)
        → Keeps P (scan_file sources service p o c)
    Keeps-scan_file service (p, language) none c = λ w q. q
    Keeps-scan_file service (p, language) (some source) c =
        Keeps-scan_fields (fields_of sources service language p source) _

    Keeps-scan_files :
        (service : String) (ps : List (Entry × String)) (c : Counts)
        → Keeps P (scan_files sources service ps c)
    unfolding scan_files
    Keeps-scan_files service [] c = λ w q. q
    Keeps-scan_files service (p ∷ ps) c =
        Keeps-bind P (λ w. scan_file sources service p (sources.read_text p.0.path w) c w) _
          (λ w. Keeps-scan_file service p (sources.read_text p.0.path w) c w)
          λ c'. Keeps-scan_files service ps c'

    -- A scan keeps whatever property of the outside is kept by asking Presidio, by marking endpoints, and by
    -- each write of a field whose mark says that it has a type, and whose type is that of its name where
    -- the name has one: no other mark is written.
    pub scan-Keeps : (repo service : String) → Keeps P (scan sources repo service)
    unfolding scan mark_endpoints_exposing_pii
    scan-Keeps repo service =
        Keeps-bind P
          (λ w.
            scan_files sources service (iter_source_files (sources.rglob repo w))
              (no_counts sources) w)
          _
          (λ w.
            Keeps-scan_files service (iter_source_files (sources.rglob repo w)) (no_counts sources)
              w)
          λ c.
            Keeps-bind P (mark_endpoints_exposing_pii sources service) _
              (Keeps-bind P (sources.mark_endpoints service) _ (marks service) λ rows w p. p)
              λ n w p. p
