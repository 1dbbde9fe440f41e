-- ===== src/Pii/Extract.antt =====
-- `extract_fields_from_source` of layer4/pii_detector.py.
use live_system_intelligence.Prelude.{
  ◌+◌, ◌-◌, min, String, Option, none, some, List, [], ◌∷◌, ◌++◌, ltb, not, ◌==◌, string_eq,
  if◌then◌else◌,
}
use live_system_intelligence.Text.{slice_to, slice_from, len, count_of}
use live_system_intelligence.Pii.{Match, ExtractedField}

-- `[g for g in m.groups() if g]`
abbrev pub present : List (Option String) → List String
present [] = []
present (none ∷ groups) = present groups
present (some g ∷ groups) = if g == "" then present groups else g ∷ present groups

abbrev pub last_of : String → List String → String
last_of g [] = g
last_of g (h ∷ groups) = last_of h groups

abbrev pub type_of : List String → String
type_of [] = "unknown"
type_of (h ∷ groups) = h

module _ (source language file_path service : String) where
  abbrev pub name_of : String → List String → String
  name_of g groups = if not (language == "java") then g else last_of g groups

  abbrev pub build_field : Match → String → List String → ExtractedField
  build_field m g groups = record {
    name = name_of g groups;
    field_type = type_of groups;
    file = file_path;
    line = count_of "\n" (slice_to m.start source) + 1;
    service = service;
    context = slice_from (m.start - 100) (slice_to (min (len source) (m.finish + 100)) source);
  }

  -- The body of the loop: the field of a match, unless its name is a single character.
  abbrev pub of_groups : Match → List String → List ExtractedField
  of_groups m [] = []
  of_groups m (g ∷ groups) =
      if ltb 1 (len (name_of g groups)) then build_field m g groups ∷ [] else []

  unfoldable pub field_of_match : Match → List ExtractedField
  field_of_match m = of_groups m (present m.groups)

  abbrev pub of_matches : List Match → List ExtractedField
  of_matches [] = []
  of_matches (m ∷ ms) = field_of_match m ++ of_matches ms

  -- The matches of each of the language's patterns.
  unfoldable pub extract_fields_from_source : List (List Match) → List ExtractedField
  unfolding field_of_match
  extract_fields_from_source [] = []
  extract_fields_from_source (matches ∷ patterns) =
      of_matches matches ++ extract_fields_from_source patterns
