-- ===== src/Pii/Names.antt =====
-- Which names of fields layer4/pii_detector.py takes for personal data.
use Prim.Native.Char.{Char}
use live_system_intelligence.Prelude.{
  ℕ, String, Bool, Option, none, some, List, [], ◌∷◌, any, if◌then◌else◌, ◌≡◌, refl,
}
use live_system_intelligence.Pattern.Identifier.{Identifier, same_word, search_words-Identifier}
use live_system_intelligence.Pii.{name_patterns, first_match, detect_pii_in_name}

-- The type of the first list that has the name in it, but for the case.
abbrev pub type_listing : String → List (List String × String) → Option String
type_listing name [] = none
type_listing name ((words, pii_type) ∷ patterns) =
    if any (λ w. same_word w name) words then some pii_type else type_listing name patterns

module _ (wide : ℕ → Bool) where
  first_match-Identifier :
      (patterns : List (List String × String)) (c : Char) (s : String)
      → Identifier wide (String.◌∷◌ c s)
      → first_match wide (String.◌∷◌ c s) patterns ≡ type_listing (String.◌∷◌ c s) patterns
  first_match-Identifier [] c s h = refl
  first_match-Identifier ((words, pii_type) ∷ patterns) c s h =
      rw (search_words-Identifier wide words c s h, first_match-Identifier patterns c s h) refl

  -- The name of a field that is an identifier gets a type exactly when the whole of the name is in one
  -- of the lists, but for the case: that of the first such list. A listed word that is only a part of
  -- the name, as before an underscore, counts for nothing.
  pub detect_pii_in_name-Identifier :
      (c : Char) (s : String)
      → Identifier wide (String.◌∷◌ c s)
      → detect_pii_in_name wide (String.◌∷◌ c s) ≡ type_listing (String.◌∷◌ c s) name_patterns
  unfolding detect_pii_in_name
  detect_pii_in_name-Identifier c s h = first_match-Identifier name_patterns c s h
