-- ===== src/Pattern.antt =====
-- Python's `re`, for the patterns of layer4/pii_detector.py and layer5/nl_to_cypher.py that list
-- words: `\b(w1|w2|…)\b` with IGNORECASE, where `\s+` may stand between two words.
-- `wide` says which characters outside ASCII are letters or digits.
pub mod Identifier
use Prim.Native.Char.{code}
use live_system_intelligence.Prelude.{
  ℕ, ◌+◌, String, Bool, true, false, not, ◌&&◌, ◌||◌, Option, none, some, List, [], ◌∷◌, nat_beq,
  leb, any, if◌then◌else◌,
}
use live_system_intelligence.Text.{is_space}

abbrev pub between : ℕ → ℕ → ℕ → Bool
between low high c = leb low c && leb c high

-- The letter that IGNORECASE compares: İ and ı count as i, ſ as s, and the Kelvin sign as k.
abbrev pub fold : ℕ → ℕ
fold c =
    if between 65 90 c
    then c + 32
    else if between 304 305 c
    then 105
    else if nat_beq c 383
    then 115
    else if nat_beq c 8490
    then 107
    else c

-- A part of an alternative: a literal text, or `\s+`.
pub data Piece : Type 0 where
  literal : String → Piece
  spaces : Piece

abbrev pub Alternative : Type 0
Alternative = List Piece

-- What is left of a text after a literal at its start.
unfoldable pub after_literal : String → String → Option String
after_literal String.[] s = some s
after_literal (String.◌∷◌ c p) String.[] = none
after_literal (String.◌∷◌ c p) (String.◌∷◌ d s) =
    let rest = after_literal p s in if nat_beq (fold (code c)) (fold (code d)) then rest else none

unfoldable pub skip_spaces : String → String
skip_spaces String.[] = ""
skip_spaces (String.◌∷◌ c s) =
    let rest = skip_spaces s in if is_space (code c) then rest else String.◌∷◌ c s

unfoldable pub after_spaces : String → Option String
unfolding skip_spaces
after_spaces String.[] = none
after_spaces (String.◌∷◌ c s) = if is_space (code c) then some (skip_spaces s) else none

unfoldable pub after_piece : Piece → String → Option String
unfolding after_literal after_spaces
after_piece (literal p) s = after_literal p s
after_piece spaces s = after_spaces s

unfoldable pub after_pieces : Alternative → String → Option String
unfolding after_piece
after_pieces [] s = some s
after_pieces (piece ∷ pieces) s = elim (after_piece piece s) [
  | none ↦ none
  | some rest ↦ after_pieces pieces rest
]

module _ (wide : ℕ → Bool) where
  -- `\w`
  abbrev pub is_word : ℕ → Bool
  is_word c =
      between 48 57 c
      || between 65 90 c
      || nat_beq c 95
      || between 97 122 c
      || (leb 128 c && wide c)

  -- `\b` after a character of a word.
  abbrev pub word_ends : Option String → Bool
  word_ends none = false
  word_ends (some String.[]) = true
  word_ends (some (String.◌∷◌ c s)) = not (is_word (code c))

  unfoldable pub starts_here : List Alternative → String → Bool
  unfolding after_pieces
  starts_here alternatives s = any (λ a. word_ends (after_pieces a s)) alternatives

  -- The search from a place whose previous character is, or is not, one of a word.
  unfoldable pub search_from : Bool → List Alternative → String → Bool
  unfolding starts_here
  search_from previous alternatives String.[] = false
  search_from previous alternatives (String.◌∷◌ c s) =
      (not previous && starts_here alternatives (String.◌∷◌ c s))
      || search_from (is_word (code c)) alternatives s

  -- `re.compile(r"\b(…)\b", re.IGNORECASE).search(s)`
  unfoldable pub search_words : List Alternative → String → Bool
  unfolding search_from
  search_words alternatives s = search_from false alternatives s
