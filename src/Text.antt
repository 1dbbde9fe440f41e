-- ===== src/Text.antt =====
-- What the program uses of Python's `str`: slices, prefixes and parts, by characters, `split` and `strip`.
use Prim.Native.Char.{code}
use live_system_intelligence.Prelude.{
  ℕ, zero, suc, String, Bool, true, false, List, [], ◌∷◌, ◌&&◌, ◌||◌, nat_beq, ◌+◌, if◌then◌else◌,
  leb, Option, none, some,
}

-- `s[:n]`
abbrev pub slice_to : ℕ → String → String
slice_to zero s = ""
slice_to (suc n) String.[] = ""
slice_to (suc n) (String.◌∷◌ c s) = String.◌∷◌ c (slice_to n s)

abbrev pub starts_with : String → String → Bool
starts_with String.[] s = true
starts_with (String.◌∷◌ c p) String.[] = false
starts_with (String.◌∷◌ c p) (String.◌∷◌ d s) = nat_beq (code c) (code d) && starts_with p s

-- The text before and after the first character with this code, if there is one.
abbrev pub split_at : ℕ → String → Option (String × String)
split_at sep String.[] = none
split_at sep (String.◌∷◌ c s) =
    let later = split_at sep s in
    if nat_beq (code c) sep
    then some ("", s)
    else elim later [ none ↦ none | some (before, after) ↦ some (String.◌∷◌ c before, after) ]

-- `s.split(sep)` for a separator of one character: the first piece and the others.
abbrev pub split_pieces : ℕ → String → String × List String
split_pieces sep String.[] = ("", [])
split_pieces sep (String.◌∷◌ c s) =
    let (piece, pieces) = split_pieces sep s in
    if nat_beq (code c) sep then ("", piece ∷ pieces) else (String.◌∷◌ c piece, pieces)

abbrev pub split : ℕ → String → List String
split sep s = let (piece, pieces) = split_pieces sep s in piece ∷ pieces

-- The ASCII characters that `strip` removes.
abbrev pub is_space : ℕ → Bool
is_space c = (leb 9 c && leb c 13) || (leb 28 c && leb c 32)

abbrev pub left_strip : String → String
left_strip String.[] = ""
left_strip (String.◌∷◌ c s) =
    let rest = left_strip s in if is_space (code c) then rest else String.◌∷◌ c s

abbrev pub right_strip : String → String
right_strip String.[] = ""
right_strip (String.◌∷◌ c s) =
    let rest = right_strip s in
    elim rest [
      | String.[] ↦ if is_space (code c) then "" else String.◌∷◌ c ""
      | String.◌∷◌ d t ↦ String.◌∷◌ c (String.◌∷◌ d t)
    ]

abbrev pub strip : String → String
strip s = right_strip (left_strip s)

-- `p in s`
abbrev pub occurs : String → String → Bool
occurs p String.[] = starts_with p ""
occurs p (String.◌∷◌ c s) = starts_with p (String.◌∷◌ c s) || occurs p s

-- `s.count(p)` for a text that cannot overlap itself.
abbrev pub count_of : String → String → ℕ
count_of p String.[] = 0
count_of p (String.◌∷◌ c s) = (if starts_with p (String.◌∷◌ c s) then 1 else 0) + count_of p s

abbrev is_blank : String → Bool
is_blank String.[] = true
is_blank (String.◌∷◌ c s) = false

-- The words of a text: the one that it starts with, which may be empty, and the others.
abbrev pub word_pieces : String → String × List String
word_pieces String.[] = ("", [])
word_pieces (String.◌∷◌ c s) =
    let (word, more) = word_pieces s in
    if is_space (code c)
    then ("", if is_blank word then more else word ∷ more)
    else (String.◌∷◌ c word, more)

-- `s.split()`
abbrev pub words : String → List String
words s = let (word, more) = word_pieces s in if is_blank word then more else word ∷ more

-- `len(s)`, in characters.
abbrev pub len : String → ℕ
len String.[] = 0
len (String.◌∷◌ c s) = suc (len s)

-- `s[n:]`
abbrev pub slice_from : ℕ → String → String
slice_from zero s = s
slice_from (suc n) String.[] = ""
slice_from (suc n) (String.◌∷◌ c s) = slice_from n s

abbrev pub left_strip_of : ℕ → String → String
left_strip_of sep String.[] = ""
left_strip_of sep (String.◌∷◌ c s) =
    let rest = left_strip_of sep s in if nat_beq (code c) sep then rest else String.◌∷◌ c s

abbrev pub right_strip_of : ℕ → String → String
right_strip_of sep String.[] = ""
right_strip_of sep (String.◌∷◌ c s) =
    let rest = right_strip_of sep s in
    if nat_beq (code c) sep && is_blank rest then "" else String.◌∷◌ c rest

-- `s.strip(sep)` for one character.
abbrev pub strip_of : ℕ → String → String
strip_of sep s = right_strip_of sep (left_strip_of sep s)
