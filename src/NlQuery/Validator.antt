-- ===== src/NlQuery/Validator.antt =====
-- `validate_cypher` of layer5/nl_to_cypher.py, and the clean-up of the text that Claude gives.
use Prim.Native.Char.{code}
use live_system_intelligence.Prelude.{
  ℕ, String, Bool, true, false, not, ◌&&◌, ◌||◌, Option, none, some, List, [], ◌∷◌, map, ◌++◌,
  nat_beq, ltb, if◌then◌else◌, ◌==◌, string_eq,
}
use live_system_intelligence.Text.{strip, right_strip, len}
use live_system_intelligence.Pattern.{
  Alternative, literal, spaces, between, after_literal, skip_spaces, search_words,
}
use live_system_intelligence.Pattern.Identifier.{one_word}

abbrev pub write_patterns : List Alternative
write_patterns =
    map one_word ("CREATE" ∷ "MERGE" ∷ "SET" ∷ "DELETE" ∷ "REMOVE" ∷ "DETACH" ∷ "DROP" ∷ [])
    ++ (literal "CALL" ∷ spaces ∷ literal "apoc.periodic" ∷ [])
      ∷ (literal "CALL" ∷ spaces ∷ literal "db.schema" ∷ [])
      ∷ (literal "LOAD" ∷ spaces ∷ literal "CSV" ∷ [])
      ∷ []

abbrev pub has_brace : String → Bool
has_brace String.[] = false
has_brace (String.◌∷◌ c s) = nat_beq (code c) 125 || has_brace s

-- `[^}]+\}`
abbrev pub braced : String → Bool
braced String.[] = false
braced (String.◌∷◌ c s) = not (nat_beq (code c) 125) && has_brace s

abbrev pub in_tag : ℕ → Bool
in_tag c = between 65 90 c || nat_beq c 95

-- `[A-Z_]*>`
abbrev pub tag_rest : String → Bool
tag_rest String.[] = false
tag_rest (String.◌∷◌ c s) = nat_beq (code c) 62 || (in_tag (code c) && tag_rest s)

-- `[A-Z_]+>`
abbrev pub tagged : String → Bool
tagged String.[] = false
tagged (String.◌∷◌ c s) = in_tag (code c) && tag_rest s

abbrev pub after_dollar : String → Bool
after_dollar String.[] = false
after_dollar (String.◌∷◌ c s) = nat_beq (code c) 123 && braced s

-- `_PLACEHOLDER_PATTERNS.search(query)`
unfoldable pub has_placeholder : String → Bool
has_placeholder String.[] = false
has_placeholder (String.◌∷◌ c s) =
    (nat_beq (code c) 36 && after_dollar s)
    || (nat_beq (code c) 60 && tagged s)
    || has_placeholder s

abbrev pub write_error : String
write_error = "Query contains write operations — only read queries are permitted via NL path."

abbrev pub placeholder_error : String
placeholder_error = "Query contains unfilled placeholders — the generated Cypher is incomplete."

abbrev pub short_error : String
short_error = "Generated query is too short to be valid."

unfoldable pub validate_cypher : (ℕ → Bool) → String → Bool × String
unfolding search_words has_placeholder
validate_cypher wide query =
    if search_words wide write_patterns query
    then (false, write_error)
    else if has_placeholder query
    then (false, placeholder_error)
    else if ltb (len (strip query)) 10
    then (false, short_error)
    else (true, "")

abbrev pub or_same : String → Option String → String
or_same s none = s
or_same s (some t) = t

-- ```re.sub(r"^```(?:cypher)?\s*", "", s)```
unfoldable pub without_opening : String → String
unfolding after_literal skip_spaces
without_opening s = elim (after_literal "```" s) [
  | none ↦ s
  | some t ↦ skip_spaces (or_same t (after_literal "cypher" t))
]

-- The text before a fence at the end.
abbrev pub before_fence : String → Option String
before_fence String.[] = none
before_fence (String.◌∷◌ c s) =
    let later = before_fence s in
    if String.◌∷◌ c s == "```"
    then some ""
    else elim later [ none ↦ none | some t ↦ some (String.◌∷◌ c t) ]

-- ```re.sub(r"\s*```$", "", s)```, of a text that ends with no newline.
unfoldable pub without_closing : String → String
without_closing s = elim (before_fence s) [ none ↦ s | some t ↦ right_strip t ]

unfoldable pub clean : String → String
unfolding without_opening without_closing
clean text = strip (without_closing (without_opening (strip text)))
