-- ===== src/Pattern/Identifier.antt =====
-- The search of Pattern.antt on an identifier, as a language's `(\w+)` finds them.
use Prim.Native.Char.{Char, code}
use live_system_intelligence.Prelude.{
  ℕ, String, Bool, true, false, not, ◌&&◌, ◌||◌, List, [], ◌∷◌, map, nat_beq, any, ◌≡◌, refl, ap,
  Bool-cases, Option-cases, inl, inr,
}
use live_system_intelligence.Pattern.{
  Alternative, literal, fold, is_word, after_literal, after_piece, after_pieces, word_ends,
  starts_here, search_from, search_words,
}

-- The same text but for the case.
abbrev pub same_word : String → String → Bool
same_word String.[] String.[] = true
same_word (String.◌∷◌ c p) (String.◌∷◌ d s) =
    nat_beq (fold (code c)) (fold (code d)) && same_word p s
same_word _ _ = false

abbrev pub one_word : String → Alternative
one_word w = literal w ∷ []

module _ (wide : ℕ → Bool) where
  -- All of its characters are of words.
  abbrev pub Identifier : String → Type 0
  Identifier String.[] = Unit
  Identifier (String.◌∷◌ c s) = (is_word wide (code c) ≡ true) × Identifier s

  word_ends-after_literal :
      (w s : String) → Identifier s → word_ends wide (after_literal w s) ≡ same_word w s
  unfolding after_literal
  word_ends-after_literal String.[] String.[] h = refl
  word_ends-after_literal String.[] (String.◌∷◌ d s) (hd, h) = ap not hd
  word_ends-after_literal (String.◌∷◌ c w) String.[] h = refl
  word_ends-after_literal (String.◌∷◌ c w) (String.◌∷◌ d s) (hd, h) =
      elim (Bool-cases (nat_beq (fold (code c)) (fold (code d)))) [
        | inl e ↦ rw e (word_ends-after_literal w s h)
        | inr e ↦ rw e refl
      ]

  word_ends-one_word :
      (w s : String)
      → word_ends wide (after_pieces (one_word w) s) ≡ word_ends wide (after_literal w s)
  unfolding after_pieces after_piece
  word_ends-one_word w s = elim (Option-cases (after_literal w s)) [
    | inl e ↦ rw (after_pieces, after_piece, e) refl
    | inr (rest, e) ↦ rw (after_pieces, after_piece, e) refl
  ]

  starts_here-words :
      (ws : List String) (s : String)
      → Identifier s
      → starts_here wide (map one_word ws) s ≡ any (λ w. same_word w s) ws
  unfolding starts_here
  starts_here-words [] s h = refl
  starts_here-words (w ∷ ws) s h =
      rw (word_ends-one_word w s, word_ends-after_literal w s h)
        (ap (λ b. same_word w s || b) (starts_here-words ws s h))

  search_from-inside :
      (alternatives : List Alternative) (s : String)
      → Identifier s
      → search_from wide true alternatives s ≡ false
  unfolding search_from
  search_from-inside alternatives String.[] h = refl
  search_from-inside alternatives (String.◌∷◌ c s) (hc, h) =
      rw hc (search_from-inside alternatives s h)

  -- In an identifier that is not empty, a list of words is found exactly when the whole of it is one
  -- of them, but for the case.
  pub search_words-Identifier :
      (ws : List String) (c : Char) (s : String)
      → Identifier (String.◌∷◌ c s)
      → search_words wide (map one_word ws) (String.◌∷◌ c s)
        ≡ any (λ w. same_word w (String.◌∷◌ c s)) ws
  unfolding search_words search_from
  search_words-Identifier ws c s (hc, h) =
      rw
        (
          hc,
          starts_here-words ws (String.◌∷◌ c s) (hc, h),
          search_from-inside (map one_word ws) s h,
        )
        (or_false (any (λ w. same_word w (String.◌∷◌ c s)) ws))
    where
      or_false : (b : Bool) → (b || false) ≡ b
      or_false true = refl
      or_false false = refl
