-- ===== src/Prelude/Members.antt =====
-- The members of lists of texts, and Python's sets and `sorted` over them.
use Prim.Native.Char.{code}
use live_system_intelligence.Prelude.{
  String, Bool, true, false, ◌&&◌, ◌||◌, List, [], ◌∷◌, ◌++◌, any, select, contains, ltb, nat_beq,
  if◌then◌else◌, ◌==◌, ==_iff, string_eq, ◌≡◌, refl, ap, arith, Bool-cases, inl, inr,
}

pub any-of_contains :
    (p : String → Bool) (x : String) (xs : List String)
    → contains x xs ≡ true
    → p x ≡ true
    → any p xs ≡ true
any-of_contains p x [] m h = m
any-of_contains p x (y ∷ ys) m h = ground (arith, any-of_contains p x ys, ==_iff x y)

pub witness_of-any :
    (p : String → Bool) (xs : List String)
    → any p xs ≡ true
    → (x : String) × (contains x xs ≡ true) × (p x ≡ true)
witness_of-any p [] h = ("", h, cc)
witness_of-any p (y ∷ ys) h = elim (Bool-cases (p y)) [
  | inl here ↦ (y, ground (arith, ==_iff y y), here)
  | inr there ↦ let (x, m, q) = witness_of-any p ys (ground arith) in (x, ground arith, q)
]

-- Python's `<=` of texts.
abbrev pub text_leb : String → String → Bool
text_leb String.[] t = true
text_leb (String.◌∷◌ c s) String.[] = false
text_leb (String.◌∷◌ c s) (String.◌∷◌ d t) =
    let rest = text_leb s t in ltb (code c) (code d) || (nat_beq (code c) (code d) && rest)

abbrev pub place : String → List String → List String
place x [] = x ∷ []
place x (y ∷ ys) = let rest = place x ys in if text_leb x y then x ∷ y ∷ ys else y ∷ rest

-- `sorted`
unfoldable pub sorted : List String → List String
sorted [] = []
sorted (x ∷ xs) = place x (sorted xs)

contains-place :
    (s x : String) (xs : List String) → contains s (place x xs) ≡ (s == x || contains s xs)
contains-place s x [] = refl
contains-place s x (y ∷ ys) = ground (arith, contains-place s x ys)

pub contains-sorted : (s : String) (xs : List String) → contains s (sorted xs) ≡ contains s xs
unfolding sorted
contains-sorted s [] = refl
contains-sorted s (x ∷ xs) = ground (arith, contains-place s x (sorted xs), contains-sorted s xs)

pub contains-append :
    (s : String) (xs ys : List String) → contains s (xs ++ ys) ≡ (contains s xs || contains s ys)
contains-append s [] ys = refl
contains-append s (x ∷ xs) ys = ground (arith, contains-append s xs ys)

pub contains-select :
    (p : String → Bool) (s : String) (xs : List String)
    → contains s (select p xs) ≡ (contains s xs && p s)
contains-select p s [] = refl
contains-select p s (x ∷ xs) = elim (Bool-cases (p x)) [
  | inl e ↦ rw e (elim (Bool-cases (s == x)) [
    | inl same ↦ ground (arith, same, e, ap p ((==_iff s x).0 same))
    | inr other ↦ ground (arith, other, contains-select p s xs)
  ])
  | inr e ↦ rw e (elim (Bool-cases (s == x)) [
    | inl same ↦ ground (arith, same, e, ap p ((==_iff s x).0 same), contains-select p s xs)
    | inr other ↦ ground (arith, other, contains-select p s xs)
  ])
]
