-- ===== src/Cve/Version.antt =====
-- layer3/cve_ingester.py: `_parse_version_tuple` and `version_in_range`.
use Prim.Native.Char.{code}
use live_system_intelligence.Prelude.{
  ℕ, ◌+◌, ◌-◌, ◌*◌, String, Bool, true, false, not, ◌&&◌, ◌||◌, Option, none, some, List, [], ◌∷◌,
  take, any, ltb, leb, nat_beq, ◌==◌, string_eq, if◌then◌else◌, ◌≡◌, refl, ap, arith,
}
use live_system_intelligence.Cve.{VersionRange}

-- `.`, `-` and `_`
abbrev pub is_separator : ℕ → Bool
is_separator c = nat_beq c b'.' || nat_beq c b'-' || nat_beq c b'_'

abbrev pub is_digit : ℕ → Bool
is_digit c = leb b'0' c && leb c b'9'

-- The number of a part after one more character; what is no digit is dropped.
abbrev pub next_number : ℕ → ℕ → ℕ
next_number n c = if is_separator c then 0 else if is_digit c then n * 10 + (c - b'0') else n

abbrev pub parts : ℕ → String → List ℕ
parts n String.[] = n ∷ []
parts n (String.◌∷◌ c s) =
    let rest = parts (next_number n (code c)) s in if is_separator (code c) then n ∷ rest else rest

-- At most the first four parts.
unfoldable pub parse_version_tuple : String → List ℕ
parse_version_tuple v = take 4 (parts 0 v)

-- Python's `<` of tuples.
unfoldable pub tuple_lt : List ℕ → List ℕ → Bool
tuple_lt xs [] = false
tuple_lt [] (y ∷ ys) = true
tuple_lt (x ∷ xs) (y ∷ ys) = let rest = tuple_lt xs ys in ltb x y || (nat_beq x y && rest)

-- Python's `<=` of tuples.
abbrev pub tuple_le : List ℕ → List ℕ → Bool
tuple_le xs ys = not (tuple_lt ys xs)

abbrev pub or_text : String → Option String → String
or_text default none = default
or_text default (some s) = s

-- The test of one range.
unfoldable pub in_range : List ℕ → VersionRange → Bool
unfolding parse_version_tuple
in_range v r =
    let introduced = parse_version_tuple (or_text "0" r.introduced) in
    let fixed_str = or_text "" r.fixed in
    let last_affected_str = or_text "" r.last_affected in
    if not (fixed_str == "")
    then tuple_le introduced v && tuple_lt v (parse_version_tuple fixed_str)
    else if not (last_affected_str == "")
    then tuple_le introduced v && tuple_le v (parse_version_tuple last_affected_str)
    else tuple_le introduced v

unfoldable pub version_in_range : String → List VersionRange → Bool
unfolding in_range
version_in_range version ranges = any (in_range (parse_version_tuple version)) ranges

tuple_lt_refl : (xs : List ℕ) → tuple_lt xs xs ≡ false
unfolding tuple_lt
tuple_lt_refl [] = refl
tuple_lt_refl (x ∷ xs) = ground (arith, tuple_lt_refl xs)

tuple_lt_trans :
    (xs ys zs : List ℕ) → tuple_lt xs ys ≡ true → tuple_le ys zs ≡ true → tuple_lt xs zs ≡ true
unfolding tuple_lt
tuple_lt_trans xs [] zs h k = cc
tuple_lt_trans xs (y ∷ ys) [] h k = cc
tuple_lt_trans [] (y ∷ ys) (z ∷ zs) h k = refl
tuple_lt_trans (x ∷ xs) (y ∷ ys) (z ∷ zs) h k = ground (arith, tuple_lt_trans xs ys zs)

tuple_le_trans :
    (xs ys zs : List ℕ) → tuple_le xs ys ≡ true → tuple_le ys zs ≡ true → tuple_le xs zs ≡ true
unfolding tuple_lt
tuple_le_trans [] ys [] h k = refl
tuple_le_trans [] ys (z ∷ zs) h k = refl
tuple_le_trans (x ∷ xs) [] zs h k = cc
tuple_le_trans (x ∷ xs) (y ∷ ys) [] h k = cc
tuple_le_trans (x ∷ xs) (y ∷ ys) (z ∷ zs) h k = ground (arith, tuple_le_trans xs ys zs)

le_lt_trans :
    (xs ys zs : List ℕ) → tuple_le xs ys ≡ true → tuple_lt ys zs ≡ true → tuple_lt xs zs ≡ true
unfolding tuple_lt
le_lt_trans xs ys [] h k = cc
le_lt_trans [] ys (z ∷ zs) h k = refl
le_lt_trans (x ∷ xs) [] (z ∷ zs) h k = cc
le_lt_trans (x ∷ xs) (y ∷ ys) (z ∷ zs) h k = ground (arith, le_lt_trans xs ys zs)

-- A version with the numbers of the fixing one, and every later one, is outside the range.
pub in_range-fixed :
    (r : VersionRange) (version fixed : String)
    → r.fixed ≡ some fixed
    → (fixed == "") ≡ false
    → tuple_le (parse_version_tuple fixed) (parse_version_tuple version) ≡ true
    → version_in_range version (r ∷ []) ≡ false
unfolding version_in_range in_range
in_range-fixed r version fixed e some_fix later = ground (arith, ap (or_text "") e)
