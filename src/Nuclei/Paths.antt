-- ===== src/Nuclei/Paths.antt =====
-- The paths of layer3/nuclei_runner.py: those of the findings, and the pattern of one.
use Prim.Native.Char.{code}
use Prim.Native.Nat.{Ordering}
use Prim.Native.String.{compare}
use live_system_intelligence.Prelude.{
  ℕ, zero, suc, String, ◌<>◌, Bool, true, false, ◌&&◌, ◌||◌, Option, none, some, List, [], ◌∷◌,
  nat_beq, ◌==◌, string_eq, if◌then◌else◌,
}
use live_system_intelligence.Prelude.Dict.{Dict, insert}
use live_system_intelligence.Exec.{Result, ok, err}
use live_system_intelligence.Text.{right_strip_of, strip}
use live_system_intelligence.Pattern.{between}
use live_system_intelligence.Nuclei.{Finding, Sources}

abbrev pub before : String → String → Bool
before p q = elim (compare p q) [ Ordering.lt ↦ true | _ ↦ false ]

-- A path among others, in order and without repetition.
unfoldable pub insert_path : String → List String → List String
insert_path p [] = p ∷ []
insert_path p (q ∷ qs) =
    if p == q then q ∷ qs else if before p q then p ∷ q ∷ qs else q ∷ insert_path p qs

-- `path.rstrip("/") or "/"`
abbrev pub normalised : String → String
normalised path = let trimmed = right_strip_of 47 path in if trimmed == "" then "/" else trimmed

abbrev pub add_path : Result String → List String → List String
add_path (ok path) paths = insert_path (normalised path) paths
add_path (err e) paths = paths

module _ {W : Type 0} (sources : Sources W) where
  unfoldable pub parse_nuclei_output : List String → List Finding
  parse_nuclei_output [] = []
  parse_nuclei_output (line ∷ lines) =
      let rest = parse_nuclei_output lines in
      if strip line == ""
      then rest
      else elim (sources.loads (strip line)) [ none ↦ rest | some item ↦ item ∷ rest ]

  -- `sorted` of the set of the paths.
  unfoldable pub extract_paths : List Finding → List String
  unfolding insert_path
  extract_paths [] = []
  extract_paths (item ∷ items) =
      let paths = extract_paths items in
      if item.matched_at == "" then paths else add_path (sources.url_path item.matched_at) paths

  abbrev pub put : Finding → Result String → Dict String Finding → Result (Dict String Finding)
  put f (ok path) d = ok (insert path f d)
  put f (err e) d = err e

  abbrev pub add_finding : Finding → Result (Dict String Finding) → Result (Dict String Finding)
  add_finding f (ok d) =
      if f.matched_at == "" then ok d else put f (sources.url_path f.matched_at) d
  add_finding f (err e) = err e

  -- The dict of the findings by path, as the path is in the address: a later finding replaces an earlier
  -- one, and an address that `urlparse` refuses raises.
  unfoldable pub finding_by_path :
      List Finding → Result (Dict String Finding) → Result (Dict String Finding)
  unfolding insert
  finding_by_path [] d = d
  finding_by_path (f ∷ findings) d = finding_by_path findings (add_finding f d)

abbrev pub is_digit : ℕ → Bool
is_digit c = between 48 57 c

abbrev pub starts_digit : String → Bool
starts_digit String.[] = false
starts_digit (String.◌∷◌ c s) = is_digit (code c)

-- `re.sub(r"/\d+", "/{id}", path)`; `within` says that the digits of a match are being left out.
unfoldable pub number_segments : Bool → String → String
number_segments within String.[] = ""
number_segments within (String.◌∷◌ c s) =
    let skipped = number_segments true s in
    let kept = number_segments false s in
    if within && is_digit (code c)
    then skipped
    else if nat_beq (code c) 47 && starts_digit s
    then "/{id}" <> skipped
    else String.◌∷◌ c kept

abbrev pub is_hex : ℕ → Bool
is_hex c = between 48 57 c || between 65 70 c || between 97 102 c

-- What is left after `n` hexadecimal digits, or after a dash.
abbrev pub after_hex : ℕ → Option String → Option String
after_hex zero o = o
after_hex (suc n) none = none
after_hex (suc n) (some String.[]) = none
after_hex (suc n) (some (String.◌∷◌ c s)) = after_hex n (if is_hex (code c) then some s else none)

abbrev pub after_dash : Option String → Option String
after_dash none = none
after_dash (some String.[]) = none
after_dash (some (String.◌∷◌ c s)) = if nat_beq (code c) 45 then some s else none

abbrev pub is_some : Option String → Bool
is_some none = false
is_some (some s) = true

abbrev pub starts_uuid : String → Bool
starts_uuid s = is_some (
    after_hex 12 (
      after_dash (
        after_hex 4 (
          after_dash
            (after_hex 4 (after_dash (after_hex 4 (after_dash (after_hex 8 (some s))))))))))

-- The substitution of a UUID, which has 36 characters; `left` of a match are still to be left out.
unfoldable pub uuid_segments : ℕ → String → String
uuid_segments left String.[] = ""
uuid_segments (suc left) (String.◌∷◌ c s) = uuid_segments left s
uuid_segments zero (String.◌∷◌ c s) =
    let skipped = uuid_segments 36 s in
    let kept = uuid_segments zero s in
    if nat_beq (code c) 47 && starts_uuid s then "/{uuid}" <> skipped else String.◌∷◌ c kept

unfoldable pub path_to_pattern : String → String
unfolding number_segments uuid_segments
path_to_pattern path = uuid_segments 0 (number_segments false path)
