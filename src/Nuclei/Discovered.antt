-- ===== src/Nuclei/Discovered.antt =====
-- Which paths a scan of layer3/nuclei_runner.py discovers, and which finding describes each.
use mathlib.Core.Path.{subst}
use live_system_intelligence.Prelude.{
  String, Bool, false, not, ◌&&◌, ◌||◌, Option, none, some, List, [], ◌∷◌, any, contains, ◌==◌,
  ==_iff, string_eq, if◌then◌else◌, ◌≡◌, refl, ◌∙◌, ap, arith, Bool-cases, inl, inr,
}
use live_system_intelligence.Prelude.Dict.{Dict, lookup, lookup-insert}
use live_system_intelligence.Exec.{Result, ok, err}
use live_system_intelligence.Nuclei.{Finding, Sources}
use live_system_intelligence.Nuclei.Paths.{
  insert_path, normalised, add_path, extract_paths, put, add_finding, finding_by_path,
}

contains-insert_path :
    (p q : String) (qs : List String) → contains p (insert_path q qs) ≡ (p == q || contains p qs)
unfolding insert_path
contains-insert_path p q [] = refl
contains-insert_path p q (r ∷ qs) =
    ground (arith, contains-insert_path p q qs, ==_iff p q, ==_iff q r, ==_iff p r)

-- The path of an address, when it has one.
abbrev pub normalises_to : String → Result String → Bool
normalises_to p (ok path) = p == normalised path
normalises_to p (err e) = false

contains-add_path :
    (p : String) (r : Result String) (paths : List String)
    → contains p (add_path r paths) ≡ (normalises_to p r || contains p paths)
contains-add_path p (ok path) paths = contains-insert_path p (normalised path) paths
contains-add_path p (err e) paths = refl

abbrev pub is_path : String → Result String → Bool
is_path p (ok path) = p == path
is_path p (err e) = false

module _ {W : Type 0} (sources : Sources W) where
  abbrev pub is_found_at : String → Finding → Bool
  is_found_at p item =
      not (item.matched_at == "") && normalises_to p (sources.url_path item.matched_at)

  -- A path is discovered exactly when it is, without the slashes at its end, that of the address of some
  -- finding which has an address that can be parsed.
  pub extract_paths-contains :
      (p : String) (items : List Finding)
      → contains p (extract_paths sources items) ≡ any (is_found_at p) items
  unfolding extract_paths
  extract_paths-contains p [] = refl
  extract_paths-contains p (item ∷ items) = elim (Bool-cases (item.matched_at == "")) [
    | inl e ↦ rw e (extract_paths-contains p items)
    | inr e ↦ rw e (
        contains-add_path p (sources.url_path item.matched_at) (extract_paths sources items)
        ∙ ap (λ b. normalises_to p (sources.url_path item.matched_at) || b)
            (extract_paths-contains p items))
  ]

  abbrev pub later_at : String → Finding → Option Finding → Option Finding
  later_at p f last =
      if not (f.matched_at == "") && is_path p (sources.url_path f.matched_at) then some f else last

  -- The last finding whose address has exactly this path, or else the one before.
  abbrev pub last_at : String → Option Finding → List Finding → Option Finding
  last_at p last [] = last
  last_at p last (f ∷ findings) = last_at p (later_at p f last) findings

  abbrev HasAt : String → Option Finding → Result (Dict String Finding) → Type 0
  HasAt p o (ok d) = lookup p d ≡ o
  HasAt p o (err e) = Unit

  put-HasAt :
      (p : String) (f : Finding) (o : Option Finding) (r : Result String) (d : Dict String Finding)
      → lookup p d ≡ o
      → HasAt p (if is_path p r then some f else o) (put sources f r d)
  put-HasAt p f o (ok path) d h =
      lookup-insert p path f d ∙ ap (λ q. if p == path then some f else q) h
  put-HasAt p f o (err e) d h = tt

  add_finding-HasAt :
      (p : String) (f : Finding) (o : Option Finding) (r : Result (Dict String Finding))
      → HasAt p o r
      → HasAt p (later_at p f o) (add_finding sources f r)
  add_finding-HasAt p f o (err e) h = tt
  add_finding-HasAt p f o (ok d) h = elim (Bool-cases (f.matched_at == "")) [
    | inl e ↦ rw e h
    | inr e ↦ rw e (put-HasAt p f o (sources.url_path f.matched_at) d h)
  ]

  finding_by_path-HasAt :
      (p : String) (findings : List Finding) (o : Option Finding) (r : Result (Dict String Finding))
      → HasAt p o r
      → HasAt p (last_at p o findings) (finding_by_path sources findings r)
  unfolding finding_by_path
  finding_by_path-HasAt p [] o r h = h
  finding_by_path-HasAt p (f ∷ findings) o r h =
      finding_by_path-HasAt p findings (later_at p f o) (add_finding sources f r)
        (add_finding-HasAt p f o r h)

  -- When the dict of the findings by path is made without an exception, what it holds at a path is the
  -- last finding whose address has exactly that path, and nothing if there is none.
  pub finding_by_path-lookup :
      (p : String) (findings : List Finding) (d : Dict String Finding)
      → finding_by_path sources findings (ok []) ≡ ok d
      → lookup p d ≡ last_at p none findings
  unfolding lookup
  finding_by_path-lookup p findings d e =
      subst (HasAt p (last_at p none findings)) e
        (finding_by_path-HasAt p findings none (ok []) refl)
