-- ===== src/CodeApi/Breakdown.antt =====
-- The breakdown of a refresh in layer1/code_api.py.
use live_system_intelligence.Prelude.{
  ℕ, ◌+◌, String, Bool, true, false, some, List, [], ◌∷◌, select, length, All, ◌==◌, ==_iff,
  ==_refl, string_eq, Bool-cases, inl, inr, ◌≡◌, refl, ap, ◌∙◌, arith, if◌then◌else◌,
}
use live_system_intelligence.Prelude.Dict.{Dict, lookup, insert, lookup-insert}
use live_system_intelligence.Exec.{Result, ok}
use live_system_intelligence.Reachability.{value, ReachabilityResult}
use live_system_intelligence.CodeApi.Security.{or_zero, count_in, zeros, tally, breakdown}

abbrev pub has_label : String → ReachabilityResult → Bool
has_label label r = label == value r.reachability

count_in-insert :
    (label key : String) (n : ℕ) (d : Dict String ℕ)
    → count_in label (insert key n d) ≡ (if label == key then n else count_in label d)
count_in-insert label key n d = ap or_zero (lookup-insert label key n d) ∙ spread (label == key)
  where
    spread :
        (b : Bool)
        → or_zero (if b then some n else lookup label d) ≡ (if b then n else count_in label d)
    spread true = refl
    spread false = refl

-- What is stored for a label: 0 if some result has it.
count_in-zeros :
    (label : String) (results : List ReachabilityResult) (d : Dict String ℕ)
    → count_in label d ≡ 0
    → count_in label (zeros results d) ≡ 0
unfolding zeros
count_in-zeros label [] d h = h
count_in-zeros label (r ∷ results) d h =
    count_in-zeros label results (insert (value r.reachability) 0 d)
      (ground (arith, h, count_in-insert label (value r.reachability) 0 d))

-- The key has a count.
abbrev Has : Dict String ℕ → String → Type 0
Has d key = (n : ℕ) × (lookup key d ≡ some n)

insert-Has :
    (key label : String) (n : ℕ) (d : Dict String ℕ) → Has d label → Has (insert key n d) label
insert-Has key label n d (m, e) = elim (Bool-cases (label == key)) [
  | inl same ↦ (n, rw (lookup-insert label key n d, same) refl)
  | inr other ↦ (m, rw (lookup-insert label key n d, other) e)
]

zeros-keeps :
    (results : List ReachabilityResult) (d : Dict String ℕ) (label : String)
    → Has d label
    → Has (zeros results d) label
unfolding zeros
zeros-keeps [] d label h = h
zeros-keeps (r ∷ results) d label h =
    zeros-keeps results (insert (value r.reachability) 0 d) label (insert-Has _ label 0 d h)

-- Each result finds its label in the dict.
abbrev Prepared : Dict String ℕ → List ReachabilityResult → Type 0
Prepared d = All (λ r. Has d (value r.reachability))

zeros-Prepared :
    (results : List ReachabilityResult) (d : Dict String ℕ) → Prepared (zeros results d) results
unfolding zeros
zeros-Prepared [] d = tt
zeros-Prepared (r ∷ results) d =
    let key = value r.reachability in
    (
      zeros-keeps results (insert key 0 d) key
          (0, rw (lookup-insert key key 0 d, ==_refl key) refl),
      zeros-Prepared results (insert key 0 d),
    )

insert-Prepared :
    (key : String) (n : ℕ) (d : Dict String ℕ) (results : List ReachabilityResult)
    → Prepared d results
    → Prepared (insert key n d) results
insert-Prepared key n d [] h = tt
insert-Prepared key n d (r ∷ results) h =
    (insert-Has key (value r.reachability) n d h.0, insert-Prepared key n d results h.1)

-- The dict that a computation returns has these counts on top of those of another.
abbrev pub Counts : List ReachabilityResult → Dict String ℕ → Result (Dict String ℕ) → Type 0
Counts results d r =
    (summary : Dict String ℕ) × (r ≡ ok summary)
    × ((label : String)
        → count_in label summary ≡ count_in label d + length (select (has_label label) results))

tally-Counts :
    (results : List ReachabilityResult) (d : Dict String ℕ)
    → Prepared d results
    → Counts results d (tally results d)
unfolding tally
tally-Counts [] d h = (d, refl, λ label. omega arith)
tally-Counts (r ∷ results) d ((n, e), h) =
    let key = value r.reachability in
    let d' = insert key (n + 1) d in
    let (summary, returned, counts) =
      tally-Counts results d' (insert-Prepared key (n + 1) d results h) in
    (
      summary,
      rw (tally, e) returned,
      λ label. ground (
        arith,
        counts label,
        count_in-insert label key (n + 1) d,
        ap or_zero e,
        ==_iff label key,
      ),
    )

-- The breakdown of a refresh is always returned, no label is missing, and it gives for each label
-- the number of the results that have it.
pub breakdown-Counts : (results : List ReachabilityResult) → Counts results [] (breakdown results)
unfolding breakdown lookup
breakdown-Counts results =
    let start = zeros results [] in
    let (summary, returned, counts) = tally-Counts results start (zeros-Prepared results []) in
    (summary, returned, λ label. omega (arith, counts label, count_in-zeros label results [] refl))
