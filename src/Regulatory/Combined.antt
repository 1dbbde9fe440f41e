-- ===== src/Regulatory/Combined.antt =====
-- The scopes that the evidence of layer4/regulatory_annotator.py gives.
use live_system_intelligence.Prelude.{
  String, Bool, true, not, ◌&&◌, ◌||◌, List, [], ◌∷◌, any, contains, is_empty, ◌==◌, ==_refl,
  string_eq, if◌then◌else◌, ◌≡◌, refl, arith, Bool-cases, inl, inr,
}
use live_system_intelligence.Prelude.Members.{
  contains-select, contains-append, contains-sorted, any-of_contains, witness_of-any,
}
use live_system_intelligence.Regulatory.{
  ScopeEvidence, scopes, all_scopes, found, combined, or_none, KeepsMembers,
}

-- One of the three kinds of evidence gives the scope.
abbrev pub gives : ScopeEvidence → String → Bool
gives e scope =
    contains scope e.annotation_scopes
    || contains scope e.pii_scopes
    || contains scope e.name_scopes

module _ (unique : List String → List String) (keeps : KeepsMembers unique)
    (e : ScopeEvidence) where
  found-contains : (s : String) → contains s (found unique e) ≡ (contains s scopes && gives e s)
  found-contains s =
      rw
        (
          contains-sorted s,
          contains-select (λ scope. contains scope scopes) s (all_scopes unique e),
          keeps,
          contains-append s,
          contains-append s,
        )
        (ground arith)

  some_found :
      (xs : List String)
      → ((s : String) → contains s xs ≡ (contains s scopes && gives e s))
      → is_empty xs ≡ not (any (gives e) scopes)
  some_found [] members = elim (Bool-cases (any (gives e) scopes)) [
    | inl some_scope ↦
        let (s, known, given) = witness_of-any (gives e) scopes some_scope in
        ground (arith, members s, known, given)
    | inr none_given ↦ rw none_given refl
  ]
  some_found (x ∷ xs) members =
      let here : contains x (x ∷ xs) ≡ true = ground (arith, ==_refl x) in
      let both = members x in ground (arith, both, here, any-of_contains (gives e) x scopes)

  or_none-contains :
      (s : String) (result : List String)
      → contains s (or_none result) ≡ (if is_empty result then s == "NONE" else contains s result)
  or_none-contains s [] = ground arith
  or_none-contains s (x ∷ xs) = refl

  -- With any order of Python's sets, a service has a scope exactly when it is a known one and some of
  -- the three kinds of evidence gives it, and, where none of them gives a known one, when it is NONE.
  pub combined-contains :
      (s : String)
      → contains s (combined unique e)
        ≡ (if any (gives e) scopes then contains s scopes && gives e s else s == "NONE")
  unfolding combined
  combined-contains s =
      rw
        (
          or_none-contains s (found unique e),
          some_found (found unique e) found-contains,
          found-contains s,
        )
        (ground arith)
