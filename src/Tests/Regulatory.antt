-- ===== src/Tests/Regulatory.antt =====
-- layer4/regulatory_annotator.py, at two pieces of evidence for the same scopes.
use live_system_intelligence.Prelude.{◌&&◌, [], ◌∷◌, contains, string_eq, ◌≡◌, refl}
use live_system_intelligence.Prelude.Members.{sorted}
use live_system_intelligence.Regulatory.{ScopeEvidence, scopes, combined}
use live_system_intelligence.Regulatory.Combined.{gives, combined-contains}

abbrev annotated : ScopeEvidence
annotated = record {
  annotation_scopes = "PCI" ∷ "GDPR" ∷ "PCI" ∷ [];
  pii_scopes = "ISO" ∷ [];
  name_scopes = [];
}

abbrev derived : ScopeEvidence
derived = record {
  annotation_scopes = [];
  pii_scopes = "GDPR" ∷ [];
  name_scopes = "ISO" ∷ "PCI" ∷ [];
}

-- The scope NONE of an annotation stands beside the others.
none_beside :
    combined
      (λ xs. xs)
      (record { annotation_scopes = "NONE" ∷ []; pii_scopes = "GDPR" ∷ []; name_scopes = [] })
    ≡ "GDPR" ∷ "NONE" ∷ []
unfolding combined sorted
none_beside = refl

combined-contains_example :
    contains "ISO" (combined (λ xs. xs) annotated)
    ≡ (contains "ISO" scopes && gives annotated "ISO")
combined-contains_example = combined-contains (λ xs. xs) (λ xs x. refl) annotated "ISO"
