-- ===== src/Regulatory.antt =====
-- layer4/regulatory_annotator.py: the regulatory scope of a service. The scan of a repository, the
-- patterns of service names, and the queries are the record `Sources`; `unique` is `list` of a set.
pub mod Combined
use live_system_intelligence.Prelude.{
  ℕ, String, Bool, true, false, not, ◌&&◌, ◌||◌, Option, none, some, List, [], ◌∷◌, ◌++◌, select,
  contains, is_empty, ◌==◌, string_eq, ◌≡◌, if◌then◌else◌,
}
use live_system_intelligence.Prelude.Dict.{Dict, lookup}
use live_system_intelligence.Prelude.Members.{sorted}
use live_system_intelligence.Exec.{Exec, pure, ◌>>=◌, ◌>>◌, for_each}

pub record ScopeEvidence : Type 0 where
  pub annotation_scopes : List String
  pub pii_scopes : List String
  pub name_scopes : List String

pub record Sources (W : Type 0) : Type 0 where
  pub scan_repo : String → Exec W (List String)
  pub pii_types : String → Exec W (List String)
  pub name_matches : String → String → Bool
  pub unique : List String → List String
  pub write_regulatory_scope : String → List String → String → Exec W Unit
  pub annotate_pci : String → Exec W (List ℕ)
  pub annotate_hipaa : String → Exec W (List ℕ)
  pub service_ids : Exec W (List String)

pub record Summary : Type 0 where
  pub service : String
  pub regulatory_scope : List String
  pub confidence : String
  pub evidence : ScopeEvidence
  pub pci_endpoints_marked : ℕ
  pub hipaa_endpoints_marked : ℕ

abbrev pub scopes : List String
scopes = "PCI" ∷ "HIPAA" ∷ "GDPR" ∷ "SOC2" ∷ "NONE" ∷ []

-- What is known of the order of a set: it has the members of the list that it is made of.
abbrev pub KeepsMembers : (List String → List String) → Type 0
KeepsMembers unique = (xs : List String) (x : String) → contains x (unique xs) ≡ contains x xs

abbrev pub or_none : List String → List String
or_none result = if is_empty result then "NONE" ∷ [] else result

module _ (unique : List String → List String) (e : ScopeEvidence) where
  -- The union of the three sets.
  abbrev pub all_scopes : List String
  all_scopes = unique (e.annotation_scopes ++ (e.pii_scopes ++ e.name_scopes))

  -- `sorted(all_scopes & SCOPES)`
  abbrev pub found : List String
  found = sorted (select (λ scope. contains scope scopes) all_scopes)

  unfoldable pub combined : List String
  unfolding sorted
  combined = or_none found

unfoldable pub confidence_of : ScopeEvidence → String
confidence_of e =
    if not (is_empty e.annotation_scopes)
    then "HIGH"
    else if not (is_empty e.pii_scopes)
    then "MEDIUM"
    else "LOW"

abbrev pub pii_to_scope : Dict String (List String)
pii_to_scope =
    ("CREDIT_CARD", "PCI" ∷ [])
    ∷ ("BANK_ACCOUNT", "PCI" ∷ [])
    ∷ ("SSN", "HIPAA" ∷ "GDPR" ∷ [])
    ∷ ("HEALTH_DATA", "HIPAA" ∷ [])
    ∷ ("MEDICAL_ID", "HIPAA" ∷ [])
    ∷ ("EMAIL", "GDPR" ∷ [])
    ∷ ("PHONE", "GDPR" ∷ [])
    ∷ ("PERSON_NAME", "GDPR" ∷ [])
    ∷ ("LOCATION", "GDPR" ∷ [])
    ∷ ("DATE_OF_BIRTH", "GDPR" ∷ "HIPAA" ∷ [])
    ∷ ("GOVERNMENT_ID", "GDPR" ∷ [])
    ∷ ("SENSITIVE_DEMOGRAPHIC", "GDPR" ∷ [])
    ∷ ("IP_ADDRESS", "GDPR" ∷ [])
    ∷ ("CREDENTIAL", "SOC2" ∷ [])
    ∷ ("FINANCIAL", "PCI" ∷ "SOC2" ∷ [])
    ∷ []

abbrev pub or_nil : Option (List String) → List String
or_nil none = []
or_nil (some xs) = xs

abbrev pub scopes_of_types : List String → List String
scopes_of_types [] = []
scopes_of_types (pii_type ∷ pii_types) =
    or_nil (lookup pii_type pii_to_scope) ++ scopes_of_types pii_types

abbrev pub first_count : List ℕ → ℕ
first_count [] = 0
first_count (cnt ∷ rows) = cnt

abbrev pub name_scopes : List String
name_scopes = "PCI" ∷ "HIPAA" ∷ "GDPR" ∷ "SOC2" ∷ []

module _ {W : Type 0} (sources : Sources W) where
  unfoldable pub derive_scope_from_pii_fields : String → Exec W (List String)
  unfolding lookup
  derive_scope_from_pii_fields service = do
    rows ← sources.pii_types service
    pure (sources.unique (scopes_of_types rows))

  unfoldable pub derive_scope_from_service_name : String → List String
  derive_scope_from_service_name service_name =
      sources.unique (select (λ scope. sources.name_matches scope service_name) name_scopes)

  -- No repository, or an empty path, has no annotations.
  abbrev pub annotations_of : Option String → Exec W (List String)
  annotations_of none = pure []
  annotations_of (some repo_dir) = if repo_dir == "" then pure [] else sources.scan_repo repo_dir

  unfoldable pub annotate : String → Option String → Exec W Summary
  unfolding derive_scope_from_pii_fields derive_scope_from_service_name combined confidence_of
  annotate service repo_dir = do
    annotation_scopes ← annotations_of repo_dir
    pii_scopes ← derive_scope_from_pii_fields service
    let evidence : ScopeEvidence = record {
      annotation_scopes = annotation_scopes;
      pii_scopes = pii_scopes;
      name_scopes = derive_scope_from_service_name service;
    }
    sources.write_regulatory_scope service (combined sources.unique evidence)
        (confidence_of evidence)
    pci ← sources.annotate_pci service
    hipaa ← sources.annotate_hipaa service
    pure (record {
      service = service;
      regulatory_scope = combined sources.unique evidence;
      confidence = confidence_of evidence;
      evidence = evidence;
      pci_endpoints_marked = first_count pci;
      hipaa_endpoints_marked = first_count hipaa;
    })

  unfoldable pub annotate_all_services : Dict String String → Exec W (List Summary)
  unfolding annotate lookup
  annotate_all_services repo_dirs = do
    services ← sources.service_ids
    for_each (λ svc. annotate svc (lookup svc repo_dirs)) services
