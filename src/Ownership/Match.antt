-- ===== src/Ownership/Match.antt =====
-- Which rule of CODEOWNERS wins in layer4/ownership_ingester.py, and what an ingestion counts.
use live_system_intelligence.Prelude.{
  ℕ, ◌+◌, String, Option, none, some, List, [], ◌∷◌, select, length, ◌==◌, string_eq, ◌≡◌, refl,
  arith, Bool-cases, inl, inr, ◌&&◌,
}
use live_system_intelligence.Exec.Laws.{Returns, Returns-bind, Returns-then}
use live_system_intelligence.Retry.{with_attempts, with_retry}
use live_system_intelligence.Ownership.{
  OwnerRule, Sources, Summary, rule_matches, match_from, match_owners, annotate_file,
  annotate_files, ingest_files, team_of, or_empty, dominant_contributor,
}

-- The last of the rules, or else `default`.
abbrev pub last_or : Option OwnerRule → List OwnerRule → Option OwnerRule
last_or default [] = default
last_or default (rule ∷ rules) = last_or (some rule) rules

module _ {W : Type 0} (sources : Sources W) where
  match_from-eq :
      (file_path : String) (matched : Option OwnerRule) (rules : List OwnerRule)
      → match_from sources file_path matched rules
        ≡ last_or matched (select (rule_matches sources file_path) rules)
  match_from-eq file_path matched [] = refl
  match_from-eq file_path matched (rule ∷ rules) =
      elim (Bool-cases (rule_matches sources file_path rule)) [
        | inl e ↦ rw e (match_from-eq file_path (some rule) rules)
        | inr e ↦ rw e (match_from-eq file_path matched rules)
      ]

  -- `match_owners` gives the last rule of the file that matches the path, and none if none does.
  pub match_owners-eq-last_or :
      (file_path : String) (rules : List OwnerRule)
      → match_owners sources file_path rules
        ≡ last_or none (select (rule_matches sources file_path) rules)
  unfolding match_owners
  match_owners-eq-last_or file_path rules = match_from-eq file_path none rules

  abbrev Totals : ℕ → ℕ × ℕ → Type 0
  Totals n counts = counts.0 + counts.1 ≡ n

  annotate_file-Totals :
      (service : String) (rules : List OwnerRule) (counts : ℕ × ℕ) (file_path : String) (n : ℕ)
      (w : W)
      → Totals n counts
      → Returns (Totals (n + 1)) (annotate_file sources service rules counts file_path w)
  unfolding annotate_file
  annotate_file-Totals service rules (a, b) file_path n w h =
      Returns-bind (Totals (n + 1))
        (with_retry sources.timing (with_attempts 2) (dominant_contributor sources file_path)) _ w
        λ email v.
          elim (Bool-cases (
            team_of sources (match_owners sources file_path rules) == ""
            && or_empty sources email == "")) [
              | inl e ↦ rw e (omega (arith, h))
              | inr e ↦ rw e (
                  Returns-bind (Totals (n + 1))
                    (sources.annotate service file_path
                      (team_of sources (match_owners sources file_path rules))
                      (or_empty sources email))
                    _ v λ _ u. omega (arith, h))
            ]

  annotate_files-Totals :
      (service : String) (rules : List OwnerRule) (files : List String) (counts : ℕ × ℕ) (n : ℕ)
      (w : W)
      → Totals n counts
      → Returns (Totals (n + length files)) (annotate_files sources service rules files counts w)
  unfolding annotate_files
  annotate_files-Totals service rules [] counts n w h = omega (arith, h)
  annotate_files-Totals service rules (f ∷ files) counts n w h =
      Returns-then (Totals (n + 1)) (Totals (n + length (f ∷ files)))
        (annotate_file sources service rules counts f) _ w
        (annotate_file-Totals service rules counts f n w h)
        λ counts' h' v.
          let more : n + 1 + length files ≡ n + length (f ∷ files) = omega arith in
          rw (← more) (annotate_files-Totals service rules files counts' (n + 1) v h')

  abbrev pub Accounts : List String → Summary → Type 0
  Accounts files s = s.files_annotated + s.files_without_owner ≡ length files

  -- An ingestion that returns has counted each of its files once, as annotated or as without an owner.
  pub ingest_files-Accounts :
      (service : String) (rules : List OwnerRule) (files : List String) (w : W)
      → Returns (Accounts files) (ingest_files sources service rules files w)
  unfolding ingest_files
  ingest_files-Accounts service rules files w =
      Returns-then (Totals (length files)) (Accounts files)
        (annotate_files sources service rules files (0, 0)) _ w
        (rw start at (annotate_files-Totals service rules files (0, 0) 0 w refl)) λ counts h v. h
    where
      start : 0 + length files ≡ length files
      start = omega arith
