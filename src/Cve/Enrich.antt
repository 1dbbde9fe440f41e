-- ===== src/Cve/Enrich.antt =====
-- layer3/cve_ingester.py: the EPSS scores, the KEV feed, and the severity of an advisory.
use live_system_intelligence.Prelude.{
  ℕ, ◌-◌, String, Bool, true, false, not, ◌||◌, Option, none, some, List, [], ◌∷◌, contains, ltb,
  leb, ◌==◌, string_eq, if◌then◌else◌, ◌≡◌, refl, Bool-cases, inl, inr,
}
use live_system_intelligence.Prelude.Dict.{lookup, insert}
use live_system_intelligence.Exec.{ok, Exec, pure, try_except, ◌>>=◌}
use live_system_intelligence.Exec.Laws.{Succeeds, Succeeds-then, Succeeds-try_except}
use live_system_intelligence.Retry.{Timing, with_attempts, with_retry}
use live_system_intelligence.Text.{starts_with, occurs, count_of}
use live_system_intelligence.Cve.{OsvRecord, Ingester, Feeds}

-- `_cvss_base_score`, in tenths.
unfoldable pub cvss_base_score : String → ℕ
cvss_base_score vector =
    let high_impact = count_of ":H" vector in
    let critical_impact = count_of ":C" vector in
    if leb 3 high_impact || leb 1 critical_impact
    then 90
    else if leb 2 high_impact
    then 75
    else if leb 1 high_impact
    then 55
    else 35

unfoldable pub cvss_to_severity : ℕ → String
cvss_to_severity score =
    if leb 90 score
    then "CRITICAL"
    else if leb 70 score
    then "HIGH"
    else if leb 40 score
    then "MEDIUM"
    else "LOW"

-- `_first_cve`
unfoldable pub first_cve : List String → Option String
first_cve [] = none
first_cve (alias ∷ aliases) =
    let later = first_cve aliases in if starts_with "CVE-" alias then some alias else later

abbrev pub severities : List String
severities = "CRITICAL" ∷ "HIGH" ∷ "MEDIUM" ∷ "LOW" ∷ []

module _ {W : Type 0} (feeds : Feeds W) where
  -- A call of the outside, which leaves the caches alone.
  abbrev pub outside : {A : Type 0} → Exec W A → Exec (Ingester W) A
  outside m s = let (r, w) = m s.world in (r, record s { world = w })

  abbrev pub timing : Timing (Ingester W)
  timing = record {
    uniform =
        λ d s. let (jitter, w) = feeds.timing.uniform d s.world in (jitter, record s { world = w });
    sleep = λ d s. record s { world = feeds.timing.sleep d s.world };
  }

  -- The first item's score goes to the cache; no item is no score.
  abbrev pub remember : String → List ℕ → Exec (Ingester W) ℕ
  remember cve_id [] s = (ok 0, s)
  remember cve_id (score ∷ more) s =
      (ok score, record s { epss_cache = insert cve_id score s.epss_cache })

  unfoldable pub request_epss : String → Exec (Ingester W) ℕ
  unfolding with_retry
  request_epss cve_id =
      try_except
        (with_retry timing (with_attempts 3)
          (do items ← outside (feeds.epss_scores cve_id); remember cve_id items))
        (λ e. pure 0)

  abbrev pub from_cache : String → Option ℕ → Exec (Ingester W) ℕ
  from_cache cve_id (some score) = pure score
  from_cache cve_id none = request_epss cve_id

  unfoldable pub fetch_epss : String → Exec (Ingester W) ℕ
  unfolding request_epss
  fetch_epss cve_id s =
      if cve_id == "" || not (starts_with "CVE-" cve_id)
      then (ok 0, s)
      else from_cache cve_id (lookup cve_id s.epss_cache) s

  abbrev pub is_fresh : ℕ → Option ℕ → Bool
  is_fresh now none = false
  is_fresh now (some loaded_at) = ltb (now - loaded_at) 86400

  abbrev pub store_kev : ℕ → List String → Exec (Ingester W) Unit
  store_kev now ids s = (ok tt, record s { kev_set = ids; kev_loaded_at = some now })

  unfoldable pub refresh_kev : ℕ → Exec (Ingester W) Unit
  unfolding with_retry
  refresh_kev now =
      try_except
        (do ids ← with_retry timing (with_attempts 3) (outside feeds.kev_ids); store_kev now ids)
        (λ e. pure tt)

  -- `_load_kev`: the set in hand is kept for a day, and when the feed fails.
  unfoldable pub load_kev : Exec (Ingester W) (List String)
  unfolding refresh_kev
  load_kev s =
      let now = feeds.now s.world in
      if is_fresh now s.kev_loaded_at
      then (ok s.kev_set, s)
      else (let s' = (refresh_kev now s).1 in (ok s'.kev_set, s'))

  unfoldable pub is_in_kev : Option String → Exec (Ingester W) Bool
  unfolding load_kev
  is_in_kev none = pure false
  is_in_kev (some cve_id) =
      if cve_id == "" then pure false else (do ids ← load_kev; pure (contains cve_id ids))

  -- The severity of the first CVSS 3 or 4 score, if there is one.
  abbrev pub cvss_severity : List String → Option String
  cvss_severity [] = none
  cvss_severity (score ∷ scores) =
      if occurs "CVSS:3" score || occurs "CVSS:4" score
      then some (cvss_to_severity (cvss_base_score score))
      else cvss_severity scores

  abbrev pub epss_severity : Option String → Exec (Ingester W) String
  epss_severity none = pure "MEDIUM"
  epss_severity (some cve_id) = do
    epss ← fetch_epss cve_id
    pure (if leb 70000 epss then "HIGH" else "MEDIUM")

  abbrev pub other_severity : OsvRecord → Option String → Exec (Ingester W) String
  other_severity osv (some severity) = pure severity
  other_severity osv none =
      let sev = feeds.upper osv.database_severity in
      if contains sev severities then pure sev else epss_severity (first_cve osv.aliases)

  -- `_severity_from_osv`
  unfoldable pub severity_from_osv : OsvRecord → Exec (Ingester W) String
  unfolding fetch_epss cvss_base_score cvss_to_severity first_cve
  severity_from_osv osv = other_severity osv (cvss_severity osv.severity_scores)

  abbrev pub IsSeverity : String → Type 0
  IsSeverity s = contains s severities ≡ true

severity-cvss : (score : ℕ) → contains (cvss_to_severity score) severities ≡ true
unfolding cvss_to_severity
severity-cvss score = elim (Bool-cases (leb 90 score)) [
  | inl e ↦ rw e refl
  | inr e ↦ elim (Bool-cases (leb 70 score)) [
    | inl f ↦ rw (e, f) refl
    | inr f ↦ elim (Bool-cases (leb 40 score)) [
      | inl g ↦ rw (e, f, g) refl
      | inr g ↦ rw (e, f, g) refl
    ]
  ]
]

abbrev pub Any : {A : Type 0} → A → Type 0
Any a = Unit

module _ {W : Type 0} (feeds : Feeds W) where
  from_cache-Succeeds :
      (cve_id : String) (o : Option ℕ) (s : Ingester W) → Succeeds Any (from_cache feeds cve_id o s)
  unfolding request_epss
  from_cache-Succeeds cve_id (some score) s = tt
  from_cache-Succeeds cve_id none s =
      Succeeds-try_except Any 0
        (with_retry (timing feeds) (with_attempts 3)
          (outside feeds (feeds.epss_scores cve_id) >>= remember feeds cve_id))
        s (λ _. tt)

  -- An EPSS score is always given: a failed request counts as 0.
  pub fetch_epss-Succeeds :
      (cve_id : String) (s : Ingester W) → Succeeds Any (fetch_epss feeds cve_id s)
  unfolding fetch_epss
  fetch_epss-Succeeds cve_id s =
      elim (Bool-cases (cve_id == "" || not (starts_with "CVE-" cve_id))) [
        | inl e ↦ rw e tt
        | inr e ↦ rw e (from_cache-Succeeds cve_id (lookup cve_id s.epss_cache) s)
      ]

  pub load_kev-Succeeds : (s : Ingester W) → Succeeds Any (load_kev feeds s)
  unfolding load_kev
  load_kev-Succeeds s = elim (Bool-cases (is_fresh feeds (feeds.now s.world) s.kev_loaded_at)) [
    | inl e ↦ rw e tt
    | inr e ↦ rw e tt
  ]

  epss_severity-IsSeverity :
      (o : Option String) (s : Ingester W) → Succeeds (IsSeverity feeds) (epss_severity feeds o s)
  epss_severity-IsSeverity none s = refl
  epss_severity-IsSeverity (some cve_id) s =
      Succeeds-then Any (IsSeverity feeds) (fetch_epss feeds cve_id) _ s
        (fetch_epss-Succeeds cve_id s)
        λ epss _ v. elim (Bool-cases (leb 70000 epss)) [ inl e ↦ rw e refl | inr e ↦ rw e refl ]

  abbrev Known : Option String → Type 0
  Known none = Unit
  Known (some severity) = IsSeverity feeds severity

  cvss_severity-Known : (scores : List String) → Known (cvss_severity feeds scores)
  cvss_severity-Known [] = tt
  cvss_severity-Known (score ∷ scores) =
      elim (Bool-cases (occurs "CVSS:3" score || occurs "CVSS:4" score)) [
        | inl e ↦ rw e (severity-cvss (cvss_base_score score))
        | inr e ↦ rw e (cvss_severity-Known scores)
      ]

  -- Every advisory is given one of the four severities, whatever it holds and whether or not its EPSS
  -- score can be fetched.
  pub severity_from_osv-IsSeverity :
      (osv : OsvRecord) (s : Ingester W)
      → Succeeds (IsSeverity feeds) (severity_from_osv feeds osv s)
  unfolding severity_from_osv
  severity_from_osv-IsSeverity osv s = by_score (cvss_severity feeds osv.severity_scores) refl
    where
      by_score :
          (o : Option String)
          → cvss_severity feeds osv.severity_scores ≡ o
          → Succeeds (IsSeverity feeds) (other_severity feeds osv o s)
      by_score (some severity) e = rw e at (cvss_severity-Known osv.severity_scores)
      by_score none e =
          elim (Bool-cases (contains (feeds.upper osv.database_severity) severities)) [
            | inl known ↦ rw known known
            | inr other ↦ rw other (epss_severity-IsSeverity (first_cve osv.aliases) s)
          ]
