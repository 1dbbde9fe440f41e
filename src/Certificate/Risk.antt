-- ===== src/Certificate/Risk.antt =====
-- The risk level and the net risk of layer6/certificate_engine.py, and the rows behind them.
use live_system_intelligence.Prelude.{
  ℕ, ◌≤◌, String, Bool, true, false, not, ◌&&◌, ◌||◌, List, [], ◌∷◌, ◌++◌, select, any, is_empty,
  length, ltb, ◌==◌, string_eq, if◌then◌else◌, ◌≡◌, refl, arith,
}
use live_system_intelligence.Certificate.{
  VulnRow, FlowRow, SecurityDelta, BlastRadius, holds, is_critical, is_unregulated,
  security_delta_of, determine_risk_level,
}

-- The levels in order; a text that is no level has none.
abbrev pub rank : String → ℕ
rank level =
    if level == "CRITICAL"
    then 4
    else if level == "HIGH"
    then 3
    else if level == "MEDIUM"
    then 2
    else if level == "LOW"
    then 1
    else 0

-- A rank in terms of four findings: an exploited critical CVE, a critical CVE or a flow that an
-- endpoint shows, any CVE or flow, an affected service.
abbrev pub rank_of : Bool → Bool → Bool → Bool → ℕ
rank_of exploited severe some_risk reached =
    if exploited then 4 else if severe then 3 else if some_risk then 2 else if reached then 1 else 0

module _ {ℓ} {A : Type ℓ} where
  pub is_empty-select : (p : A → Bool) (xs : List A) → is_empty (select p xs) ≡ not (any p xs)
  is_empty-select p [] = refl
  is_empty-select p (x ∷ xs) = ground (arith, is_empty-select p xs)

  pub any-select : (p q : A → Bool) (xs : List A) → any q (select p xs) ≡ any (λ x. p x && q x) xs
  any-select p q [] = refl
  any-select p q (x ∷ xs) = ground (arith, any-select p q xs)

-- A CRITICAL reachability of a CVE that is known to be exploited.
abbrev pub is_exploited : VulnRow → Bool
is_exploited v = is_critical v && holds v.in_kev

is_empty-kev :
    (vs : List VulnRow)
    → is_empty (select (λ v. holds v.in_kev) (select is_critical vs)) ≡ not (any is_exploited vs)
is_empty-kev [] = refl
is_empty-kev (v ∷ vs) = ground (arith, is_empty-kev vs)

rank-level :
    (a b c d : Bool)
    → rank (
        if a
        then "CRITICAL"
        else if b
        then "HIGH"
        else if c
        then "MEDIUM"
        else if d
        then "LOW"
        else "NONE")
      ≡ rank_of a b c d
rank-level true b c d = refl
rank-level false true c d = refl
rank-level false false true d = refl
rank-level false false false true = refl
rank-level false false false false = refl

not-not : (b : Bool) → not (not b) ≡ b
not-not true = refl
not-not false = refl

-- The risk level is CRITICAL if an exploited CVE is critical, HIGH if a CVE is critical or a PII
-- flow meets an affected endpoint, MEDIUM for any other CVE or flow, LOW for an affected service
-- alone, and NONE otherwise.
pub rank-determine_risk_level :
    (delta : SecurityDelta) (blast : BlastRadius)
    → rank (determine_risk_level delta blast)
      ≡ rank_of
          (any is_exploited delta.new_critical_vulns)
          (any is_critical delta.new_critical_vulns
            || (not (is_empty delta.pii_flows_added) && not (is_empty blast.affected_endpoints)))
          (not (is_empty delta.new_critical_vulns) || not (is_empty delta.pii_flows_added))
          (not (is_empty blast.affected_services))
unfolding determine_risk_level
rank-determine_risk_level delta blast =
    rw
      (
        is_empty-kev,
        is_empty-select,
        not-not (any is_exploited delta.new_critical_vulns),
        not-not (any is_critical delta.new_critical_vulns),
      )
      (rank-level (any is_exploited delta.new_critical_vulns) _ _ _)

-- `a` is no more than `b`.
abbrev Implies : Bool → Bool → Type 0
Implies true b = b ≡ true
Implies false b = Unit

rank_of_mono :
    (a b c d a' b' c' d' : Bool)
    → Implies a a'
    → Implies b b'
    → Implies c c'
    → Implies d d'
    → rank_of a b c d ≤ rank_of a' b' c' d'
rank_of_mono a b c d a' b' c' d' ha hb hc hd = ground arith

or_mono : (a b c d : Bool) → Implies a c → Implies b d → Implies (a || b) (c || d)
or_mono a b c d h k = ground arith

and_mono : (a b c d : Bool) → Implies a c → Implies b d → Implies (a && b) (c && d)
and_mono a b c d h k = ground arith

any-append {ℓ} :
    {A : Type ℓ} (p : A → Bool) (xs ys : List A) → Implies (any p ys) (any p (xs ++ ys))
any-append p [] ys = ground arith
any-append p (x ∷ xs) ys = ground (arith, any-append p xs ys)

is_empty-append {ℓ} :
    {A : Type ℓ} (xs ys : List A) → Implies (not (is_empty ys)) (not (is_empty (xs ++ ys)))
is_empty-append [] ys = ground arith
is_empty-append (x ∷ xs) ys = ground arith

-- More CVE rows, PII flows, affected endpoints or affected services never lower the risk level.
pub determine_risk_level_mono :
    (delta : SecurityDelta) (blast : BlastRadius) (vulns : List VulnRow) (flows : List FlowRow)
    (endpoints services : List String)
    → rank (determine_risk_level delta blast)
      ≤ rank (
          determine_risk_level
            (record delta {
              new_critical_vulns = vulns ++ delta.new_critical_vulns;
              pii_flows_added = flows ++ delta.pii_flows_added;
            })
            (record blast {
              affected_endpoints = endpoints ++ blast.affected_endpoints;
              affected_services = services ++ blast.affected_services;
            }))
determine_risk_level_mono delta blast vulns flows endpoints services =
    rw (rank-determine_risk_level delta blast, rank-determine_risk_level _ _)
      (rank_of_mono _ _ _ _ _ _ _ _ more_exploited more_severe more_risk more_services)
  where
    cvs : List VulnRow
    cvs = delta.new_critical_vulns

    more_exploited : Implies (any is_exploited cvs) (any is_exploited (vulns ++ cvs))
    more_exploited = any-append is_exploited vulns cvs

    more_severe :
        Implies
          (any is_critical cvs
            || (not (is_empty delta.pii_flows_added) && not (is_empty blast.affected_endpoints)))
          (any is_critical (vulns ++ cvs)
            || (not (is_empty (flows ++ delta.pii_flows_added))
                && not (is_empty (endpoints ++ blast.affected_endpoints))))
    more_severe =
        or_mono (any is_critical cvs) _ (any is_critical (vulns ++ cvs)) _
          (any-append is_critical vulns cvs)
          (and_mono (not (is_empty delta.pii_flows_added)) _
            (not (is_empty (flows ++ delta.pii_flows_added))) _
            (is_empty-append flows delta.pii_flows_added)
            (is_empty-append endpoints blast.affected_endpoints))

    more_risk :
        Implies
          (not (is_empty cvs) || not (is_empty delta.pii_flows_added))
          (not (is_empty (vulns ++ cvs)) || not (is_empty (flows ++ delta.pii_flows_added)))
    more_risk =
        or_mono (not (is_empty cvs)) _ (not (is_empty (vulns ++ cvs))) _ (is_empty-append vulns cvs)
          (is_empty-append flows delta.pii_flows_added)

    more_services :
        Implies
          (not (is_empty blast.affected_services))
          (not (is_empty (services ++ blast.affected_services)))
    more_services = is_empty-append services blast.affected_services

counted {ℓ} : {A : Type ℓ} (p : A → Bool) (xs : List A) → ltb 0 (length (select p xs)) ≡ any p xs
counted p [] = refl
counted p (x ∷ xs) = ground (arith, counted p xs)

-- The delta never lists a resolved CVE nor a removed flow; still its net risk reads DECREASED for
-- every non-empty list of CVEs and flows in which no CVE is critical and no flow unregulated.
pub net_risk-decreased :
    (vulns : List VulnRow) (flows : List FlowRow)
    → any is_critical vulns ≡ false
    → any is_unregulated flows ≡ false
    → (is_empty vulns && is_empty flows) ≡ false
    → let delta = security_delta_of vulns flows in
      (delta.net_risk_change ≡ "DECREASED")
      × (delta.resolved_vulns ≡ [])
      × (delta.pii_flows_removed ≡ [])
unfolding security_delta_of
net_risk-decreased vulns flows no_critical regulated some_rows = (
  rw (counted is_critical, counted is_unregulated, no_critical, regulated, some_rows) refl,
  refl,
  refl,
)
