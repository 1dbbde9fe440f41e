-- ===== src/Certificate/Narrative.antt =====
-- layer6/certificate_engine.py: the texts of a certificate. `show` is Python's text of a number.
use live_system_intelligence.Prelude.{
  ℕ, ◌-◌, String, ◌<>◌, Bool, true, false, Option, none, some, List, [], ◌∷◌, map, take, length,
  ltb, ◌==◌, string_eq, if◌then◌else◌, ◌≡◌, refl, arith, any,
}
use live_system_intelligence.Exec.{Error, Result, ok, err, Exec, pure, lift, try_except, ◌>>=◌}
use live_system_intelligence.Retry.{Timing, with_attempts, with_retry}
use live_system_intelligence.Certificate.{FunctionImpact, VulnRow, BlastRadius, SecurityDelta}

-- `sep.join(xs)`
unfoldable pub join : String → List String → String
join sep [] = ""
join sep (x ∷ []) = x
join sep (x ∷ y ∷ ys) = x <> sep <> join sep (y ∷ ys)

-- The texts of a list that `join` is given, which may hold no null.
abbrev pub type_error : Error
type_error = record {
  kind = "TypeError";
  message = "sequence item: expected str instance, NoneType found";
}

abbrev pub prepend : String → Result (List String) → Result (List String)
prepend s (ok ss) = ok (s ∷ ss)
prepend s (err e) = err e

unfoldable pub texts : List (Option String) → Result (List String)
texts [] = ok []
texts (none ∷ os) = err type_error
texts (some s ∷ os) = prepend s (texts os)

abbrev pub or_default : String → String → String
or_default s default = if s == "" then default else s

module _ (show : ℕ → String) where
  unfoldable pub fallback_narrative :
      String → List FunctionImpact → BlastRadius → SecurityDelta → String → String
  unfolding join
  fallback_narrative pr_id changed blast delta risk_level =
      pr_id
      <> " modifies "
      <> show (length changed)
      <> " function(s) ("
      <> join ", " (map (λ f. f.function_name) (take 3 changed))
      <> ") with a blast radius of "
      <> show (length blast.transitive_callers)
      <> " callers across "
      <> show (length blast.affected_services)
      <> " service(s). Risk level: "
      <> risk_level
      <> ". "
      <> show (length delta.new_critical_vulns)
      <> " critical CVE(s) in scope; "
      <> show (length delta.pii_flows_added)
      <> " PII flow(s) affected."

  unfoldable pub function_summary : List FunctionImpact → String
  unfolding join
  function_summary changed =
      let names =
        join ", " (map (λ f. f.function_name <> " (" <> f.file <> ")") (take 5 changed)) in
      if ltb 5 (length changed)
      then names <> " and " <> show (length changed - 5) <> " more"
      else names

  unfoldable pub prompt :
      String → List FunctionImpact → BlastRadius → SecurityDelta → String → String → String
  unfolding function_summary join
  prompt pr_id changed blast delta risk_level vuln_summary =
      "PR: "
      <> pr_id
      <> "\nRisk level: "
      <> risk_level
      <> "\nChanged functions: "
      <> function_summary changed
      <> "\nBlast radius: "
      <> show (length blast.transitive_callers)
      <> " callers, "
      <> show (length blast.affected_endpoints)
      <> " endpoints, services: "
      <> or_default (join ", " blast.affected_services) "none"
      <> "\nCritical CVEs now reachable: "
      <> vuln_summary
      <> "\nPII flows affected: "
      <> show (length delta.pii_flows_added)
      <> "\nNet risk change: "
      <> delta.net_risk_change
      <> "\n"

-- What the narrative asks of the outside: the key in the environment, and the model's answer.
pub record Writer (W : Type 0) : Type 0 where
  pub timing : Timing W
  pub api_key : Option String
  pub ask : String → Exec W String
  pub show : ℕ → String

abbrev pub is_null : VulnRow → Bool
is_null v = elim v.cve_id [ none ↦ true | some _ ↦ false ]

texts-null :
    (vs : List VulnRow) → any is_null vs ≡ true → texts (map (λ v. v.cve_id) vs) ≡ err type_error
unfolding texts
texts-null [] h = cc
texts-null (v ∷ vs) h = ground (arith, texts-null vs)

module _ {W : Type 0} (writer : Writer W) where
  unfoldable pub asked :
      String → List FunctionImpact → BlastRadius → SecurityDelta → String → Exec W String
  unfolding fallback_narrative prompt texts with_retry
  asked pr_id changed blast delta risk_level = do
    ids ← lift (texts (map (λ v. v.cve_id) (take 3 delta.new_critical_vulns)))
    let text =
        prompt writer.show pr_id changed blast delta risk_level (or_default (join ", " ids) "none")
    try_except (with_retry writer.timing (with_attempts 2) (writer.ask text))
        (λ e. pure (fallback_narrative writer.show pr_id changed blast delta risk_level))

  -- The branch on the key in the environment; an empty key counts as none.
  abbrev pub with_key :
      String
      → List FunctionImpact
      → BlastRadius
      → SecurityDelta
      → String
      → Option String
      → Exec W String
  with_key pr_id changed blast delta risk_level none =
      pure (fallback_narrative writer.show pr_id changed blast delta risk_level)
  with_key pr_id changed blast delta risk_level (some key) =
      if key == ""
      then pure (fallback_narrative writer.show pr_id changed blast delta risk_level)
      else asked pr_id changed blast delta risk_level

  -- `_generate_narrative`
  unfoldable pub generate_narrative :
      String → List FunctionImpact → BlastRadius → SecurityDelta → String → Exec W String
  unfolding asked
  generate_narrative pr_id changed blast delta risk_level =
      with_key pr_id changed blast delta risk_level writer.api_key

  -- With a key set, a null CVE ID among the first three CVEs raises a TypeError, outside the `try`
  -- whose handler writes the fallback, before the model is asked.
  pub generate_narrative-null :
      (pr_id : String) (changed : List FunctionImpact) (blast : BlastRadius) (delta : SecurityDelta)
      (risk_level : String) (w : W) {key : String}
      → writer.api_key ≡ some key
      → (key == "") ≡ false
      → any is_null (take 3 delta.new_critical_vulns) ≡ true
      → generate_narrative pr_id changed blast delta risk_level w ≡ (err type_error, w)
  unfolding generate_narrative
  generate_narrative-null pr_id changed blast delta risk_level w set some_key null =
      rw (set, some_key, texts-null (take 3 delta.new_critical_vulns) null) refl
