-- ===== src/Webhook/Reports.antt =====
-- What the reports of layer6/github_webhook.py say: the conclusion of a check run, and the job's
-- outcomes.
use live_system_intelligence.Prelude.{
  ℕ, String, Bool, true, false, Option, none, some, List, [], ◌∷◌, if◌then◌else◌, select, is_empty,
  not, ◌&&◌, ◌||◌, ◌==◌, string_eq, ◌≡◌, refl, ◌↔◌, arith, ==_iff, Bool-cases, inl, inr,
}
use live_system_intelligence.Exec.{Error, Result, ok, err, Exec, pure, handle, continue, ◌>>◌}
use live_system_intelligence.Exec.Laws.{Succeeds, Succeeds-then, Succeeds-try_except}
use live_system_intelligence.Certificate.{
  ChangeImpactCertificate, SecurityDelta, BlastRadius, determine_risk_level, VulnRow, is_critical,
  holds,
}
use live_system_intelligence.Certificate.Json.{Json, obj, end, str}
use live_system_intelligence.Certificate.Engine.{Services, generate_certificate}
use live_system_intelligence.Webhook.{GitHub, gh_request, request, dict}
use live_system_intelligence.Webhook.Job.{
  conclusion_of, update_check_run, post_pr_comment, if_check_run, report_certificate,
  report_failure, run_certificate_job, completed_body, failed_body, comment_body,
}

conclusion_of-level :
    (exploited severe no_cves no_flows served : Bool)
    → ((no_cves && no_flows) ≡ true → exploited ≡ false)
    → ((no_cves && no_flows) ≡ true → severe ≡ false)
    → (conclusion_of (
          if exploited
          then "CRITICAL"
          else if severe
          then "HIGH"
          else if not no_cves || not no_flows
          then "MEDIUM"
          else if served
          then "LOW"
          else "NONE")
        ≡ "success")
      ↔ ((no_cves && no_flows) ≡ true)
unfolding conclusion_of
conclusion_of-level true severe no_cves no_flows served calm mild =
    ground (arith, calm, mild, ==_iff {A = String} "failure" "success")
conclusion_of-level false true no_cves no_flows served calm mild =
    ground (arith, calm, mild, ==_iff {A = String} "failure" "success")
conclusion_of-level false false true true true calm mild = (λ _. refl, λ _. refl)
conclusion_of-level false false true true false calm mild = (λ _. refl, λ _. refl)
conclusion_of-level false false true false served calm mild =
    ground (arith, ==_iff {A = String} "neutral" "success")
conclusion_of-level false false false no_flows served calm mild =
    ground (arith, ==_iff {A = String} "neutral" "success")

select-none :
    {A : Type 0} (p : A → Bool) (xs : List A)
    → is_empty xs ≡ true
    → not (is_empty (select p xs)) ≡ false
select-none p [] h = refl
select-none p (x ∷ xs) h = cc

kev_of :
    (vs : List VulnRow)
    → is_empty vs ≡ true
    → not (is_empty (select (λ v. holds v.in_kev) (select is_critical vs))) ≡ false
kev_of [] h = refl
kev_of (v ∷ vs) h = cc

-- The check run of a computed risk succeeds exactly when no CVE is reachable from the change and no
-- regulated field flows through it.
pub conclusion_of-determine_risk_level :
    (delta : SecurityDelta) (blast : BlastRadius)
    → (conclusion_of (determine_risk_level delta blast) ≡ "success")
      ↔ ((is_empty delta.new_critical_vulns && is_empty delta.pii_flows_added) ≡ true)
unfolding determine_risk_level conclusion_of
conclusion_of-determine_risk_level delta blast =
    conclusion_of-level _
      (not (is_empty (select is_critical delta.new_critical_vulns))
        || (not (is_empty delta.pii_flows_added) && not (is_empty blast.affected_endpoints)))
      (is_empty delta.new_critical_vulns) (is_empty delta.pii_flows_added)
      (not (is_empty blast.affected_services)) (λ quiet. no_kev quiet)
      (λ quiet. ground (arith, select-none is_critical delta.new_critical_vulns))
  where
    no_kev :
        (is_empty delta.new_critical_vulns && is_empty delta.pii_flows_added) ≡ true
        → not
            (is_empty (select (λ v. holds v.in_kev) (select is_critical delta.new_critical_vulns)))
          ≡ false
    no_kev quiet = kev_of delta.new_critical_vulns (ground (arith, quiet))

abbrev pub Any : {A : Type 0} → A → Type 0
Any a = Unit

-- A `try` that has failed for certain only where `r` has: `f` after it raises nothing.
abbrev pub settle :
    {W A : Type 0} → Result A → (A → Exec W Unit) → (Error → Exec W Unit) → Exec W Unit
settle (ok a) f h w = f a w
settle (err e) f h w = h e w

handle-returned :
    {W : Type 0} (r : Result (Unit {0})) (h : Error → Exec W (Unit {0})) (w : W)
    → Succeeds Any (r, w)
    → handle r h w ≡ (r, w)
handle-returned (ok a) h w s = refl
handle-returned (err e) h w s = absurd s

module _ {W A : Type 0} where
  handle-settle :
      (r : Result A) (f : A → Exec W Unit) (h : Error → Exec W Unit) (w : W)
      → ((a : A) (v : W) → Succeeds Any (f a v))
      → handle (continue r f w).0 h (continue r f w).1 ≡ settle r f h w
  handle-settle (ok a) f h w s = handle-returned (f a w).0 h (f a w).1 (s a w)
  handle-settle (err e) f h w s = refl

module _ {W : Type 0} (github : GitHub W) where
  gh_request-Succeeds :
      (method url : String) (body : Option Json) (w : W)
      → Succeeds Any (gh_request github method url body w)
  unfolding gh_request
  gh_request-Succeeds method url body w =
      Succeeds-try_except Any (obj end) (github.urlopen (request github method url body)) w
        (λ _. tt)

  sent-Succeeds :
      (method url : String) (body : Option Json) (w : W)
      → Succeeds {A = Unit {0}} Any ((gh_request github method url body >> pure tt) w)
  sent-Succeeds method url body w =
      Succeeds-then Any Any (gh_request github method url body) (λ _. pure tt) w
        (gh_request-Succeeds method url body w) λ _ _ v. tt

  if_check_run-Succeeds :
      (id : Option String) (f : String → Exec W Unit) (w : W)
      → ((i : String) (v : W) → Succeeds Any (f i v))
      → Succeeds Any (if_check_run github id f w)
  if_check_run-Succeeds none f w s = tt
  if_check_run-Succeeds (some i) f w s = elim (Bool-cases (i == "")) [
    | inl e ↦ rw e tt
    | inr e ↦ rw e (s i w)
  ]

  update_check_run-Succeeds :
      (repo id : String) (cert : ChangeImpactCertificate) (w : W)
      → Succeeds Any (update_check_run github repo id cert w)
  unfolding update_check_run
  update_check_run-Succeeds repo id cert w =
      sent-Succeeds "PATCH" _ (some (completed_body github cert (github.utcnow w))) w

  post_pr_comment-Succeeds :
      (repo : String) (pr_number : ℕ) (cert : ChangeImpactCertificate) (w : W)
      → Succeeds Any (post_pr_comment github repo pr_number cert w)
  unfolding post_pr_comment
  post_pr_comment-Succeeds repo pr_number cert w =
      sent-Succeeds "POST" _ (some (obj (dict (("body", str (comment_body github cert)) ∷ [])))) w

  module _ (services : Services W) (repo : String) (pr_number : ℕ)
      (check_run_id : Option String) where
    report_certificate-Succeeds :
        (cert : ChangeImpactCertificate) (w : W)
        → Succeeds Any (report_certificate github services repo pr_number check_run_id cert w)
    report_certificate-Succeeds cert w =
        Succeeds-then Any Any
          (if_check_run github check_run_id (λ id. update_check_run github repo id cert))
          (λ _. post_pr_comment github repo pr_number cert) w
          (if_check_run-Succeeds check_run_id _ w
            (λ id v. update_check_run-Succeeds repo id cert v))
          λ _ _ v. post_pr_comment-Succeeds repo pr_number cert v

    -- The handler of the job sees the failures of `generate_certificate` alone: a certificate that is
    -- returned is reported as it is, whatever GitHub answers, and only an error of its generation
    -- closes the check run as failed.
    pub run_certificate_job-settle :
        (pr_id : String) (changed_files : List String) (service : String) (w : W)
        → run_certificate_job github services repo pr_number check_run_id pr_id changed_files
            service w
          ≡ settle
              (generate_certificate services pr_id changed_files service w).0
              (report_certificate github services repo pr_number check_run_id)
              (report_failure github services repo pr_number check_run_id)
              (generate_certificate services pr_id changed_files service w).1
    unfolding run_certificate_job
    run_certificate_job-settle pr_id changed_files service w =
        handle-settle (generate_certificate services pr_id changed_files service w).0
          (report_certificate github services repo pr_number check_run_id)
          (report_failure github services repo pr_number check_run_id)
          (generate_certificate services pr_id changed_files service w).1
          report_certificate-Succeeds

    settle-Succeeds :
        (r : Result ChangeImpactCertificate) (w : W)
        → Succeeds Any (
            settle r
              (report_certificate github services repo pr_number check_run_id)
              (report_failure github services repo pr_number check_run_id)
              w)
    settle-Succeeds (ok cert) w = report_certificate-Succeeds cert w
    settle-Succeeds (err e) w =
        if_check_run-Succeeds check_run_id _ w
          λ id v. sent-Succeeds "PATCH" _ (some (failed_body github e.message)) v

    -- The background job never raises, whatever the database, the model and GitHub do.
    pub run_certificate_job-Succeeds :
        (pr_id : String) (changed_files : List String) (service : String) (w : W)
        → Succeeds Any (
            run_certificate_job github services repo pr_number check_run_id pr_id changed_files
              service w)
    run_certificate_job-Succeeds pr_id changed_files service w =
        rw (run_certificate_job-settle pr_id changed_files service w) (settle-Succeeds _ _)
