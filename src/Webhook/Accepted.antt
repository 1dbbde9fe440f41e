-- ===== src/Webhook/Accepted.antt =====
-- What the endpoint of layer6/github_webhook.py lets through.
use Prim.Native.String.append
use live_system_intelligence.Prelude.{
  String, ◌<>◌, Bool, true, false, Option, none, some, length, contains, All, ap, sym, ◌==◌,
  string_eq, ◌≡◌, refl, ◌↔◌, arith, ==_iff, Bool-cases, inl, inr,
}
use live_system_intelligence.Exec.{Result, ok, err, lift, ◌>>=◌}
use live_system_intelligence.Exec.Laws.{Returns, Returns-bind}
use live_system_intelligence.Certificate.Signing.{IsSound}
use live_system_intelligence.Webhook.{GitHub, create_check_run, get_pr_changed_files}
use live_system_intelligence.Webhook.Handler.{
  PullRequestEvent, Delivery, Task, Reply, Response, accepted, or_text, or_zero, service_of,
  expected_signature, verify_header, verify_github_signature, actions, queue_job, on_payload,
  on_verified, github_webhook,
}
use live_system_intelligence.Text.{starts_with}

starts_with-append : (p t : String) → starts_with p (p <> t) ≡ true
starts_with-append String.[] t = refl
starts_with-append (String.◌∷◌ c p) t =
    rw (append.cons c p t) (ground (arith, starts_with-append p t))

scheme-nonempty : (t : String) → (("sha256=" <> t) == "") ≡ false
scheme-nonempty t = elim (Bool-cases (("sha256=" <> t) == "")) [
  | inl e ↦ cc (
    ap (starts_with "sha256=") ((==_iff ("sha256=" <> t) "").0 e),
    starts_with-append "sha256=" t,
  )
  | inr e ↦ e
]

module _ {W : Type 0} (github : GitHub W) where
  verify_header_iff :
      (payload : String) (header : Option String)
      → IsSound github.crypto
      → (verify_header github payload header ≡ ok true)
        ↔ (header ≡ some (expected_signature github payload))
  verify_header_iff payload none sound = ground arith
  verify_header_iff payload (some h) sound = (to, from)
    where
      by_tests :
          (h == "") ≡ false
          → starts_with "sha256=" h ≡ true
          → verify_header github payload (some h) ≡ ok true
          → github.crypto.compare_digest (expected_signature github payload) h ≡ ok true
      by_tests e p let_in = ground (arith, let_in, e, p)

      to :
          verify_header github payload (some h) ≡ ok true
          → some h ≡ some (expected_signature github payload)
      to let_in = elim (Bool-cases (h == "")) [
        | inl e ↦ ground (arith, let_in, e)
        | inr e ↦ elim (Bool-cases (starts_with "sha256=" h)) [
          | inl p ↦
              ap some (
                sym
                  (sound.compare_true (expected_signature github payload) h (by_tests e p let_in)))
          | inr p ↦ ground (arith, let_in, e, p)
        ]
      ]

      from :
          some h ≡ some (expected_signature github payload)
          → verify_header github payload (some h) ≡ ok true
      from e =
          rw
            (
              ap (or_text "") e,
              scheme-nonempty (github.crypto.hexdigest github.webhook_secret payload),
              starts_with-append "sha256=" (github.crypto.hexdigest github.webhook_secret payload),
            )
            (sound.compare_scheme github.webhook_secret payload)

  -- With a secret set and sound cryptographic functions, a header is accepted exactly when it is `sha256=` and the digest of the
  -- payload under that secret: no header, an empty one and one of another scheme are refused.
  pub verify_github_signature_iff :
      (payload : String) (header : Option String)
      → IsSound github.crypto
      → (github.webhook_secret == "") ≡ false
      → (verify_github_signature github payload header ≡ ok true)
        ↔ (header ≡ some (expected_signature github payload))
  unfolding verify_github_signature
  verify_github_signature_iff payload header sound secret =
      rw secret (verify_header_iff payload header sound)

  module _ (loads : String → Option PullRequestEvent) where
    -- What is known of a stored task: its delivery was verified, it is a pull request's, with an action
    -- of interest, and the task and the response are made of it.
    pub record IsDue (d : Delivery) (response : Response) (t : Task) : Type 0 where
      pub parsed : PullRequestEvent
      pub verified : verify_github_signature github d.body d.signature ≡ ok true
      pub pull_request : or_text "" d.event ≡ "pull_request"
      pub loaded : loads d.body ≡ some parsed
      pub of_interest : contains (or_text "" parsed.action) actions ≡ true
      pub of_repo : t.repo_full_name ≡ or_text "" parsed.full_name
      pub of_service :
          t.service
          ≡ service_of github.service_map_text
              (or_text "" parsed.full_name)
              (or_text "" parsed.name)
      pub answered : response ≡ accepted t.pr_id t.check_run_id (length t.changed_files)

    abbrev pub AreDue : Delivery → Reply → Type 0
    AreDue d reply = All (IsDue d reply.response) reply.tasks

    module _ (d : Delivery) (verified : verify_github_signature github d.body d.signature ≡ ok true)
        (pull_request : or_text "" d.event ≡ "pull_request") where
      queue_job-AreDue :
          (p : PullRequestEvent)
          → loads d.body ≡ some p
          → contains (or_text "" p.action) actions ≡ true
          → (w : W) → Returns (AreDue d) (queue_job github loads p w)
      unfolding queue_job
      queue_job-AreDue p loaded of_interest w =
          Returns-bind (AreDue d)
            (create_check_run github (or_text "" p.full_name) (or_text "" p.head_sha)
              (or_zero p.number))
            _ w
            λ id v.
              Returns-bind (AreDue d)
                (get_pr_changed_files github (or_text "" p.full_name) (or_zero p.number)) _ v
                λ files u. (
                  record {
                    parsed = p;
                    verified = verified;
                    pull_request = pull_request;
                    loaded = loaded;
                    of_interest = of_interest;
                    of_repo = refl;
                    of_service = refl;
                    answered = refl;
                  },
                  tt,
                )

      on_payload-AreDue :
          (o : Option PullRequestEvent)
          → loads d.body ≡ o
          → (w : W) → Returns (AreDue d) (on_payload github loads o w)
      on_payload-AreDue none loaded w = tt
      on_payload-AreDue (some p) loaded w =
          elim (Bool-cases (contains (or_text "" p.action) actions)) [
            | inl e ↦ rw e (queue_job-AreDue p loaded e w)
            | inr e ↦ rw e tt
          ]

    on_verified-AreDue :
        (d : Delivery) (r : Result Bool)
        → verify_github_signature github d.body d.signature ≡ r
        → (w : W) → Returns (AreDue d) ((lift r >>= on_verified github loads d) w)
    on_verified-AreDue d (err e) verified w = tt
    on_verified-AreDue d (ok false) verified w = tt
    on_verified-AreDue d (ok true) verified w =
        elim (Bool-cases (or_text "" d.event == "pull_request")) [
          | inl e ↦ rw e (
              on_payload-AreDue d verified ((==_iff (or_text "" d.event) "pull_request").0 e)
                (loads d.body) refl w)
          | inr e ↦ rw e tt
        ]

    -- A job is queued only for a verified delivery of a pull request that was opened, synchronized or
    -- reopened; it is of that repository and of its service, and the response tells its ID, its check
    -- run and the number of its files.
    pub github_webhook-AreDue :
        (d : Delivery) (w : W) → Returns (AreDue d) (github_webhook github loads d w)
    unfolding github_webhook
    github_webhook-AreDue d w =
        on_verified-AreDue d (verify_github_signature github d.body d.signature) refl w
