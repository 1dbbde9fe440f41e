-- ===== src/GraphApi/Admitted.antt =====
-- Whom layer5/graph_api.py lets in, and which queries reach the database through it.
use live_system_intelligence.Prelude.{
  String, Bool, true, false, not, List, contains, ◌==◌, string_eq, ◌≡◌, refl, ap, Bool-cases, inl,
  inr,
}
use live_system_intelligence.Prelude.Dict.{Dict}
use live_system_intelligence.Exec.{Error, Result, ok, err, Exec, pure, raise}
use live_system_intelligence.Exec.Keeps.{Keeps, Keeps-bind, Keeps-branch}
use live_system_intelligence.Text.{strip}
use live_system_intelligence.Certificate.Json.{Json}
use live_system_intelligence.NlQuery.{Row, Services}
use live_system_intelligence.NlQuery.Validator.{validate_cypher}
use live_system_intelligence.NlQuery.Translate.{translate_and_execute}
use live_system_intelligence.NlQuery.Guarded.{Harmless, translate_and_execute-Keeps}
use live_system_intelligence.GraphApi.{
  Headers, Backend, http_exception, is_dev, token_of, require_auth, require_admin,
}
use live_system_intelligence.GraphApi.Query.{on_records, on_verdict, raw_cypher, reply_of, nl_query}

abbrev pub Refused : {W A : Type 0} → Exec W A → W → Type 0
Refused m w = (e : Error) × (m w ≡ (err e, w))

module _ {W : Type 0} (backend : Backend W) where
  require_admin-Refused :
      (headers : Headers) (w : W)
      → is_dev backend w ≡ false
      → Refused (require_admin backend headers) w
  unfolding require_admin require_auth
  require_admin-Refused headers w e = elim (Bool-cases (token_of headers == "")) [
    | inl f ↦ rw (e, f) (http_exception "Missing X-Auth-Token header", refl)
    | inr f ↦ rw (e, f) (http_exception "Admin role required for raw Cypher queries", refl)
  ]

  module _ (services : Services W) where
    -- Outside the development mode every raw query is refused, whatever the headers, before anything is
    -- run: no token has the role that it takes.
    pub raw_cypher-Refused :
        (headers : Headers) (cypher : String) (params : Dict String Json) (w : W)
        → is_dev backend w ≡ false
        → Refused (raw_cypher services backend headers cypher params) w
    unfolding raw_cypher
    raw_cypher-Refused headers cypher params w e =
        let (reason, q) = require_admin-Refused headers w e in rw q (reason, refl)

    module _ (P : W → Type 0) (harmless : Harmless services P) where
      Keeps-require_auth : (headers : Headers) → Keeps P (require_auth backend headers)
      unfolding require_auth
      Keeps-require_auth headers w p = elim (Bool-cases (is_dev backend w)) [
        | inl e ↦ rw e p
        | inr e ↦ elim (Bool-cases (token_of headers == "")) [
          | inl f ↦ rw (e, f) p
          | inr f ↦ rw (e, f) p
        ]
      ]

      Keeps-require_admin : (headers : Headers) → Keeps P (require_admin backend headers)
      unfolding require_admin
      Keeps-require_admin headers =
          Keeps-bind P (require_auth backend headers) _ (Keeps-require_auth headers) λ claims.
            Keeps-branch P (not (contains "admin" claims.roles))
              (raise (http_exception "Admin role required for raw Cypher queries")) (pure claims)
              (λ e w p. p) λ e w p. p

      Keeps-on_records :
          (cypher : String) (r : Result (List Row)) → Keeps P (on_records services backend cypher r)
      Keeps-on_records cypher (ok records) = λ w p. p
      Keeps-on_records cypher (err e) = λ w p. p

      Keeps-on_verdict :
          (cypher : String) (params : Dict String Json) (v : Bool × String)
          → validate_cypher services.wide cypher ≡ v
          → Keeps P (on_verdict services backend cypher params v)
      Keeps-on_verdict cypher params (false, reason) e w p = p
      Keeps-on_verdict cypher params (true, reason) e w p =
          Keeps-on_records cypher (services.run_query cypher params w).0 _
            (harmless.reads cypher params (ap (λ v. v.0) e) w p)

      Keeps-raw_cypher :
          (headers : Headers) (cypher : String) (params : Dict String Json)
          → Keeps P (raw_cypher services backend headers cypher params)
      unfolding raw_cypher
      Keeps-raw_cypher headers cypher params =
          Keeps-bind P (require_admin backend headers) _ (Keeps-require_admin headers)
            λ claims. Keeps-on_verdict cypher params (validate_cypher services.wide cypher) refl

      Keeps-nl_query :
          (headers : Headers) (question : String) (params : Dict String Json)
          → Keeps P (nl_query services backend headers question params)
      unfolding nl_query
      Keeps-nl_query headers question params =
          Keeps-bind P (require_auth backend headers) _ (Keeps-require_auth headers) λ claims.
            Keeps-branch P (strip question == "")
              (raise (http_exception "question must not be empty")) _ (λ e w p. p)
              λ e.
                Keeps-bind P (translate_and_execute services question params 100)
                  (λ result. pure (reply_of services backend question result result.error))
                  (translate_and_execute-Keeps services P harmless question params 100)
                  λ result w p. p

      -- If Claude's answers, the waiting and the queries that the validator lets pass change nothing that
      -- `P` says of the outside, then neither of the endpoints that take a query or a question,
      -- `raw_cypher` and `nl_query`, changes any of it, whoever asks and whatever the text.
      pub queries-Keep :
          (headers : Headers) (text : String) (params : Dict String Json)
          → Keeps P (raw_cypher services backend headers text params)
            × Keeps P (nl_query services backend headers text params)
      queries-Keep headers text params =
          (Keeps-raw_cypher headers text params, Keeps-nl_query headers text params)
