-- ===== src/NlQuery/Guarded.antt =====
-- Which queries `translate_and_execute` of layer5/nl_to_cypher.py runs.
use live_system_intelligence.Prelude.{ℕ, String, Bool, true, false, List, ◌≡◌, refl, ap}
use live_system_intelligence.Prelude.Dict.{Dict}
use live_system_intelligence.Exec.{Result, ok, err, lift, gets, attempt, ◌>>=◌}
use live_system_intelligence.Exec.Keeps.{Keeps, Keeps-bind, Keeps-try_except}
use live_system_intelligence.Retry.{with_attempts, with_retry}
use live_system_intelligence.Retry.Quiet.{Quiet, Keeps-with_retry}
use live_system_intelligence.Certificate.Json.{Json}
use live_system_intelligence.NlQuery.{Request, Response, Row, Services, NlQueryResult}
use live_system_intelligence.NlQuery.Validator.{validate_cypher, clean}
use live_system_intelligence.NlQuery.Translate.{
  first_text, cache_hit, get_client, ask_summary, summary_request, summarise_results,
  cypher_request, on_records, on_verdict, on_response, translate_and_execute,
}

module _ {W : Type 0} (services : Services W) (P : W → Type 0) where
  -- Claude's answers and the waiting are nothing to `P`, nor is a query that the validator lets pass.
  pub record Harmless : Type 0 where
    pub asks : (request : Request) → Keeps P (services.create request)
    pub waits : Quiet services.timing P
    pub reads :
        (query : String) (params : Dict String Json)
        → (validate_cypher services.wide query).0 ≡ true
        → Keeps P (services.run_query query params)

  module _ (harmless : Harmless) where
    Keeps-ask_summary : (request : Request) → Keeps P (ask_summary services request)
    Keeps-ask_summary request =
        Keeps-bind P (services.create request) _ (harmless.asks request)
          λ resp. Keeps-bind P (lift (first_text resp.texts)) _ (λ w p. p) λ text w p. p

    Keeps-summarise_results :
        (question cypher : String) (records : List Row)
        → Keeps P (summarise_results services question cypher records)
    unfolding summarise_results
    Keeps-summarise_results question cypher records =
        Keeps-try_except P
          (with_retry services.timing (with_attempts 2)
            (ask_summary services (summary_request services question cypher records)))
          _
          (Keeps-with_retry services.timing (with_attempts 2) P
            (ask_summary services (summary_request services question cypher records)) harmless.waits
            (Keeps-ask_summary (summary_request services question cypher records)))
          λ e w p. p

    module _ (question : String) (start : ℕ) (params : Dict String Json) (max_records : ℕ) where
      Keeps-on_records :
          (cypher : String) (cached : Bool) (rows : Result (List Row))
          → Keeps P (on_records services question start max_records cypher cached rows)
      Keeps-on_records cypher cached (err e) = λ w p. p
      Keeps-on_records cypher cached (ok rows) =
          Keeps-bind P (summarise_results services question cypher _) _
            (Keeps-summarise_results question cypher _) λ summary w p. p

      Keeps-on_verdict :
          (cypher : String) (cached : Bool) (v : Bool × String)
          → validate_cypher services.wide cypher ≡ v
          → Keeps P (on_verdict services question start params max_records cypher cached v)
      Keeps-on_verdict cypher cached (false, error) e w p = p
      Keeps-on_verdict cypher cached (true, error) e w p =
          Keeps-on_records cypher cached (services.run_query cypher params w).0 _
            (harmless.reads cypher params (ap (λ v. v.0) e) w p)

      Keeps-on_response :
          (r : Result Response) → Keeps P (on_response services question start params max_records r)
      Keeps-on_response (err e) = λ w p. p
      Keeps-on_response (ok response) =
          Keeps-bind P (lift (first_text response.texts)) _ (λ w p. p)
            λ text.
              Keeps-bind P (lift (cache_hit response.cache_read)) _ (λ w p. p)
                λ cached.
                  Keeps-on_verdict (clean text) cached (validate_cypher services.wide (clean text))
                    refl

    -- If Claude's answers, the waiting and the queries that the validator lets pass change nothing that `P`
    -- says of the outside, then a question does not: no other query is run, whatever Claude answers.
    pub translate_and_execute-Keeps :
        (question : String) (params : Dict String Json) (max_records : ℕ)
        → Keeps P (translate_and_execute services question params max_records)
    unfolding translate_and_execute get_client
    translate_and_execute-Keeps question params max_records =
        Keeps-bind P (get_client services) _ (λ w p. p)
          λ u.
            Keeps-bind {B = NlQueryResult} P (gets services.now)
              (λ start.
                attempt (
                  with_retry services.timing (with_attempts 3)
                    (services.create (cypher_request services question)))
                >>= on_response services question start params max_records)
              (λ w p. p)
              λ start.
                Keeps-bind P
                  (attempt (
                    with_retry services.timing (with_attempts 3)
                      (services.create (cypher_request services question))))
                  (on_response services question start params max_records)
                  (Keeps-with_retry services.timing (with_attempts 3) P
                    (services.create (cypher_request services question)) harmless.waits
                    (harmless.asks (cypher_request services question)))
                  λ r. Keeps-on_response question start params max_records r
