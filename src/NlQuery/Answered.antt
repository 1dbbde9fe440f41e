-- ===== src/NlQuery/Answered.antt =====
-- That `translate_and_execute` of layer5/nl_to_cypher.py gives a result, and what the result holds.
use live_system_intelligence.Prelude.{
  ℕ, ◌≤◌, String, Bool, true, false, Option, none, some, List, [], length, take, length-take, ◌==◌,
  string_eq, ◌≡◌, refl, arith,
}
use live_system_intelligence.Prelude.Dict.{Dict}
use live_system_intelligence.Exec.{Result, ok, err, pure, ◌>>◌}
use live_system_intelligence.Exec.Laws.{
  Returns, Succeeds, Succeeds-then, Succeeds-rescued, Succeeds-tried,
}
use live_system_intelligence.Retry.{with_attempts, with_retry}
use live_system_intelligence.Retry.Quiet.{Returns-with_retry}
use live_system_intelligence.Certificate.Json.{Json}
use live_system_intelligence.NlQuery.{Request, Response, Row, Services, NlQueryResult}
use live_system_intelligence.NlQuery.Validator.{validate_cypher, clean}
use live_system_intelligence.NlQuery.Translate.{
  first_text, cache_hit, get_client, ask_summary, summary_request, summarise_results,
  cypher_request, on_records, on_verdict, on_response, translate_and_execute, warm_schema_cache,
}

-- An error comes without records and without a summary.
abbrev pub EmptyOn : List Row → String → Option String → Type 0
EmptyOn records summary none = Unit
EmptyOn records summary (some e) = (records ≡ []) × (summary ≡ "")

abbrev pub IsAnswer : ℕ → NlQueryResult → Type 0
IsAnswer max_records r =
    (r.record_count ≡ length r.records)
    × (length r.records ≤ max_records)
    × EmptyOn r.records r.summary r.error

-- It has a text, and the count of tokens read from the cache, if it is there, is a number.
abbrev pub Readable : Response → Type 0
Readable response =
    ((text : String) × (first_text response.texts ≡ ok text))
    × ((hit : Bool) × (cache_hit response.cache_read ≡ ok hit))

module _ {W : Type 0} (services : Services W) where
  Succeeds-summarise_results :
      (question cypher : String) (records : List Row) (w : W)
      → Succeeds (λ s. Unit) (summarise_results services question cypher records w)
  unfolding summarise_results
  Succeeds-summarise_results question cypher records w =
      Succeeds-rescued (λ s. Unit) _
        (with_retry services.timing (with_attempts 2)
          (ask_summary services (summary_request services question cypher records)))
        w λ s. tt

  module _ (question : String) (start : ℕ) (params : Dict String Json) (max_records : ℕ) where
    Succeeds-on_records :
        (cypher : String) (cached : Bool) (rows : Result (List Row)) (w : W)
        → Succeeds
            (IsAnswer max_records)
            (on_records services question start max_records cypher cached rows w)
    Succeeds-on_records cypher cached (err e) w = (refl, omega arith, (refl, refl))
    Succeeds-on_records cypher cached (ok rows) w =
        Succeeds-then (λ s. Unit) (IsAnswer max_records)
          (summarise_results services question cypher (take max_records rows)) _ w
          (Succeeds-summarise_results question cypher (take max_records rows) w)
          λ summary _ v. (refl, omega (arith, length-take max_records rows), tt)

    Succeeds-on_verdict :
        (cypher : String) (cached : Bool) (v : Bool × String) (w : W)
        → Succeeds
            (IsAnswer max_records)
            (on_verdict services question start params max_records cypher cached v w)
    Succeeds-on_verdict cypher cached (false, error) w = (refl, omega arith, (refl, refl))
    Succeeds-on_verdict cypher cached (true, error) w =
        Succeeds-on_records cypher cached (services.run_query cypher params w).0 _

    Succeeds-on_response :
        (r : Result Response) (w : W)
        → Returns Readable (r, w)
        → Succeeds
            (IsAnswer max_records)
            (on_response services question start params max_records r w)
    Succeeds-on_response (err e) w readable = (refl, omega arith, (refl, refl))
    Succeeds-on_response (ok response) w ((text, e), (hit, f)) =
        rw (e, f)
          (Succeeds-on_verdict (clean text) hit (validate_cypher services.wide (clean text)) w)

  module _ (key : String)
      (readable : (request : Request) (w : W) → Returns Readable (services.create request w)) where
    -- With a key that is not empty, if each answer that Claude gives has a text and a number of cached tokens,
    -- or none, a question always has a result, even when Claude or the database raises: its count is that
    -- of its records, which are at most `max_records`, and with an error there are neither records nor a
    -- summary.
    pub translate_and_execute-Succeeds :
        (question : String) (params : Dict String Json) (max_records : ℕ) (w : W)
        → services.api_key w ≡ some key
        → (key == "") ≡ false
        → Succeeds
            (IsAnswer max_records)
            (translate_and_execute services question params max_records w)
    unfolding translate_and_execute get_client
    translate_and_execute-Succeeds question params max_records w e f =
        rw (e, f)
          (Succeeds-on_response question (services.now w) params max_records _ _ (
            Returns-with_retry services.timing (with_attempts 3) Readable
              (services.create (cypher_request services question))
              (readable (cypher_request services question)) w))

    -- Under the same conditions the warm-up reports success, even if Claude or the database always
    -- raises.
    pub warm_schema_cache-true :
        (w : W)
        → services.api_key w ≡ some key
        → (key == "") ≡ false
        → Succeeds (λ warmed. warmed ≡ true) (warm_schema_cache services w)
    unfolding warm_schema_cache
    warm_schema_cache-true w e f =
        Succeeds-tried (λ warmed. warmed ≡ true) (λ e. pure false)
          (translate_and_execute services "How many Service nodes exist?" [] 1 >> pure true) w
          (Succeeds-then (IsAnswer 1) (λ warmed. warmed ≡ true)
            (translate_and_execute services "How many Service nodes exist?" [] 1)
            (λ result. pure true) w
            (translate_and_execute-Succeeds "How many Service nodes exist?" [] 1 w e f)
            λ result answered v. refl)
