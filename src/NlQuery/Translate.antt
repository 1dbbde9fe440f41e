-- ===== src/NlQuery/Translate.antt =====
-- `translate_and_execute`, `_summarise_results` and `warm_schema_cache` of layer5/nl_to_cypher.py.
-- `max_records` is not negative.
use live_system_intelligence.Prelude.{
  ℕ, ◌-◌, String, ◌<>◌, Bool, true, false, Option, none, some, List, [], ◌∷◌, take, length, ltb,
  ◌==◌, string_eq, if◌then◌else◌,
}
use live_system_intelligence.Prelude.Dict.{Dict}
use live_system_intelligence.Exec.{
  Error, Result, ok, err, Exec, pure, lift, gets, attempt, try_except, ◌>>=◌, ◌>>◌,
}
use live_system_intelligence.Retry.{with_attempts, with_retry}
use live_system_intelligence.Text.{strip}
use live_system_intelligence.Certificate.Json.{Json}
use live_system_intelligence.NlQuery.{
  Request, CacheRead, absent, null, tokens, Response, Row, Services, NlQueryResult, system_prompt,
  summary_system_prompt,
}
use live_system_intelligence.NlQuery.Validator.{validate_cypher, clean}

abbrev pub no_key : Error
no_key = record {
  kind = "RuntimeError";
  message =
      "ANTHROPIC_API_KEY environment variable is not set. "
      <> "Set it in your deployment values.yaml or local .env file.";
}

-- `content[0].text`
abbrev pub first_text : List String → Result String
first_text [] = err (record { kind = "IndexError"; message = "list index out of range" })
first_text (s ∷ more) = ok s

-- `getattr(usage, "cache_read_input_tokens", 0) > 0`
abbrev pub cache_hit : CacheRead → Result Bool
cache_hit absent = ok false
cache_hit null = err (record {
  kind = "TypeError";
  message = "'>' not supported between instances of 'NoneType' and 'int'";
})
cache_hit (tokens n) = ok (ltb 0 n)

module _ {W : Type 0} (services : Services W) where
  -- `_get_client`, which only looks whether there is a key.
  abbrev pub key_of : Option String → Result (Unit {0})
  key_of none = err no_key
  key_of (some key) = if key == "" then err no_key else ok tt

  unfoldable pub get_client : Exec W (Unit {0})
  get_client w = lift (key_of (services.api_key w)) w

  abbrev pub records_text : List Row → String
  records_text records =
      services.dumps (take 20 records)
      <> (if ltb 20 (length records)
          then "\n... and " <> services.show (length records - 20) <> " more records."
          else "")

  abbrev pub summary_request : String → String → List Row → Request
  summary_request question cypher records = record {
    system = summary_system_prompt;
    content =
        ("Question: "
          <> question
          <> "\n\nCypher query executed:\n"
          <> cypher
          <> "\n\nResults ("
          <> services.show (length records)
          <> " records):\n"
          <> records_text records)
        ∷ [];
    max_tokens = 300;
  }

  abbrev pub ask_summary : Request → Exec W String
  ask_summary request = do
    resp ← services.create request
    text ← lift (first_text resp.texts)
    pure (strip text)

  unfoldable pub summarise_results : String → String → List Row → Exec W String
  unfolding with_retry
  summarise_results question cypher records =
      try_except
        (with_retry services.timing (with_attempts 2)
          (ask_summary (summary_request question cypher records)))
        (λ e. pure (
          services.show (length records)
          <> " records returned. Summary generation failed: "
          <> e.message))

  abbrev pub cypher_request : String → Request
  cypher_request question = record {
    system = system_prompt;
    content = services.schema_context ∷ ("Question: " <> question) ∷ [];
    max_tokens = 512;
  }

  module _ (question : String) (start : ℕ) where
    -- The result of a step that failed.
    abbrev pub failed : String → Bool → String → Exec W NlQueryResult
    failed cypher cached error w =
        pure
          (record {
            question = question;
            cypher = cypher;
            records = [];
            summary = "";
            cached = cached;
            latency_ms = services.now w - start;
            record_count = 0;
            error = some error;
          })
          w

    -- Step 4.
    abbrev pub on_records : ℕ → String → Bool → Result (List Row) → Exec W NlQueryResult
    on_records max_records cypher cached (err e) =
        failed cypher cached ("Cypher execution error: " <> e.message)
    on_records max_records cypher cached (ok rows) = do
      let records = take max_records rows
      summary ← summarise_results question cypher records
      stop ← gets services.now
      pure (record {
        question = question;
        cypher = cypher;
        records = records;
        summary = summary;
        cached = cached;
        latency_ms = stop - start;
        record_count = length records;
        error = none;
      })

    -- Steps 2 and 3, after the verdict on the query.
    abbrev pub on_verdict :
        Dict String Json → ℕ → String → Bool → Bool × String → Exec W NlQueryResult
    on_verdict params max_records cypher cached (false, error) =
        failed cypher cached ("Generated Cypher failed validation: " <> error)
    on_verdict params max_records cypher cached (true, error) =
        attempt (services.run_query cypher params) >>= on_records max_records cypher cached

    abbrev pub on_response : Dict String Json → ℕ → Result Response → Exec W NlQueryResult
    on_response params max_records (err e) =
        failed "" false ("Claude API error during Cypher generation: " <> e.message)
    on_response params max_records (ok response) = do
      text ← lift (first_text response.texts)
      cached ← lift (cache_hit response.cache_read)
      on_verdict params max_records (clean text) cached (validate_cypher services.wide (clean text))

  unfoldable pub translate_and_execute : String → Dict String Json → ℕ → Exec W NlQueryResult
  unfolding get_client with_retry summarise_results validate_cypher clean
  translate_and_execute question extra_params max_records = do
    get_client
    start ← gets services.now
    response ←
        attempt
          (with_retry services.timing (with_attempts 3) (services.create (cypher_request question)))
    on_response question start extra_params max_records response

  unfoldable pub warm_schema_cache : Exec W Bool
  unfolding translate_and_execute
  warm_schema_cache =
      try_except (do translate_and_execute "How many Service nodes exist?" [] 1; pure true)
        (λ e. pure false)
