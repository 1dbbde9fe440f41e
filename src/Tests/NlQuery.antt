-- ===== src/Tests/NlQuery.antt =====
-- layer5/nl_to_cypher.py, where Claude answers every request with one text.
use live_system_intelligence.Prelude.{
  ℕ, String, Bool, true, false, some, List, [], ◌∷◌, All, string_eq, ◌≡◌, refl,
}
use live_system_intelligence.Exec.{ok, pure, raise}
use live_system_intelligence.Exec.Keeps.{Keeps}
use live_system_intelligence.Exec.Laws.{Succeeds}
use live_system_intelligence.Retry.{Timing, pause, with_retry, retry_loop}
use live_system_intelligence.Pattern.{
  search_words, search_from, starts_here, after_pieces, after_piece, after_literal, skip_spaces,
  after_spaces,
}
use live_system_intelligence.NlQuery.{tokens, Services}
use live_system_intelligence.NlQuery.Validator.{
  validate_cypher, clean, write_error, placeholder_error, has_placeholder, without_opening,
  without_closing,
}
use live_system_intelligence.NlQuery.Translate.{
  get_client, summarise_results, translate_and_execute, warm_schema_cache,
}
use live_system_intelligence.NlQuery.Guarded.{Harmless, translate_and_execute-Keeps}
use live_system_intelligence.NlQuery.Answered.{
  IsAnswer, translate_and_execute-Succeeds, warm_schema_cache-true,
}

abbrev ascii : ℕ → Bool
ascii c = false

cleaned : clean "```Cypher\nMATCH (n) RETURN n\n```" ≡ "MATCH (n) RETURN n"
unfolding clean without_opening without_closing after_literal skip_spaces
cleaned = refl

deletes : validate_cypher ascii "MATCH (n) detach delete n" ≡ (false, write_error)
unfolding validate_cypher search_words search_from starts_here after_pieces after_piece
    after_literal after_spaces skip_spaces
deletes = refl

unfilled : validate_cypher ascii "MATCH (n {id: <NODE_ID>}) RETURN n" ≡ (false, placeholder_error)
unfolding validate_cypher search_words search_from starts_here after_pieces after_piece
    after_literal after_spaces skip_spaces has_placeholder
unfilled = refl

-- A procedure that writes passes, when its name has none of the words.
writes_pass : validate_cypher ascii "CALL apoc.cypher.runWrite($q, {})" ≡ (true, "")
unfolding validate_cypher search_words search_from starts_here after_pieces after_piece
    after_literal after_spaces skip_spaces has_placeholder
writes_pass = refl

-- The outside: the queries that were run.
abbrev timing : Timing (List String)
timing = record { uniform = λ d w. (d, w); sleep = λ d w. w }

abbrev answering : String → Services (List String)
answering text = record {
  wide = ascii;
  timing = timing;
  now = λ w. 7;
  api_key = λ w. some "key";
  create = λ request. pure (record { texts = text ∷ []; cache_read = tokens 9 });
  run_query = λ query params w. (ok ([] ∷ [] ∷ []), query ∷ w);
  dumps = λ rows. "[]";
  show = λ n. "n";
  schema_context = "";
}

-- Claude always raises.
abbrev raising : Services (List String)
raising = record (answering "") {
  create = λ request. raise (record { kind = "APIError"; message = "down" });
}

rejected : (translate_and_execute (answering "MATCH (n) DETACH DELETE n") "q" [] 5 []).1 ≡ []
unfolding translate_and_execute get_client with_retry retry_loop clean without_opening
    without_closing after_literal skip_spaces validate_cypher search_words search_from starts_here
    after_pieces after_piece after_spaces has_placeholder
rejected = refl

run :
    (translate_and_execute (answering "MATCH (n) RETURN n") "q" [] 5 []).1
    ≡ "MATCH (n) RETURN n" ∷ []
unfolding translate_and_execute get_client with_retry retry_loop clean without_opening
    without_closing after_literal skip_spaces validate_cypher search_words search_from starts_here
    after_pieces after_piece after_spaces has_placeholder summarise_results
run = refl

abbrev Passed : List String → Type 0
Passed = All (λ query. (validate_cypher ascii query).0 ≡ true)

harmless : Harmless (answering "MATCH (n) RETURN n") Passed
unfolding pause
harmless = record {
  asks = λ request w p. p;
  waits = λ policy attempt w p. p;
  reads = λ query params e w p. (e, p);
}

translate_and_execute-Keeps_example :
    Keeps Passed (translate_and_execute (answering "MATCH (n) RETURN n") "Which nodes?" [] 5)
translate_and_execute-Keeps_example =
    translate_and_execute-Keeps (answering "MATCH (n) RETURN n") Passed harmless "Which nodes?" [] 5

translate_and_execute-Succeeds_example :
    Succeeds (IsAnswer 1) (translate_and_execute (answering "MATCH (n) RETURN n") "q" [] 1 [])
translate_and_execute-Succeeds_example =
    translate_and_execute-Succeeds (answering "MATCH (n) RETURN n") "key"
      (λ request w. (("MATCH (n) RETURN n", refl), (true, refl))) "q" [] 1 [] refl refl

warm_schema_cache-true_example : Succeeds (λ warmed. warmed ≡ true) (warm_schema_cache raising [])
warm_schema_cache-true_example = warm_schema_cache-true raising "key" (λ request w. tt) [] refl refl
