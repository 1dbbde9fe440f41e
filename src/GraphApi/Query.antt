-- ===== src/GraphApi/Query.antt =====
-- The endpoints /query/cypher and /query/nl of layer5/graph_api.py.
use live_system_intelligence.Prelude.{
  ℕ, String, ◌<>◌, Bool, true, false, Option, none, some, List, length, ◌==◌, string_eq,
  if◌then◌else◌,
}
use live_system_intelligence.Prelude.Dict.{Dict}
use live_system_intelligence.Exec.{Result, ok, err, Exec, pure, raise, attempt, ◌>>=◌, ◌>>◌}
use live_system_intelligence.Text.{slice_to, strip}
use live_system_intelligence.Certificate.Json.{Json}
use live_system_intelligence.NlQuery.{Row, Services, NlQueryResult}
use live_system_intelligence.NlQuery.Validator.{validate_cypher}
use live_system_intelligence.NlQuery.Translate.{translate_and_execute}
use live_system_intelligence.GraphApi.{
  Headers, Backend, Reply, body, error, http_exception, require_auth, require_admin,
}

pub record Records : Type 0 where
  pub record_count : ℕ
  pub records : List Row

module _ {W : Type 0} (services : Services W) (backend : Backend W) where
  abbrev pub on_records : String → Result (List Row) → Exec W (Reply Records)
  on_records cypher (ok records) =
      pure (body (record { record_count = length records; records = records }))
  on_records cypher (err e) = pure (
      error 400 (record {
        what = e.message;
        layer = "layer5:cypher";
        input = slice_to 100 cypher;
        action = "Check Cypher syntax and parameter names.";
      }))

  abbrev pub on_verdict : String → Dict String Json → Bool × String → Exec W (Reply Records)
  on_verdict cypher params (false, reason) = raise (http_exception ("Unsafe query: " <> reason))
  on_verdict cypher params (true, reason) =
      attempt (services.run_query cypher params) >>= on_records cypher

  unfoldable pub raw_cypher : Headers → String → Dict String Json → Exec W (Reply Records)
  unfolding require_admin validate_cypher
  raw_cypher headers cypher params = do
    require_admin backend headers
    on_verdict cypher params (validate_cypher services.wide cypher)

  abbrev pub not_answered : String → String → Reply NlQueryResult
  not_answered question what = error 422 (record {
    what = what;
    layer = "layer5:nl_query";
    input = slice_to 120 question;
    action = "Rephrase the question or use /query/cypher for precise queries.";
  })

  -- An empty error is none; the fields of the body are those of the result.
  abbrev pub reply_of : String → NlQueryResult → Option String → Reply NlQueryResult
  reply_of question result none = body result
  reply_of question result (some what) =
      if what == "" then body result else not_answered question what

  unfoldable pub nl_query : Headers → String → Dict String Json → Exec W (Reply NlQueryResult)
  unfolding require_auth translate_and_execute
  nl_query headers question params = do
    require_auth backend headers
    if strip question == "" then raise (http_exception "question must not be empty") else (do
      result ← translate_and_execute services question params 100
      pure (reply_of question result result.error))
