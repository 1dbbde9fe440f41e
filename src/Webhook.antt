-- ===== src/Webhook.antt =====
-- layer6/github_webhook.py: the configuration and the client of the GitHub API. HTTP, `json.dumps`,
-- `str`, the clock and the environment are the record `GitHub`.
pub mod Job
pub mod Reports
pub mod Handler
pub mod Accepted
use live_system_intelligence.Prelude.{
  ℕ, String, ◌<>◌, Bool, true, false, not, Option, none, some, List, [], ◌∷◌, if◌then◌else◌, ltb,
  ◌==◌, string_eq,
}
use live_system_intelligence.Prelude.Dict.{Dict}
use live_system_intelligence.Exec.{
  Error, Result, ok, err, Exec, pure, raise, lift, try_except, ◌>>=◌, ◌>>◌,
}
use live_system_intelligence.Certificate.Json.{
  Json, null, bool, num, str, arr, obj, Items, nil, cons, Fields, end, field,
}
use live_system_intelligence.Certificate.Signing.{Crypto}

pub record Request : Type 0 where
  pub method : String
  pub url : String
  pub body : Option String
  pub authorization : String

pub record GitHub (W : Type 0) : Type 0 where
  pub urlopen : Request → Exec W Json
  pub dumps : Json → String
  pub dumps_indented : Dict String Json → String
  pub text_of : Json → String
  pub utcnow : W → String
  pub crypto : Crypto
  pub webhook_secret : String
  pub github_token : String
  pub service_map_text : String

abbrev pub dict : List (String × Json) → Fields
dict [] = end
dict ((k, v) ∷ d) = field k v (dict d)

-- Python's truth value of a decoded value.
abbrev pub is_truthy : Json → Bool
is_truthy null = false
is_truthy (bool b) = b
is_truthy (num n) = ltb 0 n
is_truthy (str s) = not (s == "")
is_truthy (arr nil) = false
is_truthy (arr (cons _ _)) = true
is_truthy (obj end) = false
is_truthy (obj (field _ _ _)) = true

abbrev pub get_field : String → Fields → Option Json
get_field k end = none
get_field k (field j v fs) =
    let later = get_field k fs in
    elim later [ some found ↦ some found | none ↦ if k == j then some v else none ]

abbrev pub attribute_error : Error
attribute_error = record { kind = "AttributeError"; message = "object has no attribute 'get'" }

-- `v.get(k)`, of a value that need not be a dict.
abbrev pub get : String → Json → Result (Option Json)
get k (obj fs) = ok (get_field k fs)
get k _ = err attribute_error

abbrev pub or_null : Option Json → Json
or_null none = null
or_null (some v) = v

module _ {W : Type 0} (github : GitHub W) where
  abbrev pub encoded : Option Json → Option String
  encoded none = none
  encoded (some v) = if is_truthy v then some (github.dumps v) else none

  abbrev pub request : String → String → Option Json → Request
  request method url body = record {
    method = method;
    url = url;
    body = encoded body;
    authorization = "Bearer " <> github.github_token;
  }

  -- `_gh_request`: an empty dict, where the call fails.
  unfoldable pub gh_request : String → String → Option Json → Exec W Json
  gh_request method url body =
      try_except (github.urlopen (request method url body)) (λ e. pure (obj end))

  abbrev pub created_body : String → String → String → Json
  created_body head_sha pr_number started_at = obj (
      dict (
        ("name", str "LSIG Change Impact")
        ∷ ("head_sha", str head_sha)
        ∷ ("status", str "in_progress")
        ∷ ("started_at", str started_at)
        ∷ (
          "output",
          obj (
              dict (
                ("title", str "Analysing change impact…")
                ∷ (
                  "summary",
                  str ("Generating certificate for PR #" <> pr_number <> ". This takes up to 60s."),
                )
                ∷ [])),
        )
        ∷ []))

  abbrev pub check_id_of : Json → Option String
  check_id_of v = if is_truthy v then some (github.text_of v) else none

  -- `_create_check_run`; a reply that is no dict raises.
  unfoldable pub create_check_run : String → String → ℕ → Exec W (Option String)
  unfolding gh_request
  create_check_run repo_full_name head_sha pr_number w =
      (do
        result ←
            gh_request "POST" ("https://api.github.com/repos/" <> repo_full_name <> "/check-runs")
              (some (created_body head_sha (github.text_of (num pr_number)) (github.utcnow w)))
        check_id ← lift (get "id" result)
        pure (check_id_of (or_null check_id)))
        w

  -- The names of the files of a reply's items.
  abbrev pub with_name : Json → List String → List String
  with_name (str s) names = if s == "" then names else s ∷ names
  with_name v names = if is_truthy v then github.text_of v ∷ names else names

  abbrev pub added : Result (Option Json) → Result (List String) → Result (List String)
  added (err e) names = err e
  added (ok v) (err e) = err e
  added (ok v) (ok names) = ok (with_name (or_null v) names)

  unfoldable pub file_names : Items → Result (List String)
  file_names nil = ok []
  file_names (cons v vs) = let names = file_names vs in added (get "filename" v) names

  abbrev pub files_of : Json → Result (List String)
  files_of (arr vs) = file_names vs
  files_of _ = ok []

  -- `_get_pr_changed_files`: the first page, of at most 100 files.
  unfoldable pub get_pr_changed_files : String → ℕ → Exec W (List String)
  unfolding gh_request file_names
  get_pr_changed_files repo_full_name pr_number = do
    result ←
        gh_request "GET"
          ("https://api.github.com/repos/"
            <> repo_full_name
            <> "/pulls/"
            <> github.text_of (num pr_number)
            <> "/files?per_page=100")
          none
    lift (files_of result)
