-- ===== src/Certificate/Signing.antt =====
-- layer6/certificate_engine.py: `_sign_certificate` and `verify_certificate`. `json.dumps` with its
-- keys sorted, `hmac.new(…).hexdigest()` and `hmac.compare_digest` are the record `Crypto`.
use live_system_intelligence.Prelude.{
  String, Bool, true, Option, none, some, [], ◌∷◌, ◌<>◌, ◌==◌, ==_iff, string_eq, if◌then◌else◌,
  ◌≡◌, arith, ◌≢◌, ◌↔◌, ap, sym,
}
use live_system_intelligence.Prelude.Dict.{Dict, lookup, insert, lookup-insert}
use live_system_intelligence.Exec.{Result, ok, err}
use live_system_intelligence.Certificate.Json.{Json, null, bool, num, str, arr, obj}

pub record Crypto : Type 0 where
  pub dumps : Dict String Json → String
  pub hexdigest : String → String → String
  pub compare_digest : String → String → Result Bool

-- What the library functions are known to do: sorted keys make the text a matter of the entries
-- alone, a digest is never empty, and it is equal to itself, also behind
-- the scheme of a webhook's header, and to no other text.
pub record IsSound (c : Crypto) : Type 0 where
  pub dumps_cong :
      (d e : Dict String Json) → ((k : String) → lookup k d ≡ lookup k e) → c.dumps d ≡ c.dumps e
  pub compare_same :
      (key text : String) → c.compare_digest (c.hexdigest key text) (c.hexdigest key text) ≡ ok true
  pub compare_scheme :
      (key text : String)
      → c.compare_digest ("sha256=" <> c.hexdigest key text) ("sha256=" <> c.hexdigest key text)
        ≡ ok true
  pub digest_nonempty : (key text : String) → c.hexdigest key text ≢ ""
  pub compare_true : (a b : String) → c.compare_digest a b ≡ ok true → a ≡ b

-- `{k: v for k, v in d.items() if k != "signature"}`
unfoldable pub payload : Dict String Json → Dict String Json
payload [] = []
payload ((k, v) ∷ d) = let rest = payload d in if k == "signature" then rest else (k, v) ∷ rest

module _ (crypto : Crypto) (secret : String) where
  unfoldable pub sign_certificate : Dict String Json → String
  sign_certificate cert_dict = crypto.hexdigest secret (crypto.dumps (payload cert_dict))

  -- The second operand of `compare_digest`, which takes no value but a text.
  abbrev pub compare : String → Option Json → Result Bool
  compare expected none = crypto.compare_digest expected ""
  compare expected (some (str s)) = crypto.compare_digest expected s
  compare expected (some _) = err (record {
    kind = "TypeError";
    message = "unsupported operand types(s) or combination of types";
  })

  unfoldable pub verify_certificate : Dict String Json → Result Bool
  unfolding sign_certificate
  verify_certificate cert_dict = compare (sign_certificate cert_dict) (lookup "signature" cert_dict)

lookup-payload :
    (k : String) (d : Dict String Json)
    → lookup k (payload d) ≡ (if k == "signature" then none else lookup k d)
unfolding lookup payload
lookup-payload k [] = ground arith
lookup-payload k ((j, v) ∷ d) =
    ground (arith, lookup-payload k d, ==_iff k j, ==_iff k "signature", ==_iff j "signature")

payload-insert :
    (v : Json) (d : Dict String Json) (k : String)
    → lookup k (payload (insert "signature" v d)) ≡ lookup k (payload d)
payload-insert v d k = rw (lookup-payload, lookup-payload, lookup-insert) (ground arith)

module _ (crypto : Crypto) (secret : String) (sound : IsSound crypto) where
  sign_certificate-insert :
      (v : Json) (d : Dict String Json)
      → sign_certificate crypto secret (insert "signature" v d) ≡ sign_certificate crypto secret d
  unfolding sign_certificate
  sign_certificate-insert v d =
      ap (crypto.hexdigest secret) (sound.dumps_cong _ _ (payload-insert v d))

  -- With sound cryptographic functions, a dict verifies once its own signature is stored in it, whatever was stored there before.
  pub verify_certificate-sign :
      (d : Dict String Json)
      → verify_certificate crypto secret
          (insert "signature" (str (sign_certificate crypto secret d)) d)
        ≡ ok true
  unfolding verify_certificate
  verify_certificate-sign d =
      rw (sign_certificate-insert, lookup-insert)
        (sound.compare_same secret (crypto.dumps (payload d)))

  compare_iff :
      (expected : String) (o : Option Json)
      → expected ≢ ""
      → compare crypto secret expected o ≡ ok true
      → o ≡ some (str expected)
  compare_iff expected none some_text h = absurd (some_text (sound.compare_true expected "" h))
  compare_iff expected (some (str s)) some_text h =
      ap (λ t. some (str t)) (sym (sound.compare_true expected s h))
  compare_iff expected (some null) some_text h = cc
  compare_iff expected (some (bool b)) some_text h = cc
  compare_iff expected (some (num n)) some_text h = cc
  compare_iff expected (some (arr xs)) some_text h = cc
  compare_iff expected (some (obj fs)) some_text h = cc

  -- With sound cryptographic functions, a dict verifies exactly when the signature that it carries is the one of its other entries: a
  -- missing, a foreign and a stale signature, and one that is no text, all fail.
  pub verify_certificate_iff :
      (d : Dict String Json)
      → (verify_certificate crypto secret d ≡ ok true)
        ↔ (lookup "signature" d ≡ some (str (sign_certificate crypto secret d)))
  unfolding verify_certificate
  verify_certificate_iff d = (
    compare_iff _ (lookup "signature" d) (sound.digest_nonempty secret (crypto.dumps (payload d))),
    λ e. rw e (sound.compare_same secret (crypto.dumps (payload d))),
  )
