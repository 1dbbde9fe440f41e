-- ===== src/Tests/Certificate/Signing.antt =====
-- The signatures of layer6/certificate_engine.py, with a digest that is the text behind its key.
use Prim.Native.String.append
use live_system_intelligence.Prelude.{
  String, ◌<>◌, Bool, true, false, Option, some, [], ◌∷◌, ◌==◌, ==_iff, ==_refl, string_eq, ◌≡◌,
  ◌≢◌, ◌↔◌, refl, ap,
}
use live_system_intelligence.Prelude.Dict.{Dict, lookup}
use live_system_intelligence.Exec.{Result, ok, err}
use live_system_intelligence.Certificate.Json.{Json, str}
use live_system_intelligence.Certificate.Signing.{
  Crypto, IsSound, payload, sign_certificate, verify_certificate, verify_certificate_iff,
}

abbrev text_of : Option Json → String
text_of (some (str s)) = s
text_of _ = ""

abbrev pub crypto : Crypto
crypto = record {
  dumps = λ d. text_of (lookup "pr_id" d);
  hexdigest = λ key text. "f" <> key <> text;
  compare_digest = λ a b. ok (a == b);
}

abbrev is_nonempty : String → Bool
is_nonempty String.[] = false
is_nonempty (String.◌∷◌ c s) = true

abbrev passed : Result Bool → Bool
passed (ok b) = b
passed (err e) = false

digest-nonempty : (t : String) → ("f" <> t) ≢ ""
digest-nonempty t e = cc (ap is_nonempty e, ap is_nonempty (append.cons "f" "" t))

pub crypto-IsSound : IsSound crypto
crypto-IsSound = record {
  dumps_cong = λ d e same. ap text_of (same "pr_id");
  compare_same = λ key text. ap ok (==_refl ("f" <> key <> text));
  compare_scheme = λ key text. ap ok (==_refl ("sha256=" <> "f" <> key <> text));
  digest_nonempty = λ key text. digest-nonempty (key <> text);
  compare_true = λ a b same. (==_iff a b).0 (ap passed same);
}

abbrev cert_dict : Dict String Json
cert_dict = ("pr_id", str "PR-42") ∷ ("signature", str "stale") ∷ []

stale_run : verify_certificate crypto "secret" cert_dict ≡ ok false
unfolding verify_certificate sign_certificate payload lookup
stale_run = refl

verify_certificate_iff_example :
    (verify_certificate crypto "secret" cert_dict ≡ ok true)
    ↔ (lookup "signature" cert_dict ≡ some (str (sign_certificate crypto "secret" cert_dict)))
verify_certificate_iff_example = verify_certificate_iff crypto "secret" crypto-IsSound cert_dict
