-- ===== src/Sbom/Ecosystem.antt =====
-- The prefixes of package URLs in layer3/sbom_ingester.py.
use mathlib.Core.Option.{none-ne-some}
use live_system_intelligence.Prelude.{
  String, Bool, true, false, not, ◌&&◌, ◌||◌, some, [], ◌∷◌, ==_iff, string_eq, ◌≡◌, refl, arith,
}
use live_system_intelligence.Prelude.Dict.{Dict, lookup}
use live_system_intelligence.Text.{starts_with}
use live_system_intelligence.Sbom.Components.{purl_ecosystem, first_prefix, ecosystem_from_purl}

abbrev comparable : String → String → Bool
comparable p q = starts_with p q || starts_with q p

-- Two prefixes of one text are comparable.
starts_with-comparable :
    (p q s : String) → starts_with p s ≡ true → starts_with q s ≡ true → comparable p q ≡ true
starts_with-comparable String.[] q s hp hq = refl
starts_with-comparable (String.◌∷◌ c p) String.[] s hp hq = refl
starts_with-comparable (String.◌∷◌ c p) (String.◌∷◌ d q) String.[] hp hq = ground (arith, hp)
starts_with-comparable (String.◌∷◌ c p) (String.◌∷◌ d q) (String.◌∷◌ e s) hp hq =
    ground (arith, hp, hq, starts_with-comparable p q s)

-- No key is comparable with `p`.
abbrev clear : String → Dict String String → Bool
clear p [] = true
clear p ((q, name) ∷ d) = not (comparable p q) && clear p d

abbrev apart : Dict String String → Bool
apart [] = true
apart ((p, name) ∷ d) = clear p d && apart d

clear-lookup :
    (p k name : String) (d : Dict String String)
    → lookup k d ≡ some name
    → clear p d ≡ true
    → comparable p k ≡ false
unfolding lookup
clear-lookup p k name [] h c = absurd (none-ne-some name h)
clear-lookup p k name ((q, n) ∷ d) h c = ground (arith, h, c, clear-lookup p k name d, ==_iff k q)

first_prefix-lookup :
    (purl prefix name : String) (d : Dict String String)
    → apart d ≡ true
    → lookup prefix d ≡ some name
    → starts_with prefix purl ≡ true
    → first_prefix purl d ≡ name
unfolding lookup
first_prefix-lookup purl prefix name [] a h s = absurd (none-ne-some name h)
first_prefix-lookup purl prefix name ((q, n) ∷ d) a h s = ground (
  arith,
  a,
  h,
  s,
  first_prefix-lookup purl prefix name d,
  ==_iff prefix q,
  clear-lookup q prefix name d,
  starts_with-comparable q prefix purl,
)

-- A package URL that starts with a prefix of the table has the ecosystem that the table gives that
-- prefix, in whatever order the table is searched.
pub ecosystem_from_purl-lookup :
    (purl prefix name : String)
    → lookup prefix purl_ecosystem ≡ some name
    → starts_with prefix purl ≡ true
    → ecosystem_from_purl purl ≡ name
unfolding ecosystem_from_purl
ecosystem_from_purl-lookup purl prefix name h s =
    first_prefix-lookup purl prefix name purl_ecosystem refl h s
