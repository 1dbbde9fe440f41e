-- ===== src/Sbom/Components.antt =====
-- The CycloneDX parser of layer3/sbom_ingester.py.
use live_system_intelligence.Prelude.{
  String, ◌<>◌, not, ◌&&◌, Option, none, some, List, [], ◌∷◌, ◌==◌, string_eq, if◌then◌else◌,
}
use live_system_intelligence.Prelude.Dict.{Dict}
use live_system_intelligence.Text.{starts_with}
use live_system_intelligence.Sbom.{Cpe, absent, one, many, License, entry, other, Item, Component}

abbrev pub purl_ecosystem : Dict String String
purl_ecosystem =
    ("pkg:pypi", "pypi")
    ∷ ("pkg:npm", "npm")
    ∷ ("pkg:golang", "go")
    ∷ ("pkg:maven", "maven")
    ∷ ("pkg:gem", "gem")
    ∷ ("pkg:cargo", "cargo")
    ∷ ("pkg:nuget", "nuget")
    ∷ ("pkg:composer", "composer")
    ∷ ("pkg:deb", "deb")
    ∷ ("pkg:rpm", "rpm")
    ∷ ("pkg:apk", "apk")
    ∷ []

-- The loop over the prefixes.
abbrev pub first_prefix : String → Dict String String → String
first_prefix purl [] = "unknown"
first_prefix purl ((prefix, name) ∷ d) =
    if starts_with prefix purl then name else first_prefix purl d

unfoldable pub ecosystem_from_purl : String → String
ecosystem_from_purl purl = first_prefix purl purl_ecosystem

-- The first CPE, if there is one.
unfoldable pub cpe_of : Cpe → String
cpe_of absent = ""
cpe_of (one cpe) = cpe
cpe_of (many []) = ""
cpe_of (many (cpe ∷ more)) = cpe

abbrev pub or_empty : Option String → String
or_empty none = ""
or_empty (some s) = s

-- `lic.get("id", lic.get("name", ""))`
abbrev pub id_or_name : Option String → Option String → String
id_or_name (some id) name = id
id_or_name none name = or_empty name

unfoldable pub licenses_of : List License → List String
licenses_of [] = []
licenses_of (entry id name ∷ more) = id_or_name id name ∷ licenses_of more
licenses_of (other ∷ more) = licenses_of more

abbrev pub component_of : Item → Component
component_of comp = record {
  name = comp.name;
  version = comp.version;
  ecosystem = ecosystem_from_purl comp.purl;
  purl = comp.purl;
  cpe = cpe_of comp.cpe;
  licenses = licenses_of comp.licenses;
}

-- The components that have a name and a version.
unfoldable pub parse_cyclonedx : List Item → List Component
unfolding ecosystem_from_purl cpe_of licenses_of
parse_cyclonedx [] = []
parse_cyclonedx (comp ∷ components) =
    let rest = parse_cyclonedx components in
    if not (comp.name == "") && not (comp.version == "") then component_of comp ∷ rest else rest

unfoldable pub dep_id : String → Component → String
dep_id service comp = service <> ":" <> comp.ecosystem <> ":" <> comp.name <> ":" <> comp.version
