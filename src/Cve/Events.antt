-- ===== src/Cve/Events.antt =====
-- layer3/cve_ingester.py: what `_build_vuln_record` collects from the affected packages, and the
-- pairing of the events of a range.
use live_system_intelligence.Prelude.{
  String, Option, none, some, List, [], ◌∷◌, ◌++◌, map, contains, ap, ◌==◌, string_eq,
  if◌then◌else◌, ◌≡◌, refl,
}
use live_system_intelligence.Cve.{VersionRange, RangeEvent, OsvRange, Affected}

abbrev pub closed_range : String → String → VersionRange
closed_range introduced fixed = record {
  introduced = some introduced;
  fixed = some fixed;
  last_affected = none;
}

abbrev pub last_range : String → String → VersionRange
last_range introduced last = record {
  introduced = some introduced;
  fixed = none;
  last_affected = some last;
}

abbrev pub open_range : String → VersionRange
open_range introduced = record { introduced = some introduced; fixed = none; last_affected = none }

-- The range that an event that introduces nothing ends, and the version that stays introduced.
abbrev pub ended :
    Option String → Option String → Option String → Option VersionRange × Option String
ended none fixed last = (none, none)
ended (some introduced) (some fixed) last = (some (closed_range introduced fixed), none)
ended (some introduced) none (some last) = (some (last_range introduced last), none)
ended (some introduced) none none = (none, some introduced)

abbrev pub after_event : Option String → RangeEvent → Option VersionRange × Option String
after_event introduced ev = elim ev.introduced [
  | some version ↦ (none, some version)
  | none ↦ ended introduced ev.fixed ev.last_affected
]

abbrev pub emit : Option VersionRange → List VersionRange → List VersionRange
emit none ranges = ranges
emit (some r) ranges = r ∷ ranges

-- The loop over the events, from the version that is introduced so far.
unfoldable pub pair_events : Option String → List RangeEvent → List VersionRange
pair_events none [] = []
pair_events (some introduced) [] = open_range introduced ∷ []
pair_events introduced (ev ∷ evs) =
    let (r, introduced') = after_event introduced ev in emit r (pair_events introduced' evs)

abbrev pub range_kinds : List String
range_kinds = "SEMVER" ∷ "ECOSYSTEM" ∷ "GIT" ∷ []

abbrev pub paired : OsvRange → List VersionRange
paired rng = if contains rng.kind range_kinds then pair_events none rng.events else []

unfoldable pub version_ranges : List OsvRange → List VersionRange
unfolding pair_events
version_ranges [] = []
version_ranges (rng ∷ rngs) = paired rng ++ version_ranges rngs

-- The package so far; an entry is read only while no name was found.
abbrev pub package_after : (String → String) → String × String → Affected → String × String
package_after lower (name, ecosystem) aff =
    if name == "" then (aff.package_name, lower aff.ecosystem) else (name, ecosystem)

unfoldable pub package_of : (String → String) → String × String → List Affected → String × String
package_of lower pkg [] = pkg
package_of lower pkg (aff ∷ affected) = package_of lower (package_after lower pkg aff) affected

-- A range as OSV writes it, in two events.
pub data Span : Type 0 where
  fixed_in : String → String → Span
  last_in : String → String → Span

abbrev no_event : RangeEvent
no_event = record { introduced = none; fixed = none; last_affected = none }

abbrev introduces : String → RangeEvent
introduces version = record no_event { introduced = some version }

abbrev pub events_of : List Span → List RangeEvent
events_of [] = []
events_of (fixed_in introduced fixed ∷ spans) =
    introduces introduced ∷ record no_event { fixed = some fixed } ∷ events_of spans
events_of (last_in introduced last ∷ spans) =
    introduces introduced ∷ record no_event { last_affected = some last } ∷ events_of spans

abbrev pub range_of : Span → VersionRange
range_of (fixed_in introduced fixed) = closed_range introduced fixed
range_of (last_in introduced last) = last_range introduced last

abbrev pub opening : Option String → List RangeEvent
opening none = []
opening (some version) = introduces version ∷ []

abbrev pub opened : Option String → List VersionRange
opened none = []
opened (some version) = open_range version ∷ []

-- The events of ranges, written one after another with an open one at the end or none, are paired
-- back to those ranges.
pub pair_events-events_of :
    (spans : List Span) (open_at : Option String)
    → pair_events none (events_of spans ++ opening open_at) ≡ map range_of spans ++ opened open_at
unfolding pair_events
pair_events-events_of [] none = refl
pair_events-events_of [] (some version) = refl
pair_events-events_of (fixed_in introduced fixed ∷ spans) open_at =
    ap (λ rs. closed_range introduced fixed ∷ rs) (pair_events-events_of spans open_at)
pair_events-events_of (last_in introduced last ∷ spans) open_at =
    ap (λ rs. last_range introduced last ∷ rs) (pair_events-events_of spans open_at)
