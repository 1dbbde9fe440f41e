-- ===== src/Tests/Cve.antt =====
-- layer3/cve_ingester.py, with one dependency, two advisories, and an OSV that fails on one of them.
use live_system_intelligence.Prelude.{
  ℕ, ◌+◌, true, none, some, [], ◌∷◌, ◌++◌, map, ◌==◌, string_eq, if◌then◌else◌, ◌≡◌, refl,
}
use live_system_intelligence.Exec.{Error, pure, raise}
use live_system_intelligence.Exec.Laws.{Succeeds}
use live_system_intelligence.Cve.{VersionRange, OsvRecord, Dependency, Ingester, Feeds}
use live_system_intelligence.Cve.Version.{parse_version_tuple, tuple_lt, in_range, version_in_range}
use live_system_intelligence.Cve.Events.{
  fixed_in, last_in, events_of, range_of, opening, opened, pair_events, pair_events-events_of,
}
use live_system_intelligence.Cve.Ingest.{ingest_for_service}
use live_system_intelligence.Cve.Ingested.{IsSummary, ingest_for_service-Succeeds}

abbrev range : VersionRange
range = record { introduced = some "1.0"; fixed = some "1.2.0"; last_affected = none }

parsed : parse_version_tuple "1.2.3rc1-4_5" ≡ 1 ∷ 2 ∷ 31 ∷ 4 ∷ []
unfolding parse_version_tuple
parsed = refl

-- A shorter tuple is less than the fixing one.
short_version : version_in_range "1.2" (range ∷ []) ≡ true
unfolding version_in_range in_range parse_version_tuple tuple_lt
short_version = refl

lower_end : in_range (1 ∷ 0 ∷ []) range ≡ true
unfolding in_range parse_version_tuple tuple_lt
lower_end = refl

upper_end : in_range (1 ∷ 1 ∷ 9 ∷ []) range ≡ true
unfolding in_range parse_version_tuple tuple_lt
upper_end = refl

pair_events-events_of_example :
    pair_events none
      (events_of (fixed_in "0" "1.2" ∷ last_in "2.0" "2.4" ∷ []) ++ opening (some "3"))
    ≡ map range_of (fixed_in "0" "1.2" ∷ last_in "2.0" "2.4" ∷ []) ++ opened (some "3")
pair_events-events_of_example =
    pair_events-events_of (fixed_in "0" "1.2" ∷ last_in "2.0" "2.4" ∷ []) (some "3")

abbrev osv : OsvRecord
osv = record {
  aliases = "GHSA-1" ∷ "CVE-1" ∷ [];
  affected = [];
  severity_scores = [];
  database_severity = "odd";
  published = "2024-01-01";
}

abbrev down : Error
down = record { kind = "URLError"; message = "no route" }

abbrev dependency : Dependency
dependency = record { id = "d1"; name = "pyjwt"; version = some "1.1"; ecosystem = "pypi" }

abbrev feeds : Feeds ℕ
feeds = record {
  timing = record { uniform = λ d w. (d, w); sleep = λ d w. w + d };
  now = λ w. w;
  epss_scores = λ cve_id. pure (91000 ∷ []);
  kev_ids = raise down;
  osv_ids = λ name ecosystem version. pure ("OSV-1" ∷ "OSV-2" ∷ []);
  osv_detail = λ id. if id == "OSV-1" then raise down else pure osv;
  upper = λ s. s;
  lower = λ s. s;
  read_time = λ s. none;
  dependencies = λ s. pure (dependency ∷ []);
  named_dependencies = λ name ecosystem. pure (dependency ∷ []);
  services = pure ("auth" ∷ []);
  upsert_vulnerability = λ rec. pure tt;
  link_dependency_to_vuln = λ dep_id vuln_id severity epss in_kev. pure tt;
}

abbrev fresh : Ingester ℕ
fresh = record { epss_cache = []; kev_set = []; kev_loaded_at = none; world = 0 }

ingest_for_service-Succeeds_example :
    Succeeds (IsSummary "auth" (dependency ∷ [])) (ingest_for_service feeds "auth" fresh)
ingest_for_service-Succeeds_example = ingest_for_service-Succeeds feeds "auth" fresh refl
