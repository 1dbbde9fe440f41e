-- ===== src/CodeIngester/Unversioned.antt =====
-- What layer1/code_ingester.py does with a directory that is no clone.
use live_system_intelligence.Prelude.{String, ◌<>◌, true, false, Option, none, ◌≡◌, refl}
use live_system_intelligence.Exec.{ok}
use live_system_intelligence.Text.{starts_with}
use live_system_intelligence.CodeIngester.{Sources, no_changes}
use live_system_intelligence.CodeIngester.Ingest.{
  resolve_repo, last_sha_of, sha_of, ingest_at, ingest,
}

module _ {W : Type 0} (sources : Sources W) where
  -- A local directory that is no clone, and of which no run has left a state, is reported as unchanged
  -- without a file being read, unless the run is forced.
  pub ingest-unversioned :
      (repo service : String) (work_dir : Option String) (w : W)
      → starts_with "http" repo ≡ false
      → sources.exists repo w ≡ true
      → sources.exists (repo <> "/.git") w ≡ false
      → sources.read_state service w ≡ (ok none, w)
      → ingest sources repo service work_dir false w ≡ (ok (no_changes none), w)
  unfolding ingest resolve_repo ingest_at last_sha_of sha_of
  ingest-unversioned repo service work_dir w local there no_git no_state =
      rw (local, there, no_state, no_git) refl
