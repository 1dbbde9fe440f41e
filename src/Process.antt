-- ===== src/Process.antt =====
-- `subprocess`, as layers 3 and 4 use it to run syft, nuclei and codeql: `run` is the operating system's.
use live_system_intelligence.Prelude.{
  ℕ, String, Bool, true, false, ◌||◌, List, nat_beq, ◌==◌, string_eq, if◌then◌else◌,
}
use live_system_intelligence.Exec.{Error, Exec, pure, raise, try_except, ◌>>=◌, ◌>>◌}
use live_system_intelligence.Exec.Keeps.{Keeps, Keeps-bind, Keeps-branch, Keeps-try_except}

-- What a process leaves.
pub record Process : Type 0 where
  pub returncode : ℕ
  pub stderr : String

module _ {W : Type 0} (run : List String → Exec W Process) where
  -- `subprocess.run(command, check=True)`
  abbrev pub run_checked : List String → Exec W Process
  run_checked command = do
    process ← run command
    if nat_beq process.returncode 0
        then pure process
        else raise (record { kind = "CalledProcessError"; message = process.stderr })

  abbrev pub unavailable : Error → Exec W Bool
  unavailable e =
      if e.kind == "FileNotFoundError" || e.kind == "CalledProcessError"
      then pure false
      else raise e

  -- Whether a command runs: `_codeql_available`, `_syft_available` and `_nuclei_available`.
  unfoldable pub available : List String → Exec W Bool
  available command = try_except (run_checked command >> pure true) unavailable

  module _ (P : W → Type 0) (kept : (command : List String) → Keeps P (run command)) where
    pub Keeps-run_checked : (command : List String) → Keeps P (run_checked command)
    Keeps-run_checked command = Keeps-bind P (run command) _ (kept command) λ process.
        Keeps-branch P (nat_beq process.returncode 0) (pure process) _ (λ e w p. p) λ e w p. p

    Keeps-unavailable : (e : Error) → Keeps P (unavailable e)
    Keeps-unavailable e =
        Keeps-branch P (e.kind == "FileNotFoundError" || e.kind == "CalledProcessError")
          (pure false) (raise e) (λ e w p. p) λ e w p. p

    -- Looking for a command keeps what its run keeps.
    pub Keeps-available : (command : List String) → Keeps P (available command)
    unfolding available
    Keeps-available command =
        Keeps-try_except P (run_checked command >> pure true) unavailable
          (Keeps-bind P (run_checked command) _ (Keeps-run_checked command) λ process w p. p)
          Keeps-unavailable
