-- ===== src/Retry.antt =====
-- layer1/retry_client.py: exponential backoff with full jitter.
-- A delay is a whole number of milliseconds. `random.uniform` and `time.sleep` are the record
-- `Timing`; `exceptions` is the test that an `except` clause makes of an exception.
pub mod Calls
pub mod Backoff
pub mod Quiet
pub mod Recovery
use live_system_intelligence.Prelude.{
  ℕ, zero, suc, ◌+◌, ◌-◌, ◌*◌, ◌^◌, String, Bool, true, min, List, leb, if◌then◌else◌,
}
use live_system_intelligence.Exec.{Error, Result, ok, err, Exec}

-- What the retry loop calls outside the program.
pub record Timing (W : Type 0) : Type 0 where
  pub uniform : ℕ → W → ℕ × W
  pub sleep : ℕ → W → W

-- The keyword arguments of `with_retry`.
pub record Policy : Type 0 where
  pub max_attempts : ℕ
  pub base_delay : ℕ
  pub max_delay : ℕ
  pub exceptions : Error → Bool

abbrev pub every_exception : Error → Bool
every_exception e = true

-- The defaults of the keyword arguments.
abbrev pub default_policy : Policy
default_policy = record {
  max_attempts = 4;
  base_delay = 1000;
  max_delay = 30000;
  exceptions = every_exception;
}

abbrev pub with_attempts : ℕ → Policy
with_attempts n = record default_policy { max_attempts = n }

-- `min(max_delay, base_delay * (2 ** (attempt - 1)))`
unfoldable pub backoff_delay : Policy → ℕ → ℕ
backoff_delay p attempt = min p.max_delay (p.base_delay * 2 ^ (attempt - 1))

-- The sleep between two attempts, with its jitter.
unfoldable pub pause : {W : Type 0} → Timing W → Policy → ℕ → W → W
unfolding backoff_delay
pause t p attempt w = let (jitter, w') = t.uniform (backoff_delay p attempt) w in t.sleep jitter w'

-- What the loop's fuel leaves when it is used up.
abbrev pub out_of_fuel : Error
out_of_fuel = record { kind = "OutOfFuel"; message = "" }

module _ {W A : Type 0} (t : Timing W) (p : Policy) where
  -- The `while True` loop; `attempt` counts the failures so far.
  unfoldable pub retry_loop : ℕ → ℕ → Exec W A → Exec W A
  retry_loop zero attempt fn w = (err out_of_fuel, w)
  retry_loop (suc fuel) attempt fn w =
      let (r, w') = fn w in
      let again = retry_loop fuel (attempt + 1) fn (pause t p (attempt + 1) w') in
      elim r [
        | ok a ↦ (ok a, w')
        | err e ↦
            if p.exceptions e
            then if leb p.max_attempts (attempt + 1) then (err e, w') else again
            else (err e, w')
      ]

  unfoldable pub with_retry : Exec W A → Exec W A
  unfolding retry_loop
  with_retry fn = retry_loop (p.max_attempts + 1) 0 fn
