-- ===== src/Retry/Backoff.antt =====
-- The delays of `with_retry` of layer1/retry_client.py, and the time that it sleeps.
use live_system_intelligence.Prelude.{ℕ, zero, suc, ◌+◌, ◌-◌, ◌*◌, ◌^◌, ◌≤◌, min, max, ◌≡◌, arith}
use native.Mathlib.Nat.{pow-suc}
use live_system_intelligence.Exec.{Exec}
use live_system_intelligence.Retry.{Timing, Policy, backoff_delay, pause, with_retry}
use live_system_intelligence.Retry.Calls.{tries, with_retry-eq-tries}

doubled : (base k : ℕ) → base * 2 ^ (k + 2 - 1) ≡ 2 * (base * 2 ^ (k + 1 - 1))
doubled base k =
    let later : k + 2 - 1 ≡ suc k = omega arith in
    let now : k + 1 - 1 ≡ k = omega arith in rw (later, now, pow-suc) (omega arith)

-- The first delay is `base_delay`, and each later one is twice the delay before it, both cut off
-- at `max_delay`.
pub backoff_delay-doubles :
    (p : Policy) (k : ℕ)
    → (backoff_delay p 1 ≡ min p.max_delay p.base_delay)
      × (backoff_delay p (k + 2) ≡ min p.max_delay (2 * backoff_delay p (k + 1)))
unfolding backoff_delay
backoff_delay-doubles p k = (omega arith, omega (arith, doubled p.base_delay k))

backoff_delay-le : (p : Policy) (k : ℕ) → backoff_delay p k ≤ p.max_delay
unfolding backoff_delay
backoff_delay-le p k = omega arith

-- The laws of `random.uniform(0, d)`, which lies between its bounds, and of `time.sleep(d)`, which
-- takes the time `d` on a clock that `slept` reads.
pub record IsTimed {W : Type 0} (t : Timing W) (slept : W → ℕ) : Type 0 where
  pub uniform_le : (d : ℕ) (w : W) → (t.uniform d w).0 ≤ d
  pub uniform_takes : (d : ℕ) (w : W) → slept (t.uniform d w).1 ≡ slept w
  pub sleep_takes : (d : ℕ) (w : W) → slept (t.sleep d w) ≡ slept w + d

module _ {W : Type 0} (t : Timing W) (p : Policy) (slept : W → ℕ) (timed : IsTimed t slept) where
  pause-le : (n : ℕ) (w : W) → slept (pause t p n w) ≤ slept w + p.max_delay
  unfolding pause
  pause-le n w = omega (
    arith,
    backoff_delay-le p n,
    timed.uniform_le (backoff_delay p n) w,
    timed.uniform_takes (backoff_delay p n) w,
    timed.sleep_takes (t.uniform (backoff_delay p n) w).0 (t.uniform (backoff_delay p n) w).1,
  )

module _ {W A : Type 0} (t : Timing W) (p : Policy) (slept : W → ℕ) (timed : IsTimed t slept) where
  tries-slept :
      (fn : Exec W A)
      → ((w : W) → slept (fn w).1 ≡ slept w)
      → (left attempt : ℕ) (w : W)
      → slept (tries t p left attempt fn w).1 ≤ slept w + left * p.max_delay
  tries-slept fn idle zero attempt w = omega (arith, idle w)
  tries-slept fn idle (suc left) attempt w =
      let w' = pause t p (attempt + 1) (fn w).1 in
      ground (
        arith,
        idle w,
        pause-le t p slept timed (attempt + 1) (fn w).1,
        tries-slept fn idle left (attempt + 1) w',
      )

  -- A call of `with_retry` sleeps at most `max_delay` between two tries, so at most
  -- `(max(1, max_attempts) - 1) * max_delay` in all, where the function itself does not sleep
  -- and `uniform` and `sleep` take the time that they should.
  pub with_retry-slept :
      (fn : Exec W A)
      → ((w : W) → slept (fn w).1 ≡ slept w)
      → (w : W) → slept (with_retry t p fn w).1 ≤ slept w + (max 1 p.max_attempts - 1) * p.max_delay
  with_retry-slept fn idle w =
      rw with_retry-eq-tries (tries-slept fn idle (max 1 p.max_attempts - 1) 0 w)
