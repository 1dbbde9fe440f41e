-- ===== src/Retry/Calls.antt =====
-- How often `with_retry` of layer1/retry_client.py calls its function, and what it returns.
use live_system_intelligence.Prelude.{
  ℕ, zero, suc, ◌+◌, ◌-◌, ◌≤◌, ◌<◌, max, ◌≡◌, false, arith, leb, if◌then◌else◌, lt→leb, le→leb,
}
use live_system_intelligence.Exec.{ok, err, Exec}
use live_system_intelligence.Retry.{Timing, Policy, pause, retry_loop, with_retry}

module _ {W A : Type 0} (t : Timing W) (p : Policy) where
  -- `n + 1` tries in a row, each but the last followed by a pause: the first success is returned,
  -- an exception that is not caught or that the last try meets is raised.
  abbrev pub tries : ℕ → ℕ → Exec W A → Exec W A
  tries zero attempt fn w = fn w
  tries (suc left) attempt fn w =
      let (r, w') = fn w in
      let again = tries left (attempt + 1) fn (pause t p (attempt + 1) w') in
      elim r [ ok a ↦ (ok a, w') | err e ↦ if p.exceptions e then again else (err e, w') ]

  retry_loop-last :
      (fuel attempt : ℕ) (fn : Exec W A) (w : W)
      → p.max_attempts ≤ attempt + 1
      → retry_loop t p (suc fuel) attempt fn w ≡ fn w
  unfolding retry_loop
  retry_loop-last fuel attempt fn w h = ground (arith, le→leb p.max_attempts (attempt + 1))

  retry_loop-eq-tries :
      (left fuel attempt : ℕ) (fn : Exec W A) (w : W)
      → attempt + 1 + left ≡ max 1 p.max_attempts
      → left < fuel
      → retry_loop t p fuel attempt fn w ≡ tries left attempt fn w
  unfolding retry_loop
  retry_loop-eq-tries left zero attempt fn w h enough = absurd (omega arith)
  retry_loop-eq-tries zero (suc fuel) attempt fn w h enough =
      retry_loop-last fuel attempt fn w (omega arith)
  retry_loop-eq-tries (suc left) (suc fuel) attempt fn w h enough =
      let more : leb p.max_attempts (attempt + 1) ≡ false =
        lt→leb p.max_attempts (attempt + 1) (omega arith) in
      let again = pause t p (attempt + 1) (fn w).1 in
      ground (arith, more, retry_loop-eq-tries left fuel (attempt + 1) fn again)

  -- `with_retry` tries `max(1, max_attempts)` times at most: it returns the first success, and
  -- raises at once what `exceptions` leaves out, and else the exception of the last try.
  pub with_retry-eq-tries :
      (fn : Exec W A) (w : W) → with_retry t p fn w ≡ tries (max 1 p.max_attempts - 1) 0 fn w
  unfolding with_retry
  with_retry-eq-tries fn w =
      retry_loop-eq-tries _ (p.max_attempts + 1) 0 fn w (omega arith) (omega arith)

module _ {W A : Type 0} (t : Timing W) (p : Policy) (calls : W → ℕ) where
  tries-calls :
      (fn : Exec W A)
      → ((w : W) → calls (fn w).1 ≡ calls w + 1)
      → ((n : ℕ) (w : W) → calls (pause t p n w) ≡ calls w)
      → (left attempt : ℕ) (w : W) → calls (tries t p left attempt fn w).1 ≤ calls w + left + 1
  tries-calls fn once quiet zero attempt w = omega (arith, once w)
  tries-calls fn once quiet (suc left) attempt w =
      let w' = pause t p (attempt + 1) (fn w).1 in
      ground (
        arith,
        once w,
        quiet (attempt + 1) (fn w).1,
        tries-calls fn once quiet left (attempt + 1) w',
      )

  -- The function is called at most `max(1, max_attempts)` times, where `calls` counts its calls
  -- and the pauses make none.
  pub with_retry-calls :
      (fn : Exec W A)
      → ((w : W) → calls (fn w).1 ≡ calls w + 1)
      → ((n : ℕ) (w : W) → calls (pause t p n w) ≡ calls w)
      → (w : W) → calls (with_retry t p fn w).1 ≤ calls w + max 1 p.max_attempts
  with_retry-calls fn once quiet w =
      rw with_retry-eq-tries
        (omega (arith, tries-calls fn once quiet (max 1 p.max_attempts - 1) 0 w))
