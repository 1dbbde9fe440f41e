-- ===== src/Retry/Recovery.antt =====
-- That `with_retry` of layer1/retry_client.py gets over failures that pass.
use live_system_intelligence.Prelude.{
  ℕ, zero, suc, ◌+◌, ◌-◌, ◌≤◌, ◌<◌, max, true, ◌≡◌, refl, ◌⊎◌, inl, inr, arith,
}
use live_system_intelligence.Exec.{Error, Result, ok, err, Exec}
use live_system_intelligence.Retry.{Timing, Policy, pause, with_retry}
use live_system_intelligence.Retry.Calls.{tries, with_retry-eq-tries}

zero-or-suc : (n : ℕ) → (n ≡ 0) ⊎ ((m : ℕ) × (n ≡ suc m))
zero-or-suc zero = inl refl
zero-or-suc (suc m) = inr (m, refl)

abbrev pub Succeeded : {A : Type 0} → Result A → Type 0
Succeeded {A = A} r = (a : A) × (r ≡ ok a)

module _ {W A : Type 0} (t : Timing W) (p : Policy) (fn : Exec W A) (left : W → ℕ) where
  -- `left` failures are still to come, each of them one that is caught; the pauses bring none.
  pub record Passing : Type 0 where
    pub works : (w : W) → left w ≡ 0 → Succeeded (fn w).0
    pub fails :
        (n : ℕ) (w : W)
        → left w ≡ suc n
        → (e : Error) × (p.exceptions e ≡ true) × ((fn w).0 ≡ err e) × (left (fn w).1 ≡ n)
    pub quiet : (attempt : ℕ) (w : W) → left (pause t p attempt w) ≡ left w

  module _ (passing : Passing) where
    tries-Succeeded :
        (more attempt : ℕ) (w : W) → left w ≤ more → Succeeded (tries t p more attempt fn w).0
    tries-Succeeded zero attempt w h = passing.works w (omega (arith, h))
    tries-Succeeded (suc more) attempt w h = elim (zero-or-suc (left w)) [
      | inl e ↦ let (a, r) = passing.works w e in rw (r, tries) (a, refl)
      | inr (n, e) ↦
          let (x, caught, r, later) = passing.fails n w e in
          let calm = passing.quiet (attempt + 1) (fn w).1 in
          rw (r, caught, tries)
            (tries-Succeeded more (attempt + 1) (pause t p (attempt + 1) (fn w).1)
              (omega (arith, h, e, later, calm)))
    ]

    -- Let the function fail as often as `left` says and then succeed, each failure be one that
    -- `exceptions` catches, and the pauses bring none. Then a call returns if fewer failures are to come
    -- than it makes attempts, `max(1, max_attempts)`.
    pub with_retry-Succeeded :
        (w : W) → left w < max 1 p.max_attempts → Succeeded (with_retry t p fn w).0
    with_retry-Succeeded w h =
        rw with_retry-eq-tries (tries-Succeeded (max 1 p.max_attempts - 1) 0 w (omega (arith, h)))
