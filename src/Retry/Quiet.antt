-- ===== src/Retry/Quiet.antt =====
-- What the world keeps over the tries of layer1/retry_client.py.
use live_system_intelligence.Prelude.{ℕ, zero, suc, ◌+◌, Bool, true, false, leb, if◌then◌else◌}
use live_system_intelligence.Exec.{Error, Result, ok, err, Exec}
use live_system_intelligence.Exec.Laws.{Returns}
use live_system_intelligence.Exec.Keeps.{Keeps}
use live_system_intelligence.Retry.{Timing, Policy, pause, retry_loop, with_retry}

module _ {W A : Type 0} (P : W → Type 0) where
  abbrev outcome : Result A → (Error → Bool) → Bool → W → Result A × W → Result A × W
  outcome r caught last w again = elim r [
    | ok a ↦ (ok a, w)
    | err e ↦ if caught e then if last then (err e, w) else again else (err e, w)
  ]

  raised :
      (e : Error) (b c : Bool) (w : W) (again : Result A × W)
      → P w
      → P again.1
      → P (if b then if c then (err e, w) else again else (err e, w)).1
  raised e false c w again p q = p
  raised e true true w again p q = p
  raised e true false w again p q = q

  after_try :
      (r : Result A) (caught : Error → Bool) (last : Bool) (w : W) (again : Result A × W)
      → P w
      → P again.1
      → P (outcome r caught last w again).1
  after_try (ok a) caught last w again p q = p
  after_try (err e) caught last w again p q = raised e (caught e) last w again p q

module _ {W : Type 0} (t : Timing W) (P : W → Type 0) where
  -- The waiting between two tries is nothing to `P`.
  abbrev pub Quiet : Type 0
  Quiet = (policy : Policy) (attempt : ℕ) (w : W) → P w → P (pause t policy attempt w)

module _ {W A : Type 0} (t : Timing W) (p : Policy) (P : W → Type 0) where
  Keeps-retry_loop :
      (fuel attempt : ℕ) (fn : Exec W A)
      → Quiet t P
      → Keeps P fn
      → Keeps P (retry_loop t p fuel attempt fn)
  unfolding retry_loop
  Keeps-retry_loop zero attempt fn quiet kf w h = h
  Keeps-retry_loop (suc fuel) attempt fn quiet kf w h =
      let h' = kf w h in
      after_try P (fn w).0 p.exceptions (leb p.max_attempts (attempt + 1)) (fn w).1
        (retry_loop t p fuel (attempt + 1) fn (pause t p (attempt + 1) (fn w).1)) h'
        (Keeps-retry_loop fuel (attempt + 1) fn quiet kf _ (quiet p (attempt + 1) (fn w).1 h'))

  -- The tries of a function keep what the function keeps, when the waiting does.
  pub Keeps-with_retry : (fn : Exec W A) → Quiet t P → Keeps P fn → Keeps P (with_retry t p fn)
  unfolding with_retry
  Keeps-with_retry fn quiet kf = Keeps-retry_loop (p.max_attempts + 1) 0 fn quiet kf

module _ {W A : Type 0} (t : Timing W) (p : Policy) (Q : A → Type 0) where
  Returns-outcome :
      (r : Result A) (caught : Error → Bool) (last : Bool) (w : W) (again : Result A × W)
      → Returns Q (r, w)
      → Returns Q again
      → Returns Q (outcome (λ _. Unit) r caught last w again)
  Returns-outcome (ok a) caught last w again q h = q
  Returns-outcome (err e) caught last w again q h = by_catch (caught e) last
    where
      by_catch :
          (b c : Bool) → Returns Q (if b then if c then (err e, w) else again else (err e, w))
      by_catch false c = tt
      by_catch true true = tt
      by_catch true false = h

  Returns-retry_loop :
      (fuel attempt : ℕ) (fn : Exec W A)
      → ((w : W) → Returns Q (fn w))
      → (w : W) → Returns Q (retry_loop t p fuel attempt fn w)
  unfolding retry_loop
  Returns-retry_loop zero attempt fn h w = tt
  Returns-retry_loop (suc fuel) attempt fn h w =
      Returns-outcome (fn w).0 p.exceptions (leb p.max_attempts (attempt + 1)) (fn w).1
        (retry_loop t p fuel (attempt + 1) fn (pause t p (attempt + 1) (fn w).1)) (h w)
        (Returns-retry_loop fuel (attempt + 1) fn h _)

  -- What the tries of a function return has what each of its returns has.
  pub Returns-with_retry :
      (fn : Exec W A) → ((w : W) → Returns Q (fn w)) → (w : W) → Returns Q (with_retry t p fn w)
  unfolding with_retry
  Returns-with_retry fn h w = Returns-retry_loop (p.max_attempts + 1) 0 fn h w
