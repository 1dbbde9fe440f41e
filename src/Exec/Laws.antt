-- ===== src/Exec/Laws.antt =====
-- What is known of a block that ran to its end, and of its loops.
use live_system_intelligence.Prelude.{List, [], ◌∷◌}
use live_system_intelligence.Exec.{
  Error, Result, ok, err, Exec, ◌>>=◌, pure, handle, try_except, continue, for_each,
}

-- What a block leaves when it returns; nothing is said of one that raises.
abbrev pub Returns {ℓ κ} : {W A : Type ℓ} → (A → Type κ) → Result A × W → Type κ
Returns P (ok a, w) = P a
Returns P (err e, w) = Unit

module _ {ℓ κ} {W A B : Type ℓ} (P : B → Type κ) where
  Returns-continue :
      (r : Result A) (f : A → Exec W B) (w : W)
      → ((a : A) (v : W) → Returns P (f a v))
      → Returns P (continue r f w)
  Returns-continue (ok a) f w h = h a w
  Returns-continue (err e) f w h = tt

  -- A block's result has what the rest of the block gives it, for each result of the first step.
  pub Returns-bind :
      (m : Exec W A) (f : A → Exec W B) (w : W)
      → ((a : A) (v : W) → Returns P (f a v))
      → Returns P ((m >>= f) w)
  Returns-bind m f w h = Returns-continue (m w).0 f (m w).1 h

module _ {ℓ κ μ} {W A B : Type ℓ} (Q : A → Type κ) (P : B → Type μ) where
  Returns-both :
      (r : Result A) (f : A → Exec W B) (w : W)
      → Returns Q (r, w)
      → ((a : A) → Q a → (v : W) → Returns P (f a v))
      → Returns P (continue r f w)
  Returns-both (ok a) f w q h = h a q w
  Returns-both (err e) f w q h = tt

  -- The same where something is known of the first result.
  pub Returns-then :
      (m : Exec W A) (f : A → Exec W B) (w : W)
      → Returns Q (m w)
      → ((a : A) → Q a → (v : W) → Returns P (f a v))
      → Returns P ((m >>= f) w)
  Returns-then m f w q h = Returns-both (m w).0 f (m w).1 q h

module _ {ℓ} {A B : Type ℓ} (R : A → B → Type 0) where
  -- One result for each item, in order, each related to its item.
  abbrev pub Each : List A → List B → Type 0
  Each [] [] = Unit
  Each (x ∷ xs) (y ∷ ys) = R x y × Each xs ys
  Each _ _ = ⊥

module _ {ℓ} {W A B : Type ℓ} (R : A → B → Type 0) where
  pub for_each-Each :
      (f : A → Exec W B)
      → ((x : A) (w : W) → Returns (R x) (f x w))
      → (xs : List A) (w : W) → Returns (Each R xs) (for_each f xs w)
  unfolding for_each
  for_each-Each f h [] w = tt
  for_each-Each f h (x ∷ xs) w = Returns-then (R x) (Each R (x ∷ xs)) (f x) _ w (h x w) λ y r v.
      Returns-then (Each R xs) (Each R (x ∷ xs)) (for_each f xs) _ v (for_each-Each f h xs v)
        λ ys rs u. (r, rs)

-- The block returns, and its result has `P`.
abbrev pub Succeeds {ℓ} : {W A : Type ℓ} → (A → Type 0) → Result A × W → Type 0
Succeeds P (ok a, w) = P a
Succeeds P (err e, w) = ⊥

module _ {ℓ} {W A B : Type ℓ} (Q : A → Type 0) (P : B → Type 0) where
  Succeeds-both :
      (r : Result A) (f : A → Exec W B) (w : W)
      → Succeeds Q (r, w)
      → ((a : A) → Q a → (v : W) → Succeeds P (f a v))
      → Succeeds P (continue r f w)
  Succeeds-both (ok a) f w q h = h a q w
  Succeeds-both (err e) f w q h = q

  pub Succeeds-then :
      (m : Exec W A) (f : A → Exec W B) (w : W)
      → Succeeds Q (m w)
      → ((a : A) → Q a → (v : W) → Succeeds P (f a v))
      → Succeeds P ((m >>= f) w)
  Succeeds-then m f w q h = Succeeds-both (m w).0 f (m w).1 q h

module _ {ℓ} {W A : Type ℓ} (P : A → Type 0) (a : A) where
  Succeeds-handle : (r : Result A) (w : W) → ((b : A) → P b) → Succeeds P (handle r (λ e. pure a) w)
  Succeeds-handle (ok b) w h = h b
  Succeeds-handle (err e) w h = h a

  -- A handler that returns a value leaves nothing raised.
  pub Succeeds-try_except :
      (m : Exec W A) (w : W) → ((b : A) → P b) → Succeeds P (try_except m (λ e. pure a) w)
  Succeeds-try_except m w h = Succeeds-handle (m w).0 (m w).1 h

module _ {ℓ} {W A : Type ℓ} (P : A → Type 0) (g : Error → A) where
  Succeeds-rescue :
      (r : Result A) (w : W) → ((b : A) → P b) → Succeeds P (handle r (λ e. pure (g e)) w)
  Succeeds-rescue (ok b) w h = h b
  Succeeds-rescue (err e) w h = h (g e)

  -- The same for a handler whose value depends on what was raised.
  pub Succeeds-rescued :
      (m : Exec W A) (w : W) → ((b : A) → P b) → Succeeds P (try_except m (λ e. pure (g e)) w)
  Succeeds-rescued m w h = Succeeds-rescue (m w).0 (m w).1 h

module _ {ℓ} {W A : Type ℓ} (P : A → Type 0) (handler : Error → Exec W A) where
  Succeeds-unhandled : (r : Result A) (w : W) → Succeeds P (r, w) → Succeeds P (handle r handler w)
  Succeeds-unhandled (ok a) w h = h
  Succeeds-unhandled (err e) w h = absurd h

  -- A handler is nothing to a block that returns.
  pub Succeeds-tried :
      (m : Exec W A) (w : W) → Succeeds P (m w) → Succeeds P (try_except m handler w)
  Succeeds-tried m w h = Succeeds-unhandled (m w).0 (m w).1 h
