-- ===== src/Exec/Keeps.antt =====
-- Properties of the outside that a block leaves true, whether it returns or raises.
use live_system_intelligence.Prelude.{Bool, true, false, ◌≡◌, refl, List, [], ◌∷◌, if◌then◌else◌}
use live_system_intelligence.Exec.{
  Error, Result, ok, err, Exec, ◌>>=◌, handle, try_except, continue, for_each,
}
use live_system_intelligence.Exec.Laws.{Returns}

abbrev pub Keeps {ℓ} : {W A : Type ℓ} → (W → Type 0) → Exec W A → Type ℓ
Keeps {W = W} P m = (w : W) → P w → P (m w).1

module _ {ℓ} {W A B : Type ℓ} (P : W → Type 0) where
  Keeps-continue :
      (r : Result A) (f : A → Exec W B) → ((a : A) → Keeps P (f a)) → Keeps P (continue r f)
  Keeps-continue (ok a) f kf = kf a
  Keeps-continue (err e) f kf = λ w p. p

  -- Two steps keep what each of them keeps.
  pub Keeps-bind :
      (m : Exec W A) (f : A → Exec W B) → Keeps P m → ((a : A) → Keeps P (f a)) → Keeps P (m >>= f)
  Keeps-bind m f km kf w p = Keeps-continue (m w).0 f kf (m w).1 (km w p)

module _ {ℓ κ} {W A B : Type ℓ} (P : W → Type 0) (Q : A → Type κ) where
  Keeps-both :
      (r : Result A) (w : W) (f : A → Exec W B)
      → Returns Q (r, w)
      → ((a : A) → Q a → Keeps P (f a))
      → Keeps P (continue r f)
  Keeps-both (ok a) w f q kf = kf a q
  Keeps-both (err e) w f q kf = λ v p. p

  -- The same where something is known of the first result.
  pub Keeps-then :
      (m : Exec W A) (f : A → Exec W B)
      → Keeps P m
      → ((w : W) → Returns Q (m w))
      → ((a : A) → Q a → Keeps P (f a))
      → Keeps P (m >>= f)
  Keeps-then m f km qm kf w p = Keeps-both (m w).0 (m w).1 f (qm w) kf (m w).1 (km w p)

module _ {ℓ} {W A B : Type ℓ} (P : W → Type 0) where
  -- A loop keeps what its body keeps.
  pub Keeps-for_each :
      (f : A → Exec W B) → ((a : A) → Keeps P (f a)) → (xs : List A) → Keeps P (for_each f xs)
  unfolding for_each
  Keeps-for_each f kf [] = λ w p. p
  Keeps-for_each f kf (x ∷ xs) =
      Keeps-bind P (f x) _ (kf x)
        λ y. Keeps-bind P (for_each f xs) _ (Keeps-for_each f kf xs) λ ys w p. p

module _ {ℓ} {W A : Type ℓ} (P : W → Type 0) where
  Keeps-handle :
      (r : Result A) (handler : Error → Exec W A)
      → ((e : Error) → Keeps P (handler e))
      → Keeps P (handle r handler)
  Keeps-handle (ok a) handler kh = λ w p. p
  Keeps-handle (err e) handler kh = kh e

  pub Keeps-try_except :
      (m : Exec W A) (handler : Error → Exec W A)
      → Keeps P m
      → ((e : Error) → Keeps P (handler e))
      → Keeps P (try_except m handler)
  Keeps-try_except m handler km kh w p = Keeps-handle (m w).0 handler kh (m w).1 (km w p)

  -- A conditional keeps what the branch that is taken keeps.
  pub Keeps-branch :
      (test : Bool) (here there : Exec W A)
      → (test ≡ true → Keeps P here)
      → (test ≡ false → Keeps P there)
      → Keeps P (if test then here else there)
  Keeps-branch true here there taken other = taken refl
  Keeps-branch false here there taken other = other refl

-- What holds of the result and the outside together when a block returns.
abbrev pub Leaves {ℓ} : {W A : Type ℓ} → (A → W → Type 0) → Result A × W → Type 0
Leaves Q (ok a, w) = Q a w
Leaves Q (err e, w) = Unit

module _ {ℓ} {W A B : Type ℓ} (R : A → W → Type 0) (Q : B → W → Type 0) where
  Leaves-continue :
      (r : Result A) (w : W) (f : A → Exec W B)
      → Leaves R (r, w)
      → ((a : A) (v : W) → R a v → Leaves Q (f a v))
      → Leaves Q (continue r f w)
  Leaves-continue (ok a) w f h k = k a w h
  Leaves-continue (err e) w f h k = tt

  -- A block leaves what its rest leaves, after what its first step left.
  pub Leaves-then :
      (m : Exec W A) (f : A → Exec W B) (w : W)
      → Leaves R (m w)
      → ((a : A) (v : W) → R a v → Leaves Q (f a v))
      → Leaves Q ((m >>= f) w)
  Leaves-then m f w h k = Leaves-continue (m w).0 (m w).1 f h k

module _ {ℓ} {W A B : Type ℓ} (Q : B → W → Type 0) where
  Leaves-any : (r : Result A × W) → Leaves (λ a v. Unit) r
  Leaves-any (ok a, w) = tt
  Leaves-any (err e, w) = tt

  -- The same where nothing needs to be known of the first step.
  pub Leaves-bind :
      (m : Exec W A) (f : A → Exec W B) (w : W)
      → ((a : A) (v : W) → Leaves Q (f a v))
      → Leaves Q ((m >>= f) w)
  Leaves-bind m f w k = Leaves-then (λ a v. Unit) Q m f w (Leaves-any (m w)) λ a v u. k a v
