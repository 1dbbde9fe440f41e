-- ===== src/Exec.antt =====
-- Code that calls the outside (the graph database, HTTP, the clock) and may raise. `W` is the
-- outside, which every call may change; it comes back beside an exception too.
pub mod Laws
pub mod Keeps
use live_system_intelligence.Prelude.{String, List, [], ◌∷◌}

-- An exception: its class and its message.
pub record Error : Type 0 where
  pub kind : String
  pub message : String

pub data Result {ℓ} (A : Type ℓ) : Type ℓ where
  ok : A → Result A
  err : Error → Result A

abbrev pub Exec {ℓ} : Type ℓ → Type ℓ → Type ℓ
Exec W A = W → Result A × W

module _ {ℓ} {W A : Type ℓ} where
  abbrev pub pure : A → Exec W A
  pure a w = (ok a, w)

  abbrev pub raise : Error → Exec W A
  raise e w = (err e, w)

  abbrev pub lift : Result A → Exec W A
  lift r w = (r, w)

  -- What is read of the outside.
  abbrev pub gets : (W → A) → Exec W A
  gets f w = (ok (f w), w)

  -- `try: m except Exception as e: handler(e)`
  abbrev pub handle : Result A → (Error → Exec W A) → Exec W A
  handle (ok a) handler w = (ok a, w)
  handle (err e) handler w = handler e w

  abbrev pub try_except : Exec W A → (Error → Exec W A) → Exec W A
  try_except m handler w = let (r, w') = m w in handle r handler w'

-- The block of a `try` whose handler ends the function: what it returned or raised, as a value.
abbrev pub attempt {ℓ} : {W A : Type ℓ} → Exec W A → Exec W (Result A)
attempt m w = let (r, w') = m w in (ok r, w')

module _ {ℓ} {W A B : Type ℓ} where
  abbrev pub continue : Result A → (A → Exec W B) → Exec W B
  continue (ok a) f w = f a w
  continue (err e) f w = (err e, w)

  infixl 10 ◌>>=◌ ◌>>◌
  abbrev pub ◌>>=◌ : Exec W A → (A → Exec W B) → Exec W B
  ◌>>=◌ m f w = let (r, w') = m w in continue r f w'

  abbrev pub ◌>>◌ : Exec W A → Exec W B → Exec W B
  m >> n = m >>= λ _. n

-- A loop whose body gives one value for each item, in order.
unfoldable pub for_each {ℓ} : {W A B : Type ℓ} → (A → Exec W B) → List A → Exec W (List B)
for_each f [] = pure []
for_each f (x ∷ xs) = do y ← f x; ys ← for_each f xs; pure (y ∷ ys)
