-- ===== src/Prelude/Outcome.antt =====
-- What a call of the program does: it returns, or it fails an `assert` or indexes a vector out of
-- range (both end the defined behaviour of the source, and are not told apart).
use Prim.Native.Nat.{ℕ, zero, suc}
use mathlib.Core.Bool.{Bool, true, false}
use mathlib.Core.List.{List, [], ◌∷◌}
use mathlib.Core.Path.{◌≡◌, refl, subst}
use mathlib.Core.Logic.{◌⊎◌, inl, inr}

pub data Run {ℓ} (A : Type ℓ) : Type ℓ where
  ok : A → Run A
  fault : Run A

-- The rest of a call runs only where its beginning returns.
infixl 5 ◌>>=◌
abbrev pub ◌>>=◌ {ℓ κ} : {A : Type ℓ} {B : Type κ} → Run A → (A → Run B) → Run B
fault >>= rest = fault
ok a >>= rest = rest a

-- `assert(b)`.
abbrev pub assert : Bool → Run (Unit {0})
assert true = ok tt
assert false = fault

infixl 5 ◌>>◌
abbrev pub ◌>>◌ {ℓ} : {B : Type ℓ} → Run (Unit {0}) → Run B → Run B
first >> rest = first >>= λ _. rest

module _ {ℓ} {A : Type ℓ} where
  -- `v[i]`.
  abbrev pub at : List A → ℕ → Run A
  at [] i = fault
  at (x ∷ xs) zero = ok x
  at (x ∷ xs) (suc i) = at xs i

  -- `v[i] = f(v[i])`.
  abbrev pub update : List A → ℕ → (A → A) → Run (List A)
  update [] i f = fault
  update (x ∷ xs) zero f = ok (f x ∷ xs)
  update (x ∷ xs) (suc i) f = update xs i f >>= λ ys. ok (x ∷ ys)

-- What holds of the result of a call that returns.
abbrev pub After {ℓ} : {A : Type ℓ} → (A → Type 0) → Run A → Type 0
After P fault = Unit
After P (ok a) = P a

pub Run-cases {ℓ} : {A : Type ℓ} (r : Run A) → (r ≡ fault) ⊎ ((a : A) × (r ≡ ok a))
Run-cases fault = inl refl
Run-cases (ok a) = inr (a, refl)

pub After-ok {ℓ} : {A : Type ℓ} (P : A → Type 0) (r : Run A) (a : A) → r ≡ ok a → After P r → P a
After-ok P r a e h = subst (After P) e h

pub After-weaken {ℓ} :
    {A : Type ℓ} (P Q : A → Type 0) (r : Run A) → ((a : A) → P a → Q a) → After P r → After Q r
After-weaken P Q fault f h = tt
After-weaken P Q (ok a) f h = f a h

pub After-always {ℓ} : {A : Type ℓ} (Q : A → Type 0) (r : Run A) → ((a : A) → Q a) → After Q r
After-always Q fault f = tt
After-always Q (ok a) f = f a
