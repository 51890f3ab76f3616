-- ===== src/Prelude/Tables.antt =====
-- Vectors given by a function of the index, and the indices below a bound that satisfy a test, from
-- the top down.
use mathlib.Core.Path.{◌≡◌, refl}
use mathlib.Core.Bool.{Bool}
use mathlib.Core.List.{List, [], ◌∷◌}
use Prim.Native.Nat.{ℕ, zero, suc, ◌+◌, ◌≤◌, ◌<◌}
use native.Mathlib.Omega.{arith}
use card_bluff.Prelude.Tests.{◌==◌, if◌then◌else◌}
use card_bluff.Prelude.Outcome.{ok, at, update}

module _ {ℓ} {A : Type ℓ} where
  -- f i, f (i + 1), ..., n elements.
  abbrev pub tabulate : ℕ → ℕ → (ℕ → A) → List A
  tabulate zero i f = []
  tabulate (suc n) i f = f i ∷ tabulate n (suc i) f

  pub tabulate-ext :
      (n i : ℕ) (f g : ℕ → A)
      → ((j : ℕ) → i ≤ j → j < i + n → f j ≡ g j)
      → tabulate n i f ≡ tabulate n i g
  tabulate-ext zero i f g h = refl
  tabulate-ext (suc n) i f g h =
      let head = h i (omega arith) (omega arith) in
      let rest = tabulate-ext n (suc i) f g (λ j p q. h j (omega arith) (omega arith)) in cc

  pub at-tabulate : (n i k : ℕ) (f : ℕ → A) → k < n → at (tabulate n i f) k ≡ ok (f (i + k))
  at-tabulate zero i k f h = elim h [ ]
  at-tabulate (suc n) i zero f h = ground arith
  at-tabulate (suc n) i (suc k) f h = ground (arith, at-tabulate n (suc i) k f)

  abbrev pub changed : ℕ → (A → A) → (ℕ → A) → ℕ → A
  changed k g f j = if j == k then g (f j) else f j

  pub update-tabulate :
      (n i k : ℕ) (f : ℕ → A) (g : A → A)
      → k < n
      → update (tabulate n i f) k g ≡ ok (tabulate n i (changed (i + k) g f))
  update-tabulate zero i k f g h = elim h [ ]
  update-tabulate (suc n) i zero f g h =
      let rest = tabulate-ext n (suc i) f (changed (i + 0) g f) (λ j p q. ground arith) in
      ground arith
  update-tabulate (suc n) i (suc k) f g h =
      let e : i + suc k ≡ suc i + k = omega arith in
      rw (e, update-tabulate n (suc i) k f g (omega arith)) (ground arith)

-- The indices below n that satisfy the test, in decreasing order.
unfoldable pub down : (ℕ → Bool) → ℕ → List ℕ
down p zero = []
down p (suc n) = if p n then n ∷ down p n else down p n

pub down-ext : (p q : ℕ → Bool) (n : ℕ) → ((j : ℕ) → j < n → p j ≡ q j) → down p n ≡ down q n
unfolding down
down-ext p q zero h = refl
down-ext p q (suc n) h =
    ground (arith, h n (omega arith), down-ext p q n (λ j l. h j (omega arith)))

-- The same from the index 0 on.
module _ {ℓ} {A : Type ℓ} where
  pub at-table : (n k : ℕ) (f : ℕ → A) → k < n → at (tabulate n 0 f) k ≡ ok (f k)
  at-table n k f h = let e : 0 + k ≡ k = omega arith in rw (at-tabulate n 0 k f h, e)

  pub update-table :
      (n k : ℕ) (f : ℕ → A) (g : A → A)
      → k < n
      → update (tabulate n 0 f) k g ≡ ok (tabulate n 0 (changed k g f))
  update-table n k f g h = let e : 0 + k ≡ k = omega arith in rw (update-tabulate n 0 k f g h, e)
