-- ===== src/Combinations/Bets/Found.antt =====
-- What the other searches `find_best_*` of CardBluffServer/combinations.cpp return.
use card_bluff.Prelude.{
  ℕ, zero, suc, ◌≤◌, ◌<◌, ◌≡◌, ◌≢◌, Bool, true, false, List, [], ◌∷◌, Option, none, some, down,
  arith, Bool-cases, inl, inr, lt-cases,
}
use card_bluff.Combinations.Find.{first, first_two}

-- The greatest number below n with p, if any.
abbrev pub IsTop : (ℕ → Bool) → ℕ → Option ℕ → Type 0
IsTop p n none = (r : ℕ) → r < n → p r ≡ false
IsTop p n (some t) = (t < n) × (p t ≡ true) × ((r : ℕ) → r < n → p r ≡ true → r ≤ t)

below-of-skip : (p : ℕ → Bool) (n r : ℕ) → p n ≡ false → r < suc n → p r ≡ true → r < n
below-of-skip p n r skip l sat = elim (lt-cases r n) [
  | inl below ↦ below
  | inr top ↦ let e : r ≡ n = omega arith in let sat' : p n ≡ true = rw e at sat in cc
]

IsTop-skip : (p : ℕ → Bool) (n : ℕ) (o : Option ℕ) → p n ≡ false → IsTop p n o → IsTop p (suc n) o
IsTop-skip p n none skip h = λ r l. elim (lt-cases r n) [
  | inl below ↦ h r below
  | inr top ↦ let e : r ≡ n = omega arith in rw e skip
]
IsTop-skip p n (some t) skip h =
    (omega (arith, h.0), h.1, λ r l sat. h.2 r (below-of-skip p n r skip l sat) sat)

pub first-down : (p : ℕ → Bool) (n : ℕ) → IsTop p n (first (down p n))
unfolding down
first-down p zero = λ r l. absurd (omega arith)
first-down p (suc n) = elim (Bool-cases (p n)) [
  | inl take ↦ rw take (omega arith, take, λ r l _. omega arith)
  | inr skip ↦ rw skip (IsTop-skip p n (first (down p n)) skip (first-down p n))
]

-- The two greatest, the greater one first.
abbrev pub AreTopTwo : (ℕ → Bool) → ℕ → Option (ℕ × ℕ) → Type 0
AreTopTwo p n none = (a b : ℕ) → a < b → b < n → p a ≡ true → p b ≡ false
AreTopTwo p n (some (a, b)) =
    (b < a)
    × (a < n)
    × (p a ≡ true)
    × (p b ≡ true)
    × ((r : ℕ) → r < n → p r ≡ true → r ≤ a)
    × ((r : ℕ) → r < n → r ≢ a → p r ≡ true → r ≤ b)

first_two-cons :
    (p : ℕ → Bool) (n : ℕ) (l : List ℕ)
    → p n ≡ true
    → IsTop p n (first l)
    → AreTopTwo p (suc n) (first_two (n ∷ l))
first_two-cons p n [] take h = λ a b l u sat. absurd (let none_here = h a (omega arith) in cc)
first_two-cons p n (b ∷ l) take h =
    (h.0, omega arith, take, h.1, (λ r l _. omega arith), λ r l d sat. h.2 r (omega arith) sat)

AreTopTwo-skip :
    (p : ℕ → Bool) (n : ℕ) (o : Option (ℕ × ℕ))
    → p n ≡ false
    → AreTopTwo p n o
    → AreTopTwo p (suc n) o
AreTopTwo-skip p n none skip h = λ a b l u sat. elim (lt-cases b n) [
  | inl below ↦ h a b l below sat
  | inr top ↦ let e : b ≡ n = omega arith in rw e skip
]
AreTopTwo-skip p n (some (a, b)) skip h = (
  h.0,
  omega (arith, h.1),
  h.2,
  h.3,
  (λ r l sat. h.4 r (below-of-skip p n r skip l sat) sat),
  λ r l d sat. h.5 r (below-of-skip p n r skip l sat) d sat,
)

pub first_two-down : (p : ℕ → Bool) (n : ℕ) → AreTopTwo p n (first_two (down p n))
unfolding down
first_two-down p zero = λ a b l u. absurd (omega arith)
first_two-down p (suc n) = elim (Bool-cases (p n)) [
  | inl take ↦ rw take (first_two-cons p n (down p n) take (first-down p n))
  | inr skip ↦ rw skip (AreTopTwo-skip p n (first_two (down p n)) skip (first_two-down p n))
]
