-- ===== src/Combinations/Bets/Rows/Places.antt =====
-- Where a rank stands in the row of the ranks of a suit, in decreasing order.
use card_bluff.Prelude.{
  ℕ, zero, suc, ◌+◌, ◌≤◌, ◌≡◌, ◌∙◌, sym, Bool, true, ◌∷◌, ◌&&◌, down, ok, at, arith, Bool-cases,
  inl, inr,
}
use card_bluff.Combinations.Bets.{consecutive}

pub consecutive-snoc :
    (p : ℕ → Bool) (from n : ℕ)
    → consecutive p from (suc n) ≡ (consecutive p from n && p (from + n))
consecutive-snoc p from zero = let e : from + 0 ≡ from = omega arith in rw e (ground arith)
consecutive-snoc p from (suc n) =
    let e : from + suc n ≡ suc from + n = omega arith in
    rw e (ground (arith, consecutive-snoc p (suc from) n))

abbrev Nth : (ℕ → Bool) → ℕ → ℕ → ℕ → Type 0
Nth p n k e = (e + suc k ≤ n) × (p e ≡ true) × (e + suc k ≡ n → consecutive p e (suc k) ≡ true)

Nth-cons :
    (p : ℕ → Bool) (n k e : ℕ)
    → p n ≡ true
    → at (n ∷ down p n) k ≡ ok e
    → ((k e : ℕ) → at (down p n) k ≡ ok e → Nth p n k e)
    → Nth p (suc n) k e
Nth-cons p n zero e take h ih = (ground arith, ground arith, λ q. ground arith)
Nth-cons p n (suc k) e take h ih =
    let (low, sat, full) = ih k e h in
    (
      omega arith,
      sat,
      λ q.
          let top : e + suc k ≡ n = omega arith in
          rw (consecutive-snoc p e (suc k), top, full top, take),
    )

-- The element with k others in front of it is at least k + 1 below the bound, and exactly then if
-- all from it on are there.
pub Nth-down : (p : ℕ → Bool) (n k e : ℕ) → at (down p n) k ≡ ok e → Nth p n k e
unfolding down
Nth-down p zero k e h = cc
Nth-down p (suc n) k e h = elim (Bool-cases (p n)) [
  | inr skip ↦
      let here : at (down p n) k ≡ ok e = rw skip at h in
      let (low, sat, full) = Nth-down p n k e here in (omega arith, sat, λ q. absurd (omega arith))
  | inl take ↦ Nth-cons p n k e take (rw take at h) (Nth-down p n)
]

pub consecutive-nth :
    (p : ℕ → Bool) (k n e : ℕ)
    → e + suc k ≡ n
    → consecutive p e (suc k) ≡ true
    → at (down p n) k ≡ ok e
unfolding down
consecutive-nth p k zero e h run = absurd (omega arith)
consecutive-nth p zero (suc n) e h run = let top : e ≡ n = omega arith in rw (← top) (ground arith)
consecutive-nth p (suc k) (suc n) e h run =
    let top : e + suc k ≡ n = omega arith in
    let both : (consecutive p e (suc k) && p n) ≡ true =
      rw (← top) (sym (consecutive-snoc p e (suc k)) ∙ run) in
    let last : p n ≡ true = ground arith in rw last (consecutive-nth p k n e top (ground arith))
