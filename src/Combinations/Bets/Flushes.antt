-- ===== src/Combinations/Bets/Flushes.antt =====
-- The flush that `find_best_flush` of CardBluffServer/combinations.cpp finds.
use card_bluff.Prelude.{
  ℕ, zero, suc, ◌+◌, ◌-◌, ◌≤◌, ◌<◌, ◌≡◌, refl, Bool, true, false, List, Option, none, some, leb,
  ◌&&◌, length, down, ok, at, arith, at-table, inl, inr, lt-cases, lt→ltb, le→ltb, le→leb,
}
use card_bluff.Combinations.Spec.{has, described}
use card_bluff.Combinations.Find.{lower_flush, flush_from, find_best_flush}
use card_bluff.Combinations.Bets.{tally}
use card_bluff.Combinations.Bets.Suited.{extend}
use card_bluff.Combinations.Bets.Checked.{from_end, length-down, tally_mono, tally-suc}

abbrev pub flush_here : List ℕ → ℕ → ℕ → Bool
flush_here v s r = has v s r && leb 5 (tally (has v s) (suc r))

-- The flush with the lowest highest card, among the suits below n.
abbrev pub LowFlush : List ℕ → ℕ → Option (ℕ × ℕ) → Type 0
LowFlush v n none = (s : ℕ) → s < n → (r : ℕ) → r < 13 → flush_here v s r ≡ false
LowFlush v n (some (t, o)) =
    (t < 13)
    × (o < n)
    × (flush_here v o t ≡ true)
    × ((s : ℕ) → s < n → (r : ℕ) → r < 13 → flush_here v s r ≡ true → t ≤ r)

abbrev Floor : List ℕ → ℕ → ℕ → Type 0
Floor v t s = (r : ℕ) → r < 13 → flush_here v s r ≡ true → t ≤ r

no_flush :
    (v : List ℕ) (s : ℕ) → tally (has v s) 13 < 5 → (r : ℕ) → r < 13 → flush_here v s r ≡ false
no_flush v s few r l = ground (arith, tally_mono (has v s) (suc r) 13)

-- The fifth lowest rank of a suit names its lowest flush.
lowest_flush :
    (v : List ℕ) (s x : ℕ)
    → has v s x ≡ true
    → tally (has v s) x ≡ 4
    → (flush_here v s x ≡ true) × Floor v x s
lowest_flush v s x here rank = (
  ground (arith, tally-suc (has v s) x here),
  λ r l sat. elim (lt-cases r x) [
    | inl lower ↦ absurd (ground (arith, tally_mono (has v s) (suc r) x))
    | inr above ↦ above
  ],
)

abbrev Flushes : List ℕ → ℕ → Option (ℕ × ℕ) → Type 0
Flushes v n ans =
    (ans' : Option (ℕ × ℕ)) × (lower_flush (down (has v n) 13) n ans ≡ ok ans')
    × LowFlush v (suc n) ans'

module _ (v : List ℕ) (n x : ℕ) (many : 5 ≤ tally (has v n) 13)
    (here : at (down (has v n) 13) (length (down (has v n) 13) - 5) ≡ ok x) (low : x < 13)
    (sat : has v n x ≡ true) (rank : tally (has v n) x ≡ 4) where
  long : leb 5 (length (down (has v n) 13)) ≡ true
  long = le→leb 5 _ (omega (arith, length-down (has v n) 13))

  lower-flush-new : (ans : Option (ℕ × ℕ)) → LowFlush v n ans → Flushes v n ans
  unfolding lower_flush
  lower-flush-new none h =
      let (flushed, floor) = lowest_flush v n x sat rank in
      (
        some (x, n),
        rw (long, here),
        (
          low,
          omega arith,
          flushed,
          extend n (Floor v x) (λ s l r u f. let no_flush_here = h s l r u in cc) floor,
        ),
      )
  lower-flush-new (some (t, o)) h =
      let (flushed, floor) = lowest_flush v n x sat rank in
      elim (lt-cases x t) [
        | inl lower ↦ (
          some (x, n),
          rw (long, here, lt→ltb x t lower),
          (
            low,
            omega arith,
            flushed,
            extend n (Floor v x) (λ s l r u f. omega (arith, h.3 s l r u f)) floor,
          ),
        )
        | inr above ↦ (
          some (t, o),
          rw (long, here, le→ltb t x above),
          (
            h.0,
            omega (arith, h.1),
            h.2,
            extend n (Floor v t) h.3 (λ r u f. omega (arith, floor r u f)),
          ),
        )
      ]

LowFlush-skip :
    (v : List ℕ) (n : ℕ) (ans : Option (ℕ × ℕ))
    → tally (has v n) 13 < 5
    → LowFlush v n ans
    → LowFlush v (suc n) ans
LowFlush-skip v n none few h =
    extend n (λ s. (r : ℕ) → r < 13 → flush_here v s r ≡ false) h (no_flush v n few)
LowFlush-skip v n (some (t, o)) few h = (
  h.0,
  omega (arith, h.1),
  h.2,
  extend n (Floor v t) h.3 (λ r u f. let no_flush_here = no_flush v n few r u in cc),
)

lower_flush-LowFlush :
    (v : List ℕ) (n : ℕ) (ans : Option (ℕ × ℕ)) → LowFlush v n ans → Flushes v n ans
lower_flush-LowFlush v n ans h = elim (lt-cases (tally (has v n) 13) 5) [
  | inl few ↦
      let short : leb 5 (length (down (has v n) 13)) ≡ false =
        ground (arith, length-down (has v n) 13) in
      (ans, unfold lower_flush in rw short, LowFlush-skip v n ans few h)
  | inr many ↦
      let (x, (here, sat, rank, low)) = from_end (has v n) 13 4 many in
      lower-flush-new v n x many (rw (length-down (has v n) 13) here) low sat rank ans h
]

flush_from_lem :
    (v : List ℕ) (m n : ℕ) (ans : Option (ℕ × ℕ))
    → n + m ≡ 4
    → LowFlush v n ans
    → (y : Option (ℕ × ℕ)) × (flush_from (described v) m n ans ≡ ok y) × LowFlush v 4 y
unfolding flush_from
flush_from_lem v zero n ans e h = let e' : n ≡ 4 = omega arith in (ans, refl, rw e' at h)
flush_from_lem v (suc m) n ans e h =
    let (next, run, low) = lower_flush-LowFlush v n ans h in
    rw (at-table 4 n (λ s. down (has v s) 13) (omega arith), run)
      (flush_from_lem v m (suc n) next (omega arith) low)

-- `find_best_flush` returns a flush of the cards with the lowest highest card, if there is a flush.
pub find_best_flush-LowFlush :
    (v : List ℕ) → (y : Option (ℕ × ℕ)) × (find_best_flush (described v) ≡ ok y) × LowFlush v 4 y
unfolding find_best_flush
find_best_flush-LowFlush v = flush_from_lem v 4 0 none refl (λ s l. absurd (omega arith))
