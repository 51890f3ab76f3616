-- ===== src/Combinations/Every.antt =====
-- The functions `find_every_*` of CardBluffServer/combinations.cpp that search by rank.
use card_bluff.Prelude.{
  ℕ, zero, suc, ◌+◌, ◌-◌, ◌≤◌, ◌<◌, ◌≡◌, refl, ◌∙◌, inl, inr, Bool, true, false, List, [], ◌∷◌,
  ◌++◌, Option, none, some, ltb, down, ◌==◌, if◌then◌else◌, length, Run, ok, ◌>>=◌, at, Bool-cases,
  Option-cases, arith,
}
use card_bluff.Combinations.Hand.{Hand, hand_of}
use card_bluff.Combinations.Spec.{IsDealt, described, count}
use card_bluff.Combinations.Build.{hand_of-described}
use card_bluff.Combinations.Bets.{five_in_a_row, present}
use card_bluff.Combinations.Bets.Checked.{check_straight_lem}
use card_bluff.Combinations.Check.{check_straight}
use card_bluff.Combinations.Find.{
  first, first_two, other_rank, find_best_two_pairs, full_house_among, find_best_full_house,
  straight_from, find_best_straight,
}

unfoldable pub find_every_four_of_a_kind : Hand → Run (List ℕ)
find_every_four_of_a_kind h = at h.number_rank 3

-- The inner loop of `find_every_full_house`, for one rank of the three cards.
unfoldable pub other_ranks : ℕ → List ℕ → List (ℕ × ℕ)
other_ranks r3 [] = []
other_ranks r3 (r2 ∷ rs) = if r3 == r2 then other_ranks r3 rs else (r3, r2) ∷ other_ranks r3 rs

unfoldable pub full_houses_among : List ℕ → List ℕ → List (ℕ × ℕ)
unfolding other_ranks
full_houses_among [] twos = []
full_houses_among (r3 ∷ rs) twos = other_ranks r3 twos ++ full_houses_among rs twos

unfoldable pub find_every_full_house : Hand → Run (List (ℕ × ℕ))
find_every_full_house h = do
  threes ← at h.number_rank 2
  twos ← at h.number_rank 1
  ok (full_houses_among threes twos)

-- `for (x = from; x < from + n; ++x)` over `number_rank[0]`.
unfoldable pub straights_from : List ℕ → ℕ → ℕ → Run (List ℕ)
straights_from v zero x = ok []
straights_from v (suc n) x =
    let rest = straights_from v n (suc x) in
    at v (x - 4) >>= λ a. at v x >>= λ b. rest >>= λ l. ok (if a == b + 4 then a ∷ l else l)

-- The last `if` of the function: 5 4 3 2 A comes last.
abbrev pub with_wheel : Bool → List ℕ → List ℕ
with_wheel w l = if w then l ++ 3 ∷ [] else l

unfoldable pub find_every_straight : Hand → Run (List ℕ)
find_every_straight h = do
  v ← at h.number_rank 0
  found ← straights_from v (length v - 4) 4
  check_straight h 3 >>= λ wheel. ok (with_wheel wheel found)

unfoldable pub find_every_three_of_a_kind : Hand → Run (List ℕ)
find_every_three_of_a_kind h = at h.number_rank 2

-- The loops of `find_every_two_pairs`.
unfoldable pub pairs_with : ℕ → List ℕ → List (ℕ × ℕ)
pairs_with a [] = []
pairs_with a (b ∷ bs) = (a, b) ∷ pairs_with a bs

unfoldable pub two_pairs_among : List ℕ → List (ℕ × ℕ)
unfolding pairs_with
two_pairs_among [] = []
two_pairs_among (a ∷ v) = pairs_with a v ++ two_pairs_among v

unfoldable pub find_every_two_pairs : Hand → Run (List (ℕ × ℕ))
find_every_two_pairs h = at h.number_rank 1 >>= λ v. ok (two_pairs_among v)

unfoldable pub find_every_pair : Hand → Run (List ℕ)
find_every_pair h = at h.number_rank 1

unfoldable pub find_every_high_card : Hand → Run (List ℕ)
find_every_high_card h = at h.number_rank 0

-- The first of two rows, one after the other.
module _ {A : Type 0} where
  first-append-some : (l r : List A) (a : A) → first l ≡ some a → first (l ++ r) ≡ some a
  first-append-some [] r a h = absurd (cc)
  first-append-some (x ∷ l) r a h = h

  first-append-none : (l r : List A) → first l ≡ none → first (l ++ r) ≡ first r
  first-append-none [] r h = refl
  first-append-none (x ∷ l) r h = absurd (cc)

first-other_ranks : (r3 : ℕ) (twos : List ℕ) → first (other_ranks r3 twos) ≡ other_rank r3 twos
unfolding other_ranks other_rank
first-other_ranks r3 [] = refl
first-other_ranks r3 (r2 ∷ rs) = elim (Bool-cases (r3 == r2)) [
  | inl same ↦ rw (same, first-other_ranks r3 rs)
  | inr other ↦ rw other refl
]

first-full_houses_among :
    (threes twos : List ℕ) → first (full_houses_among threes twos) ≡ full_house_among threes twos
unfolding full_houses_among full_house_among
first-full_houses_among [] twos = refl
first-full_houses_among (r3 ∷ rs) twos =
    let e = first-other_ranks r3 twos in
    elim (Option-cases (other_rank r3 twos)) [
      | inl h ↦
          first-append-none (other_ranks r3 twos) (full_houses_among rs twos) (e ∙ h)
          ∙ rw (h, full_house_among) (first-full_houses_among rs twos)
      | inr (p, h) ↦
          first-append-some (other_ranks r3 twos) (full_houses_among rs twos) p (e ∙ h)
          ∙ rw (h, full_house_among) refl
    ]

first_two-among : (v : List ℕ) → first (two_pairs_among v) ≡ first_two v
unfolding two_pairs_among pairs_with
first_two-among [] = refl
first_two-among (a ∷ []) = refl
first_two-among (a ∷ b ∷ v) = refl

at-length : {A : Type 0} (v : List A) (i : ℕ) → i < length v → (a : A) × (at v i ≡ ok a)
at-length [] i h = absurd (omega (arith, h))
at-length (x ∷ v) zero h = (x, refl)
at-length (x ∷ v) (suc i) h = at-length v i (omega (arith, h))

-- Both loops run to their ends, and the first straight of the one is the result of the other.
straights_from-first :
    (v : List ℕ) (n x : ℕ)
    → n ≤ length v - x
    → (l : List ℕ) × (straights_from v n x ≡ ok l) × (straight_from v n x ≡ ok (first l))
unfolding straights_from straight_from
straights_from-first v zero x h = ([], refl, refl)
straights_from-first v (suc n) x h =
    let (l, all, best) = straights_from-first v n (suc x) (omega arith) in
    let (a, ha) = at-length v (x - 4) (omega arith) in
    let (b, hb) = at-length v x (omega arith) in
    elim (Bool-cases (a == b + 4)) [
      | inl here ↦ (a ∷ l, rw (ha, hb, all, here) refl, rw (ha, hb, here) refl)
      | inr not_here ↦ (l, rw (ha, hb, all, not_here) refl, rw (ha, hb, not_here) best)
    ]

first-with_wheel-none :
    (w : Bool) (l : List ℕ) → first l ≡ none → first (with_wheel w l) ≡ (if w then some 3 else none)
first-with_wheel-none true l h = first-append-none l (3 ∷ []) h
first-with_wheel-none false l h = h

first-with_wheel-some :
    (w : Bool) (l : List ℕ) (t : ℕ) → first l ≡ some t → first (with_wheel w l) ≡ some t
first-with_wheel-some true l t h = first-append-some l (3 ∷ []) t h
first-with_wheel-some false l t h = h

-- A search for every one returns a row, and the search for the best one returns its first entry.
abbrev pub Leads : {A : Type 0} → Run (List A) → Run (Option A) → Type 0
Leads {A} every best = (l : List A) × (every ≡ ok l) × (best ≡ ok (first l))

find_every_straight-Leads :
    (v : List ℕ) → Leads (find_every_straight (described v)) (find_best_straight (described v))
unfolding find_every_straight find_best_straight
find_every_straight-Leads v =
    let row = down (λ r. ltb 0 (count v r)) 13 in
    let (l, all, best) = straights_from-first row (length row - 4) 4 (omega arith) in
    let wheel = check_straight_lem v 3 (omega arith) (omega arith) in
    let w = five_in_a_row (present v) 3 in
    elim (Option-cases (first l)) [
      | inl h ↦ (
        with_wheel w l,
        rw (all, wheel) refl,
        rw (best, h, wheel, first-with_wheel-none w l h) refl,
      )
      | inr (t, h) ↦
          (with_wheel w l, rw (all, wheel) refl, rw (best, h, first-with_wheel-some w l t h) refl)
    ]

-- For a hand of dealt cards, each of `find_every_full_house`, `find_every_straight` and
-- `find_every_two_pairs` returns a row, and `find_best_full_house`, `find_best_straight` and
-- `find_best_two_pairs` return the first entry of that row, or nothing where it is empty.
pub find_every-Leads :
    (v : List ℕ)
    → IsDealt v
    → Leads (hand_of v >>= find_every_full_house) (hand_of v >>= find_best_full_house)
      × Leads (hand_of v >>= find_every_straight) (hand_of v >>= find_best_straight)
      × Leads (hand_of v >>= find_every_two_pairs) (hand_of v >>= find_best_two_pairs)
unfolding find_every_full_house find_best_full_house find_every_two_pairs find_best_two_pairs
find_every-Leads v dealt =
    let threes = down (λ r. ltb 2 (count v r)) 13 in
    let twos = down (λ r. ltb 1 (count v r)) 13 in
    rw (hand_of-described v dealt) (
      (full_houses_among threes twos, refl, rw (first-full_houses_among threes twos) refl),
      find_every_straight-Leads v,
      (two_pairs_among twos, refl, rw (first_two-among twos) refl),
    )
