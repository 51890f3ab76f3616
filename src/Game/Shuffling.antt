-- ===== src/Game/Shuffling.antt =====
-- The loop of `generate_shuffled_array_of_cards` in CardBluffServer/game.cpp keeps all cards and puts none twice.
use card_bluff.Prelude.{
  ℕ, zero, suc, ◌+◌, ◌%◌, ◌≤◌, ◌<◌, ◌≡◌, refl, sym, ◌∙◌, ap, List, [], ◌∷◌, ◌==◌, if◌then◌else◌,
  Run, ok, at, update, arith, length,
}
use card_bluff.Game.Deal.{count_up, swap_at, shuffle, generate_shuffled_array_of_cards}

-- All elements are cards of the pack, and they are at different places.
abbrev pub IsInjective : List ℕ → Type 0
IsInjective arr =
    ((i c : ℕ) → at arr i ≡ ok c → c < 52)
    × ((i j c : ℕ) → at arr i ≡ ok c → at arr j ≡ ok c → i ≡ j)

ok_inj : {a b : ℕ} → ok a ≡ ok b → a ≡ b
ok_inj h = cc

pub at-length : (xs : List ℕ) (i : ℕ) → i < length xs → (x : ℕ) × (at xs i ≡ ok x)
at-length [] i l = absurd (omega arith)
at-length (x ∷ xs) zero l = (x, refl)
at-length (x ∷ xs) (suc i) l = at-length xs i (omega arith)

-- `update` changes one place.
abbrev Updated : List ℕ → ℕ → ℕ → Run (List ℕ) → Type 0
Updated xs i y m =
    (ys : List ℕ) × (m ≡ ok ys)
    × (length ys ≡ length xs)
    × ((k : ℕ) → at ys k ≡ (if k == i then ok y else at xs k))

update-Updated : (xs : List ℕ) (i y : ℕ) → i < length xs → Updated xs i y (update xs i (λ _. y))
update-Updated [] i y l = absurd (omega arith)
update-Updated (x ∷ xs) zero y l = (y ∷ xs, refl, refl, go)
  where
    go : (k : ℕ) → at (y ∷ xs) k ≡ (if k == 0 then ok y else at (x ∷ xs) k)
    go zero = refl
    go (suc k) = ground arith
update-Updated (x ∷ xs) (suc i) y l =
    let (ys, e, len, same) = update-Updated xs i y (omega arith) in
    (x ∷ ys, rw e refl, ap suc len, go ys same)
  where
    go :
        (ys : List ℕ)
        → ((k : ℕ) → at ys k ≡ (if k == i then ok y else at xs k))
        → (k : ℕ) → at (x ∷ ys) k ≡ (if k == suc i then ok y else at (x ∷ xs) k)
    go ys same zero = ground arith
    go ys same (suc k) = ground (arith, same k)

-- The place whose element a swap brings to k.
abbrev swapped : ℕ → ℕ → ℕ → ℕ
swapped i j k = if k == j then i else if k == i then j else k

abbrev Swapped : List ℕ → ℕ → ℕ → Run (List ℕ) → Type 0
Swapped arr i j m =
    (ys : List ℕ) × (m ≡ ok ys)
    × (length ys ≡ length arr)
    × ((k : ℕ) → at ys k ≡ at arr (swapped i j k))

swap_at-Swapped :
    (arr : List ℕ) (i j : ℕ) → i < length arr → j < length arr → Swapped arr i j (swap_at arr i j)
unfolding swap_at
swap_at-Swapped arr i j l m =
    let (a, e) = at-length arr i l in
    let (b, f) = at-length arr j m in
    let (ys, e₁, len₁, same₁) = update-Updated arr i b l in
    let (zs, e₂, len₂, same₂) = update-Updated ys j a (omega (arith, len₁)) in
    (zs, rw (e, f, e₁, e₂) refl, len₂ ∙ len₁, λ k. ground (arith, same₁ k, same₂ k))

swapped-IsInjective :
    (arr ys : List ℕ) (i j : ℕ)
    → ((k : ℕ) → at ys k ≡ at arr (swapped i j k))
    → IsInjective arr
    → IsInjective ys
swapped-IsInjective arr ys i j same h = (
  (λ k c e. h.0 (swapped i j k) c (sym (same k) ∙ e)),
  λ k l c e f.
      let meet = h.1 (swapped i j k) (swapped i j l) c (sym (same k) ∙ e) (sym (same l) ∙ f) in
      ground arith,
)

abbrev Shuffled : List ℕ → Run (List ℕ) → Type 0
Shuffled arr m = (ys : List ℕ) × (m ≡ ok ys) × (length ys ≡ length arr) × IsInjective ys

shuffle-Shuffled :
    (gnr : ℕ → ℕ) (drawn n : ℕ) (arr : List ℕ)
    → n ≤ length arr
    → IsInjective arr
    → Shuffled arr (shuffle gnr drawn n arr)
unfolding shuffle
shuffle-Shuffled gnr drawn zero arr l h = (arr, refl, refl, h)
shuffle-Shuffled gnr drawn (suc i) arr l h =
    let j = gnr drawn % (i + 1) in
    let (ys, e, len, same) = swap_at-Swapped arr i j l (omega arith) in
    let (zs, e₁, len₁, inj) =
      shuffle-Shuffled gnr (suc drawn) i ys (omega (arith, len))
        (swapped-IsInjective arr ys i j same h) in
    (zs, rw e e₁, len₁ ∙ len, inj)

length-count_up : (n s : ℕ) → length (count_up n s) ≡ n
unfolding count_up
length-count_up zero s = refl
length-count_up (suc n) s = ap suc (length-count_up n (suc s))

at-count_up : (n s k c : ℕ) → at (count_up n s) k ≡ ok c → (c ≡ s + k) × (k < n)
unfolding count_up
at-count_up zero s k c h = cc
at-count_up (suc n) s zero c h = let e = ok_inj h in omega arith
at-count_up (suc n) s (suc k) c h = omega (arith, at-count_up n (suc s) k c h)

count_up-IsInjective : IsInjective (count_up 52 0)
count_up-IsInjective = (
  (λ i c e. omega (arith, at-count_up 52 0 i c e)),
  λ i j c e f. omega (arith, at-count_up 52 0 i c e, at-count_up 52 0 j c f),
)

pub generate-Shuffled :
    (gnr : ℕ → ℕ) (drawn : ℕ)
    → (ys : List ℕ) × (generate_shuffled_array_of_cards gnr drawn ≡ ok ys)
      × (length ys ≡ 52)
      × IsInjective ys
unfolding generate_shuffled_array_of_cards
generate-Shuffled gnr drawn =
    let (ys, e, len, inj) =
      shuffle-Shuffled gnr drawn 52 (count_up 52 0) (omega (arith, length-count_up 52 0))
        count_up-IsInjective in
    (ys, e, len ∙ length-count_up 52 0, inj)
