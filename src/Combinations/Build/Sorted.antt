-- ===== src/Combinations/Build/Sorted.antt =====
-- Sorting the ranks of a suit, as the constructor of `Hand` in CardBluffServer/combinations.cpp does.
use card_bluff.Prelude.{
  ℕ, zero, suc, ◌≤◌, ◌<◌, ◌≡◌, refl, Bool, false, List, [], ◌∷◌, ◌==◌, ◌||◌, if◌then◌else◌, down,
  down-ext, arith, inl, inr, lt-cases, eq-cases, sym,
}
use card_bluff.Combinations.Hand.{card_rank, card_suit, insert_desc, sort_desc}
use card_bluff.Combinations.Spec.{has, IsDealt}

-- Sorting the ranks of one suit.
insert_desc-above : (p : ℕ → Bool) (x n : ℕ) → n ≤ x → insert_desc x (down p n) ≡ x ∷ down p n
unfolding insert_desc down
insert_desc-above p x zero h = refl
insert_desc-above p x (suc n) h = ground (arith, insert_desc-above p x n)

insert_desc-down :
    (p : ℕ → Bool) (x n : ℕ)
    → x < n
    → p x ≡ false
    → insert_desc x (down p n) ≡ down (λ r. r == x || p r) n
unfolding insert_desc down
insert_desc-down p x zero h e = elim h [ ]
insert_desc-down p x (suc n) h e = elim (lt-cases x n) [
  | inl below ↦ ground (arith, insert_desc-down p x n below e)
  | inr top ↦
      ground (
        arith,
        insert_desc-above p x n top,
        down-ext p (λ r. r == x || p r) n (λ j l. ground arith),
      )
]

-- The ranks of suit s, in the order of the cards.
abbrev pub ranks_of : List ℕ → ℕ → List ℕ
ranks_of [] s = []
ranks_of (c ∷ v) s = if s == card_suit c then card_rank c ∷ ranks_of v s else ranks_of v s

down-none : (n : ℕ) → down (λ r. false) n ≡ []
unfolding down
down-none zero = refl
down-none (suc n) = down-none n

pub sort_desc-ranks_of :
    (v : List ℕ) (s : ℕ) → IsDealt v → sort_desc (ranks_of v s) ≡ down (has v s) 13
unfolding sort_desc
sort_desc-ranks_of [] s d = sym (down-none 13)
sort_desc-ranks_of (c ∷ v) s d = elim (eq-cases s (card_suit c)) [
  | inl same ↦ ground (
    arith,
    sort_desc-ranks_of v s d.2,
    insert_desc-down (has v s) (card_rank c) 13,
    down-ext (λ r. r == card_rank c || has v s r) (has (c ∷ v) s) 13 (λ j l. ground arith),
  )
  | inr differ ↦ ground (
    arith,
    sort_desc-ranks_of v s d.2,
    down-ext (has v s) (has (c ∷ v) s) 13 (λ j l. ground arith),
  )
]
