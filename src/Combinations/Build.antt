-- ===== src/Combinations/Build.antt =====
-- The constructor of `Hand` builds the tables that combinations.h describes.
mod Sorted
mod Counted
use mathlib.Core.List.{append_assoc, append-nil}
use native.Mathlib.Nat.{add-zero}
use card_bluff.Prelude.{
  ℕ, zero, suc, ◌+◌, ◌≤◌, ◌<◌, ◌≡◌, refl, ap, ◌∙◌, Bool, true, false, List, [], ◌∷◌, ◌++◌, ◌==◌,
  ltb, ◌&&◌, ◌||◌, if◌then◌else◌, tabulate, at-table, update-table, tabulate-ext, changed, down,
  down-ext, arith, ok, Bool-cases, inl, inr, lt-cases, eq-cases, leb, sym, ==_refl, ne→==,
}
use card_bluff.Combinations.Hand.{
  Hand, card_rank, card_suit, resized, add_card, add_cards, insert_desc, sort_desc, push_rank,
  fill_ranks, fill_number_rank, hand_of,
}
use card_bluff.Combinations.Spec.{has, count, IsDealt, described}
use card_bluff.Combinations.Build.Sorted.{ranks_of, sort_desc-ranks_of}
use card_bluff.Combinations.Build.Counted.{count-le}

-- The tables before `number_rank` is filled.
abbrev partial : (ℕ → List ℕ) → (ℕ → ℕ → Bool) → (ℕ → ℕ) → Hand
partial ranks table counts = record {
  suit_rank_b = tabulate 4 0 (λ s. tabulate 13 0 (table s));
  suit_rank = tabulate 4 0 ranks;
  rank_number = tabulate 13 0 counts;
  number_rank = [];
}

-- One cell of the table of cards set.
cell_set : (ℕ → ℕ → Bool) → ℕ → ℕ → ℕ → ℕ → Bool
cell_set table s r i = if i == s then changed r (λ _. true) (table i) else table i

row_set :
    (table : ℕ → ℕ → Bool) (s r i : ℕ)
    → changed s
        (λ _. tabulate 13 0 (changed r (λ _. true) (table s)))
        (λ s'. tabulate 13 0 (table s'))
        i
      ≡ tabulate 13 0 (cell_set table s r i)
unfolding cell_set
row_set table s r i = elim (eq-cases i s) [
  | inl same ↦ rw (same, ==_refl s)
  | inr differ ↦ rw (ne→== i s differ)
]

partial-ext :
    {ranks ranks' : ℕ → List ℕ} {table table' : ℕ → ℕ → Bool} {counts counts' : ℕ → ℕ}
    → ((s : ℕ) → ranks s ≡ ranks' s)
    → ((s r : ℕ) → table s r ≡ table' s r)
    → ((r : ℕ) → counts r ≡ counts' r)
    → partial ranks table counts ≡ partial ranks' table' counts'
partial-ext e f g i = partial (λ s. e s i) (λ s r. f s r i) (λ r. g r i)

add_card_lem :
    (ranks : ℕ → List ℕ) (table : ℕ → ℕ → Bool) (counts : ℕ → ℕ) (c : ℕ)
    → c < 52
    → add_card (partial ranks table counts) c
      ≡ ok (
          partial
            (changed (card_suit c) (λ l. l ++ card_rank c ∷ []) ranks)
            (cell_set table (card_suit c) (card_rank c))
            (changed (card_rank c) suc counts))
unfolding add_card
add_card_lem ranks table counts c h = rw (
  update-table 13 (card_rank c) counts suc (omega arith),
  update-table 4 (card_suit c) ranks (λ l. l ++ card_rank c ∷ []) (omega arith),
  at-table 4 (card_suit c) (λ s. tabulate 13 0 (table s)) (omega arith),
  update-table 13 (card_rank c) (table (card_suit c)) (λ _. true) (omega arith),
  update-table 4 (card_suit c) (λ s. tabulate 13 0 (table s))
      (λ _. tabulate 13 0 (changed (card_rank c) (λ _. true) (table (card_suit c)))) (omega arith),
  tabulate-ext 4 0 _ _ (λ i _ _. row_set table (card_suit c) (card_rank c) i),
)

-- One card's part of each table, joined to that of the others.
module _ (v : List ℕ) (c : ℕ) (ranks : ℕ → List ℕ) (table : ℕ → ℕ → Bool) (counts : ℕ → ℕ) where
  ranks_of-cons :
      (s : ℕ)
      → changed (card_suit c) (λ l. l ++ card_rank c ∷ []) ranks s ++ ranks_of v s
        ≡ ranks s ++ ranks_of (c ∷ v) s
  ranks_of-cons s = ground (arith, append_assoc (ranks s) (card_rank c ∷ []) (ranks_of v s))

  has-cons :
      (s r : ℕ)
      → (has v s r || cell_set table (card_suit c) (card_rank c) s r)
        ≡ (has (c ∷ v) s r || table s r)
  unfolding cell_set
  has-cons s r = ground arith

  count-cons : (r : ℕ) → count v r + changed (card_rank c) suc counts r ≡ count (c ∷ v) r + counts r
  count-cons r = ground arith

count_nil : (n : ℕ) → n ≡ 0 + n
count_nil n = omega arith

-- The tables of the cards added to those given.
add_cards_lem :
    (v : List ℕ) (ranks : ℕ → List ℕ) (table : ℕ → ℕ → Bool) (counts : ℕ → ℕ)
    → IsDealt v
    → add_cards (partial ranks table counts) v
      ≡ ok (
          partial
            (λ s. ranks s ++ ranks_of v s)
            (λ s r. has v s r || table s r)
            (λ r. count v r + counts r))
unfolding add_cards
add_cards_lem [] ranks table counts d = ap ok (
    partial-ext {table = table} {table' = table} (λ s. sym (append-nil (ranks s))) (λ s r. refl)
      (λ r. count_nil (counts r)))
add_cards_lem (c ∷ v) ranks table counts d =
    rw (add_card_lem ranks table counts c d.0, add_cards_lem v _ _ _ d.2)
      (ap ok (
        partial-ext (ranks_of-cons v c ranks table counts) (has-cons v c ranks table counts)
          (count-cons v c ranks table counts)))

-- Filling `number_rank`: the rank i joins the first `n` lists.
abbrev with_rank : ℕ → ℕ → ℕ → (ℕ → List ℕ) → ℕ → List ℕ
with_rank i n j table k = if leb j k && ltb k (j + n) then table k ++ i ∷ [] else table k

with_rank-suc :
    (i n j k : ℕ) (table : ℕ → List ℕ)
    → with_rank i n (suc j) (changed j (λ r. r ++ i ∷ []) table) k ≡ with_rank i (suc n) j table k
with_rank-suc i n j k table = ground arith

push_rank_lem :
    (i n j : ℕ) (table : ℕ → List ℕ)
    → j + n ≤ 4
    → push_rank i n j (tabulate 4 0 table) ≡ ok (tabulate 4 0 (with_rank i n j table))
unfolding push_rank
push_rank_lem i zero j table h =
    ap ok (tabulate-ext 4 0 table (with_rank i 0 j table) (λ k _ _. ground arith))
push_rank_lem i (suc n) j table h =
    rw
      (
        update-table 4 j table (λ r. r ++ i ∷ []) (omega arith),
        push_rank_lem i n (suc j) _ (omega arith),
      )
      (ap ok
        (tabulate-ext 4 0 _ (with_rank i (suc n) j table) (λ k _ _. with_rank-suc i n j k table)))

with_rank-down :
    (counts : ℕ → ℕ) (i k : ℕ) (table : ℕ → List ℕ)
    → with_rank i (counts i) 0 table k ++ down (λ r. ltb k (counts r)) i
      ≡ table k ++ down (λ r. ltb k (counts r)) (suc i)
unfolding down
with_rank-down counts i k table =
    ground (arith, append_assoc (table k) (i ∷ []) (down (λ r. ltb k (counts r)) i))

fill_ranks_lem :
    (counts : ℕ → ℕ) (i : ℕ) (table : ℕ → List ℕ)
    → ((r : ℕ) → counts r ≤ 4)
    → i ≤ 13
    → fill_ranks (tabulate 13 0 counts) i (tabulate 4 0 table)
      ≡ ok (tabulate 4 0 (λ k. table k ++ down (λ r. ltb k (counts r)) i))
unfolding fill_ranks down
fill_ranks_lem counts zero table few h =
    ap ok (tabulate-ext 4 0 table _ (λ k _ _. sym (append-nil (table k))))
fill_ranks_lem counts (suc i) table few h =
    rw
      (
        at-table 13 i counts h,
        push_rank_lem i (counts i) 0 table (omega (arith, few i)),
        fill_ranks_lem counts i _ few (omega arith),
      )
      (ap ok (tabulate-ext 4 0 _ _ (λ k _ _. with_rank-down counts i k table)))

or_false : (b : Bool) → (b || false) ≡ b
or_false true = refl
or_false false = refl

add_cards-resized :
    (v : List ℕ) → IsDealt v → add_cards resized v ≡ ok (partial (ranks_of v) (has v) (count v))
unfolding resized
add_cards-resized v d =
    add_cards_lem v (λ s. []) (λ s r. false) (λ r. 0) d
    ∙ ap ok (
        partial-ext {ranks = ranks_of v} {ranks' = ranks_of v} (λ s. refl)
          (λ s r. or_false (has v s r)) (λ r. add-zero (count v r)))

fill_number_rank_lem :
    (ranks : ℕ → List ℕ) (table : ℕ → ℕ → Bool) (counts : ℕ → ℕ)
    → ((r : ℕ) → counts r ≤ 4)
    → fill_number_rank (partial ranks table counts)
      ≡ ok (record (partial ranks table counts) {
        number_rank = tabulate 4 0 (λ n. down (λ r. ltb n (counts r)) 13);
      })
unfolding fill_number_rank
fill_number_rank_lem ranks table counts few =
    rw (fill_ranks_lem counts 13 (λ k. []) few (omega arith))

-- For cards of the pack, no two the same, the constructor returns, and its tables are those that the
-- comments of the class describe: which cards there are, the ranks of each suit in decreasing order,
-- the number of cards of each rank, and the ranks that occur more than n times in decreasing order.
pub hand_of-described : (v : List ℕ) → IsDealt v → hand_of v ≡ ok (described v)
unfolding hand_of
hand_of-described v d = rw (
  add_cards-resized v d,
  fill_number_rank_lem (λ s. sort_desc (ranks_of v s)) (has v) (count v) (λ r. count-le v r d),
  sort_desc-ranks_of v 0 d,
  sort_desc-ranks_of v 1 d,
  sort_desc-ranks_of v 2 d,
  sort_desc-ranks_of v 3 d,
)
