-- ===== src/Game/Dealt.antt =====
-- `generate_cards` of CardBluffServer/game.cpp deals different cards of the pack.
use card_bluff.Prelude.{
  ℕ, zero, suc, ◌+◌, ◌≤◌, ◌≡◌, refl, ◌∙◌, ap, inl, inr, true, List, [], ◌∷◌, ◌++◌, ltb, ok, at,
  arith, Bool-cases, take, drop, length, lt→ltb, length-take, length-drop,
}
use card_bluff.Combinations.Hand.{hand_of, card_rank, card_suit}
use card_bluff.Combinations.Spec.{has, IsDealt, described}
use card_bluff.Combinations.Build.{hand_of-described}
use card_bluff.Game.State.{Game}
use card_bluff.Game.Deal.{generate_cards}
use card_bluff.Game.Shuffling.{IsInjective, generate-Shuffled}

at-has :
    (v : List ℕ) (s r : ℕ)
    → has v s r ≡ true
    → (i d : ℕ) × (at v i ≡ ok d) × (s ≡ card_suit d) × (r ≡ card_rank d)
at-has [] s r h = cc
at-has (c ∷ v) s r h = elim (Bool-cases (has v s r)) [
  | inl later ↦ let (i, d, e, f, g) = at-has v s r later in (suc i, d, e, f, g)
  | inr here ↦ (0, c, refl, ground arith, ground arith)
]

IsInjective-tail : (c : ℕ) (v : List ℕ) → IsInjective (c ∷ v) → IsInjective v
IsInjective-tail c v h =
    ((λ i d e. h.0 (suc i) d e), λ i j d e f. omega (arith, h.1 (suc i) (suc j) d e f))

IsInjective-IsDealt : (v : List ℕ) → IsInjective v → IsDealt v
IsInjective-IsDealt [] h = tt
IsInjective-IsDealt (c ∷ v) h = (
  h.0 0 c refl,
  elim (Bool-cases (has v (card_suit c) (card_rank c))) [
    | inr away ↦ away
    | inl again ↦
        let (i, d, e, f, g) = at-has v (card_suit c) (card_rank c) again in
        let same : d ≡ c = omega arith in
        let meet = h.1 0 (suc i) c refl (e ∙ ap ok same) in absurd (omega arith)
  ],
  IsInjective-IsDealt v (IsInjective-tail c v h),
)

at-take : (n : ℕ) (xs : List ℕ) (i c : ℕ) → at (take n xs) i ≡ ok c → at xs i ≡ ok c
at-take zero xs i c h = cc
at-take (suc n) [] i c h = cc
at-take (suc n) (x ∷ xs) zero c h = h
at-take (suc n) (x ∷ xs) (suc i) c h = at-take n xs i c h

IsInjective-take : (n : ℕ) (xs : List ℕ) → IsInjective xs → IsInjective (take n xs)
IsInjective-take n xs h = (
  (λ i c e. h.0 i c (at-take n xs i c e)),
  λ i j c e f. h.1 i j c (at-take n xs i c e) (at-take n xs j c f),
)

take-nil : (n : ℕ) → take {A = ℕ} n [] ≡ []
take-nil zero = refl
take-nil (suc n) = refl

take-add : (m n : ℕ) (xs : List ℕ) → take (m + n) xs ≡ take m xs ++ take n (drop m xs)
take-add zero n xs = let e : 0 + n ≡ n = omega arith in rw e refl
take-add (suc m) n [] = let e : suc m + n ≡ suc (m + n) = omega arith in rw (e, take-nil n) refl
take-add (suc m) n (x ∷ xs) =
    let e : suc m + n ≡ suc (m + n) = omega arith in rw e (ap (λ l. x ∷ l) (take-add m n xs))

module _ {Db : Type 0} where
  -- The cards of the two players are different cards of the pack, as many as the players' numbers say,
  -- and `union_of_cards` has the tables of all of them.
  abbrev pub IsTable : Game Db → Type 0
  IsTable g =
      IsDealt (g.cards1 ++ g.cards2)
      × (length g.cards1 ≡ g.card_number1)
      × (length g.cards2 ≡ g.card_number2)
      × (g.union_of_cards ≡ described (g.cards1 ++ g.cards2))

  -- The score, whose move it is, the bet, the wishes for a tie and the end are the same.
  abbrev pub SameRules : Game Db → Game Db → Type 0
  SameRules g h =
      (h.card_number1 ≡ g.card_number1)
      × (h.card_number2 ≡ g.card_number2)
      × (h.current_move ≡ g.current_move)
      × (h.first_move ≡ g.first_move)
      × (h.current_combination ≡ g.current_combination)
      × (h.wants_tie1 ≡ g.wants_tie1)
      × (h.wants_tie2 ≡ g.wants_tie2)
      × (h.finished ≡ g.finished)

  -- Whatever the random numbers are, when the two numbers of cards are at most 52 together,
  -- `generate_cards` returns, and the players have different cards of the pack, as many as their numbers
  -- say, with the tables of all of them in `union_of_cards`. The score,
  -- whose move it is, the bet, the wishes for a tie and the end are the same.
  pub generate_cards-IsTable :
      (gnr : ℕ → ℕ) (g : Game Db)
      → g.card_number1 + g.card_number2 ≤ 52
      → (h : Game Db) × (generate_cards gnr g ≡ ok h) × IsTable h × SameRules g h
  unfolding generate_cards
  generate_cards-IsTable gnr g few =
      let (ys, e, len, inj) = generate-Shuffled gnr g.drawn in
      let n1 = g.card_number1 in
      let n2 = g.card_number2 in
      let split = take-add n1 n2 ys in
      let dealt : IsDealt (take (n1 + n2) ys) =
        IsInjective-IsDealt (take (n1 + n2) ys) (IsInjective-take (n1 + n2) ys inj) in
      let enough : ltb (n1 + n2) (suc (length ys)) ≡ true =
        lt→ltb (n1 + n2) (suc (length ys)) (omega arith) in
      let cards = take n1 ys ++ take n2 (drop n1 ys) in
      let hand : hand_of (take (n1 + n2) ys) ≡ ok (described cards) =
        hand_of-described (take (n1 + n2) ys) dealt ∙ ap (λ v. ok (described v)) split in
      (
        record g {
          drawn = g.drawn + 52;
          cards1 = take n1 ys;
          cards2 = take n2 (drop n1 ys);
          union_of_cards = described cards;
        },
        rw (e, enough, hand) refl,
        (
          rw split at dealt,
          omega (arith, length-take n1 ys),
          omega (arith, length-take n2 (drop n1 ys), length-drop n1 ys),
          refl,
        ),
        (refl, refl, refl, refl, refl, refl, refl, refl),
      )
