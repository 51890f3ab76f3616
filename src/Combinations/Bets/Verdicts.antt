-- ===== src/Combinations/Bets/Verdicts.antt =====
-- What each search of CardBluffServer/combinations.cpp tells of the combinations of its kind.
use card_bluff.Prelude.{
  ℕ, zero, suc, ◌≤◌, ◌<◌, ◌≡◌, refl, ◌∙◌, ap, sym, ◌⊎◌, Bool, true, false, List, [], ◌∷◌, Option,
  none, some, ltb, ok, arith, inl, inr, lt-cases, eq-cases,
}
use card_bluff.Prelude.Int.{pos}
use card_bluff.Combinations.Spec.{count}
use card_bluff.Combinations.Check.{clever_asserts}
use card_bluff.Combinations.Order.{negate, comparison_key, lexicographic, less_combination}
use card_bluff.Combinations.Bets.{Bet, kind_of, encode, IsProper, holds, present}
use card_bluff.Combinations.Bets.Tops.{IsTopRow}
use card_bluff.Combinations.Bets.Suited.{TopFlush}
use card_bluff.Combinations.Bets.Found.{IsTop, AreTopTwo}
use card_bluff.Combinations.Bets.Flushes.{LowFlush}
use card_bluff.Combinations.Bets.Houses.{TopHouse}
use card_bluff.Combinations.Bets.Ranking.{Verdict}

-- A verdict on the bets of one kind, from what is known of those bets.
module _ {ℓ} {A : Type ℓ} (v : List ℕ) (k : ℕ) (bet : A → Bet)
    (inverse : (c : Bet) → kind_of c ≡ k → (a : A) × (c ≡ bet a))
    (kind : (a : A) → kind_of (bet a) ≡ k) where
  Verdict-none : ((a : A) → IsProper (bet a) → holds v (bet a) ≡ false) → Verdict v k bet none
  Verdict-none h c q e = let (a, same) = inverse c e in rw same (h a (rw same at q))

  Verdict-some :
      (a : A)
      → IsProper (bet a)
      → holds v (bet a) ≡ true
      → ((b : A)
          → IsProper (bet b)
          → holds v (bet b) ≡ true
          → less_combination (encode (bet a)) (encode (bet b)) ≡ ok false)
      → Verdict v k bet (some a)
  Verdict-some a p here h = (
    p,
    here,
    λ c q e here'.
        let (b, same) = inverse c (e ∙ kind a) in rw same (h b (rw same at q) (rw same at here')),
  )

-- The kinds that one rank names, and of which a higher rank is better.
module _ (v : List ℕ) (k : ℕ) (bet : ℕ → Bet) (p : ℕ → Bool)
    (inverse : (c : Bet) → kind_of c ≡ k → (r : ℕ) × (c ≡ bet r))
    (kind : (r : ℕ) → kind_of (bet r) ≡ k) (named : (r : ℕ) → holds v (bet r) ≡ p r)
    (in_pack : (r : ℕ) → IsProper (bet r) → r < 13) (proper : (r : ℕ) → r < 13 → IsProper (bet r))
    (ordered : (r q : ℕ)
      → q ≤ r
      → less_combination (encode (bet r)) (encode (bet q)) ≡ ok false) where
  Verdict-rank : (o : Option ℕ) → IsTop p 13 o → Verdict v k bet o
  Verdict-rank none h = Verdict-none v k bet inverse kind (λ r q. named r ∙ h r (in_pack r q))
  Verdict-rank (some t) h =
      Verdict-some v k bet inverse kind t (proper t h.0) (named t ∙ h.1)
        (λ r q here. ordered t r (h.2 r (in_pack r q) (sym (named r) ∙ here)))

high_card_inverse : (c : Bet) → kind_of c ≡ 1 → (r : ℕ) × (c ≡ Bet.high_card r)
high_card_inverse (Bet.high_card r) e = (r, refl)
high_card_inverse _ e = absurd (omega arith)

pair_inverse : (c : Bet) → kind_of c ≡ 2 → (r : ℕ) × (c ≡ Bet.pair r)
pair_inverse (Bet.pair r) e = (r, refl)
pair_inverse _ e = absurd (omega arith)

two_pairs_inverse : (c : Bet) → kind_of c ≡ 3 → (p : ℕ × ℕ) × (c ≡ Bet.two_pairs p.0 p.1)
two_pairs_inverse (Bet.two_pairs a b) e = ((a, b), refl)
two_pairs_inverse _ e = absurd (omega arith)

set_inverse : (c : Bet) → kind_of c ≡ 4 → (r : ℕ) × (c ≡ Bet.set r)
set_inverse (Bet.set r) e = (r, refl)
set_inverse _ e = absurd (omega arith)

straight_inverse : (c : Bet) → kind_of c ≡ 5 → (r : ℕ) × (c ≡ Bet.straight r)
straight_inverse (Bet.straight r) e = (r, refl)
straight_inverse _ e = absurd (omega arith)

flush_inverse : (c : Bet) → kind_of c ≡ 6 → (p : ℕ × ℕ) × (c ≡ Bet.flush p.0 p.1)
flush_inverse (Bet.flush a b) e = ((a, b), refl)
flush_inverse _ e = absurd (omega arith)

full_house_inverse : (c : Bet) → kind_of c ≡ 7 → (p : ℕ × ℕ) × (c ≡ Bet.full_house p.0 p.1)
full_house_inverse (Bet.full_house a b) e = ((a, b), refl)
full_house_inverse _ e = absurd (omega arith)

square_inverse : (c : Bet) → kind_of c ≡ 8 → (r : ℕ) × (c ≡ Bet.square r)
square_inverse (Bet.square r) e = (r, refl)
square_inverse _ e = absurd (omega arith)

straight_flush_inverse : (c : Bet) → kind_of c ≡ 9 → (p : ℕ × ℕ) × (c ≡ Bet.straight_flush p.0 p.1)
straight_flush_inverse (Bet.straight_flush a b) e = ((a, b), refl)
straight_flush_inverse _ e = absurd (omega arith)

less-one : (k r q : ℕ) → q ≤ r → lexicographic (pos k ∷ pos r ∷ []) (pos k ∷ pos q ∷ []) ≡ false
unfolding lexicographic
less-one k r q h = ground arith

pub Verdict-high_card :
    (v : List ℕ) (o : Option ℕ) → IsTop (λ r. ltb 0 (count v r)) 13 o → Verdict v 1 Bet.high_card o
unfolding less_combination clever_asserts comparison_key
Verdict-high_card v =
    Verdict-rank v 1 Bet.high_card (λ r. ltb 0 (count v r)) high_card_inverse (λ r. refl)
      (λ r. ground arith) (λ r h. h) (λ r h. h) (λ r q h. ap ok (less-one 1 r q h))

pub Verdict-pair :
    (v : List ℕ) (o : Option ℕ) → IsTop (λ r. ltb 1 (count v r)) 13 o → Verdict v 2 Bet.pair o
unfolding less_combination clever_asserts comparison_key
Verdict-pair v =
    Verdict-rank v 2 Bet.pair (λ r. ltb 1 (count v r)) pair_inverse (λ r. refl) (λ r. ground arith)
      (λ r h. h) (λ r h. h) (λ r q h. ap ok (less-one 2 r q h))

pub Verdict-set :
    (v : List ℕ) (o : Option ℕ) → IsTop (λ r. ltb 2 (count v r)) 13 o → Verdict v 4 Bet.set o
unfolding less_combination clever_asserts comparison_key
Verdict-set v =
    Verdict-rank v 4 Bet.set (λ r. ltb 2 (count v r)) set_inverse (λ r. refl) (λ r. ground arith)
      (λ r h. h) (λ r h. h) (λ r q h. ap ok (less-one 4 r q h))

pub Verdict-square :
    (v : List ℕ) (o : Option ℕ) → IsTop (λ r. ltb 3 (count v r)) 13 o → Verdict v 8 Bet.square o
unfolding less_combination clever_asserts comparison_key
Verdict-square v =
    Verdict-rank v 8 Bet.square (λ r. ltb 3 (count v r)) square_inverse (λ r. refl)
      (λ r. ground arith) (λ r h. h) (λ r h. h) (λ r q h. ap ok (less-one 8 r q h))

pub Verdict-straight :
    (v : List ℕ) (o : Option ℕ) → IsTopRow (present v) o → Verdict v 5 Bet.straight o
unfolding less_combination clever_asserts comparison_key
Verdict-straight v none h =
    Verdict-none v 5 Bet.straight straight_inverse (λ r. refl) (λ r p. h r p.0 p.1)
Verdict-straight v (some t) h =
    Verdict-some v 5 Bet.straight straight_inverse (λ r. refl) t (h.0, h.1) h.2
      (λ r p here. ap ok (less-one 5 t r (h.3 r p.0 p.1 here)))

abbrev pub flush_of : ℕ × ℕ → Bet
flush_of p = Bet.flush p.0 p.1

abbrev pub two_pairs_of : ℕ × ℕ → Bet
two_pairs_of p = Bet.two_pairs p.0 p.1

abbrev pub full_house_of : ℕ × ℕ → Bet
full_house_of p = Bet.full_house p.0 p.1

abbrev pub straight_flush_of : ℕ × ℕ → Bet
straight_flush_of p = Bet.straight_flush p.0 p.1

less-negated :
    (k r q : ℕ) → r ≤ q → lexicographic (pos k ∷ negate r ∷ []) (pos k ∷ negate q ∷ []) ≡ false
unfolding lexicographic
less-negated k zero zero h = ground arith
less-negated k zero (suc q) h = ground arith
less-negated k (suc r) zero h = absurd (omega arith)
less-negated k (suc r) (suc q) h = ground arith

pub Verdict-flush : (v : List ℕ) (o : Option (ℕ × ℕ)) → LowFlush v 4 o → Verdict v 6 flush_of o
unfolding less_combination clever_asserts comparison_key
Verdict-flush v none h =
    Verdict-none v 6 flush_of flush_inverse (λ r. refl) (λ p q. h p.1 q.1 p.0 q.0)
Verdict-flush v (some (t, o)) h =
    Verdict-some v 6 flush_of flush_inverse (λ r. refl) (t, o) (h.0, h.1) h.2
      (λ p q here. ap ok (less-negated 6 t p.0 (h.3 p.1 q.1 p.0 q.0 here)))

less-two :
    (k a b c d : ℕ)
    → (c < a) ⊎ ((c ≡ a) × (d ≤ b))
    → lexicographic (pos k ∷ pos a ∷ pos b ∷ []) (pos k ∷ pos c ∷ pos d ∷ []) ≡ false
unfolding lexicographic
less-two k a b c d h = ground arith

pub Verdict-two_pairs :
    (v : List ℕ) (o : Option (ℕ × ℕ))
    → AreTopTwo (λ r. ltb 1 (count v r)) 13 o
    → Verdict v 3 two_pairs_of o
unfolding less_combination clever_asserts comparison_key
Verdict-two_pairs v none h =
    Verdict-none v 3 two_pairs_of two_pairs_inverse (λ r. refl)
      (λ p q. elim (lt-cases p.0 p.1) [
        | inl up ↦ ground (arith, h p.0 p.1 up q.1)
        | inr down ↦ ground (arith, h p.1 p.0 (omega (arith, q.2)) q.0)
      ])
Verdict-two_pairs v (some (a, b)) h =
    Verdict-some v 3 two_pairs_of two_pairs_inverse (λ r. refl) (a, b)
      (omega (arith, h.1), omega (arith, h.0, h.1), omega (arith, h.0)) (ground (arith, h.2, h.3))
      (λ p q here. ap ok (less-two 3 a b p.0 p.1 (below_two p q here)))
  where
    below_two :
        (p : ℕ × ℕ)
        → IsProper (two_pairs_of p)
        → holds v (two_pairs_of p) ≡ true
        → (p.0 < a) ⊎ ((p.0 ≡ a) × (p.1 ≤ b))
    below_two p q here =
        let c : ltb 1 (count v p.0) ≡ true = ground arith in
        let d : ltb 1 (count v p.1) ≡ true = ground arith in
        elim (eq-cases p.0 a) [
          | inl same ↦ inr (same, h.5 p.1 q.1 (omega (arith, q.2)) d)
          | inr differ ↦ inl (omega (arith, h.4 p.0 q.0 c))
        ]

pub Verdict-full_house :
    (v : List ℕ) (o : Option (ℕ × ℕ))
    → TopHouse (λ r. ltb 2 (count v r)) (λ r. ltb 1 (count v r)) 13 o
    → Verdict v 7 full_house_of o
unfolding less_combination clever_asserts comparison_key
Verdict-full_house v none h =
    Verdict-none v 7 full_house_of full_house_inverse (λ r. refl)
      (λ p q. ground (arith, h p.0 p.1 q.0 q.1 q.2))
Verdict-full_house v (some (a, b)) h =
    Verdict-some v 7 full_house_of full_house_inverse (λ r. refl) (a, b) (h.0, h.1, h.2)
      (ground (arith, h.2, h.3, h.4))
      (λ p q here.
        let c : ltb 2 (count v p.0) ≡ true = ground arith in
        let d : ltb 1 (count v p.1) ≡ true = ground arith in
        ap ok (less-two 7 a b p.0 p.1 (h.5 p.0 p.1 q.0 q.1 q.2 c d)))

pub Verdict-straight_flush :
    (v : List ℕ) (o : Option (ℕ × ℕ)) → TopFlush v 4 o → Verdict v 9 straight_flush_of o
unfolding less_combination clever_asserts comparison_key
Verdict-straight_flush v none h =
    Verdict-none v 9 straight_flush_of straight_flush_inverse (λ r. refl)
      (λ p q. h p.1 q.2 p.0 q.0 q.1)
Verdict-straight_flush v (some (t, o)) h =
    Verdict-some v 9 straight_flush_of straight_flush_inverse (λ r. refl) (t, o) (h.0, h.1, h.2) h.3
      (λ p q here. ap ok (less-one 9 t p.0 (h.4 p.1 q.2 p.0 q.0 q.1 here)))
