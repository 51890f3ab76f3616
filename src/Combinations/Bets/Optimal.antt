-- ===== src/Combinations/Bets/Optimal.antt =====
-- `find_best_combination` of CardBluffServer/combinations.cpp finds a combination of the cards that no
-- other one beats in the order of `less_combination`.
use card_bluff.Prelude.{
  ℕ, suc, ◌≤◌, ◌≡◌, refl, ◌∙◌, ap, true, false, List, [], ◌∷◌, Option, none, some, ok, ◌>>=◌, arith,
  Run,
}
use card_bluff.Combinations.Spec.{described}
use card_bluff.Combinations.Check.{clever_asserts}
use card_bluff.Combinations.Order.{comparison_key, lexicographic, less_combination}
use card_bluff.Combinations.Best.{or_else, or_else₂, find_best_combination}
use card_bluff.Combinations.Find.{
  find_best_four_of_a_kind, find_best_three_of_a_kind, find_best_two_pairs, find_best_pair,
  find_best_high_card,
}
use card_bluff.Combinations.Spec.{IsDealt}
use card_bluff.Combinations.Hand.{hand_of}
use card_bluff.Combinations.Build.{hand_of-described}
use card_bluff.Combinations.Check.{check_combination}
use card_bluff.Combinations.Bets.Checked.{check_combination-holds}
use card_bluff.Combinations.Bets.{Bet, kind_of, encode, IsProper, holds}
use card_bluff.Combinations.Bets.Tops.{best_top-IsTopRow, find_best_straight-best_top}
use card_bluff.Combinations.Bets.Suited.{find_best_straight_flush-TopFlush}
use card_bluff.Combinations.Bets.Found.{first-down, first_two-down}
use card_bluff.Combinations.Bets.Flushes.{find_best_flush-LowFlush}
use card_bluff.Combinations.Bets.Houses.{find_best_full_house-TopHouse}
use card_bluff.Combinations.Bets.Ranking.{UpTo, UpTo-down, IsBest-of-kind, Finds, Verdict}
use card_bluff.Combinations.Bets.Verdicts.{
  flush_of, two_pairs_of, full_house_of, straight_flush_of, Verdict-high_card, Verdict-pair,
  Verdict-set, Verdict-square, Verdict-straight, Verdict-flush, Verdict-two_pairs,
  Verdict-full_house, Verdict-straight_flush,
}

or_else-Finds :
    (v : List ℕ) (k : ℕ) (bet : ℕ → Bet) (o : Option ℕ) {m : Run (Option ℕ)} {next : Run (List ℕ)}
    → ((r : ℕ) → encode (bet r) ≡ suc k ∷ r ∷ [])
    → ((r : ℕ) → kind_of (bet r) ≡ suc k)
    → m ≡ ok o
    → Verdict v (suc k) bet o
    → UpTo v (suc k)
    → (UpTo v k → Finds v next)
    → Finds v (or_else (suc k) m next)
or_else-Finds v k bet none code kind e absent upto go = rw e (go (UpTo-down v k absent upto))
or_else-Finds v k bet (some r) code kind e best upto go =
    (bet r, rw (e, code r), IsBest-of-kind v (bet r) (rw (kind r) upto) best)

or_else₂-Finds :
    (v : List ℕ) (k : ℕ) (bet : ℕ × ℕ → Bet) (o : Option (ℕ × ℕ)) {m : Run (Option (ℕ × ℕ))}
    {next : Run (List ℕ)}
    → ((p : ℕ × ℕ) → encode (bet p) ≡ suc k ∷ p.0 ∷ p.1 ∷ [])
    → ((p : ℕ × ℕ) → kind_of (bet p) ≡ suc k)
    → m ≡ ok o
    → Verdict v (suc k) bet o
    → UpTo v (suc k)
    → (UpTo v k → Finds v next)
    → Finds v (or_else₂ (suc k) m next)
or_else₂-Finds v k bet none code kind e absent upto go = rw e (go (UpTo-down v k absent upto))
or_else₂-Finds v k bet (some (a, b)) code kind e best upto go =
    (bet (a, b), rw (e, code (a, b)), IsBest-of-kind v (bet (a, b)) (rw (kind (a, b)) upto) best)

pub kind_of_le : (c : Bet) → kind_of c ≤ 9
kind_of_le (Bet.nothing) = omega arith
kind_of_le _ = omega arith

UpTo-nine : (v : List ℕ) → UpTo v 9
UpTo-nine v c p h = kind_of_le c

nothing_inverse : (c : Bet) → kind_of c ≡ 0 → c ≡ Bet.nothing
nothing_inverse Bet.nothing e = refl
nothing_inverse _ e = absurd (omega arith)

nothing-Finds : (v : List ℕ) → UpTo v 0 → Finds v (ok (0 ∷ []))
unfolding less_combination clever_asserts comparison_key lexicographic
nothing-Finds v upto = (
  Bet.nothing,
  refl,
  IsBest-of-kind v Bet.nothing upto (tt, refl, λ c p e h. rw (nothing_inverse c e) refl),
)

-- `find_best_combination` returns, for the hand that describes some cards, a combination that the
-- cards contain and that `less_combination` puts below no other combination they contain.
pub find_best_combination-IsBest : (v : List ℕ) → Finds v (find_best_combination (described v))
unfolding find_best_combination find_best_four_of_a_kind find_best_three_of_a_kind
    find_best_two_pairs find_best_pair find_best_high_card
find_best_combination-IsBest v =
    let (sf, e_sf, h_sf) = find_best_straight_flush-TopFlush v in
    let (fh, e_fh, h_fh) = find_best_full_house-TopHouse v in
    let (fl, e_fl, h_fl) = find_best_flush-LowFlush v in
    or_else₂-Finds v 8 straight_flush_of sf (λ p. refl) (λ p. refl) e_sf
      (Verdict-straight_flush v sf h_sf) (UpTo-nine v)
      (λ u.
        or_else-Finds v 7 Bet.square _ (λ p. refl) (λ p. refl) refl
          (Verdict-square v _ (first-down _ 13)) u
          (λ u.
            or_else₂-Finds v 6 full_house_of fh (λ p. refl) (λ p. refl) e_fh
              (Verdict-full_house v fh h_fh) u
              (λ u.
                or_else₂-Finds v 5 flush_of fl (λ p. refl) (λ p. refl) e_fl
                  (Verdict-flush v fl h_fl) u
                  (λ u.
                    or_else-Finds v 4 Bet.straight _ (λ p. refl) (λ p. refl)
                      (find_best_straight-best_top v) (Verdict-straight v _ (best_top-IsTopRow _)) u
                      (λ u.
                        or_else-Finds v 3 Bet.set _ (λ p. refl) (λ p. refl) refl
                          (Verdict-set v _ (first-down _ 13)) u
                          (λ u.
                            or_else₂-Finds v 2 two_pairs_of _ (λ p. refl) (λ p. refl) refl
                              (Verdict-two_pairs v _ (first_two-down _ 13)) u
                              (λ u.
                                or_else-Finds v 1 Bet.pair _ (λ p. refl) (λ p. refl) refl
                                  (Verdict-pair v _ (first-down _ 13)) u
                                  (λ u.
                                    or_else-Finds v 0 Bet.high_card _ (λ p. refl) (λ p. refl) refl
                                      (Verdict-high_card v _ (first-down _ 13)) u
                                      (λ u. nothing-Finds v u)))))))))

module _ (v : List ℕ) (dealt : IsDealt v) where
  -- For cards that are of the pack and all different, `Hand` and `find_best_combination` return, and
  -- what they return is a combination that exists in the game and that the cards contain, for which
  -- `check_combination` returns true.
  pub find_best_combination-contained :
      (b : Bet) × ((hand_of v >>= find_best_combination) ≡ ok (encode b))
      × IsProper b
      × (holds v b ≡ true)
      × ((hand_of v >>= λ h. check_combination h (encode b)) ≡ ok true)
  find_best_combination-contained =
      let (b, found, best) = find_best_combination-IsBest v in
      let here = check_combination-holds v b best.0 ∙ ap ok best.1 in
      (b, rw (hand_of-described v dealt) found, best.0, best.1, rw (hand_of-described v dealt) here)

  -- For cards that are of the pack and all different, and a combination c that exists in the game and
  -- that the cards contain, `less_combination` does not put the result of `find_best_combination`
  -- below c.
  pub find_best_combination-unbeaten :
      (c : Bet)
      → IsProper c
      → holds v c ≡ true
      → (hand_of v >>= find_best_combination >>= λ best. less_combination best (encode c))
        ≡ ok false
  find_best_combination-unbeaten c p here =
      let (b, found, best) = find_best_combination-IsBest v in
      rw (hand_of-described v dealt, found) (best.2 c p here)

  -- For cards that are of the pack and all different, `check_combination` of their `Hand` returns, for a
  -- combination that exists in the game, whether the cards contain it.
  pub check_combination-dealt :
      (b : Bet) → IsProper b → (hand_of v >>= λ h. check_combination h (encode b)) ≡ ok (holds v b)
  check_combination-dealt b p = rw (hand_of-described v dealt) (check_combination-holds v b p)
