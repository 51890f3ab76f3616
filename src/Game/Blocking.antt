-- ===== src/Game/Blocking.antt =====
-- What "/b" does to a round: `block`, the branch of `Game::make_move` in CardBluffServer/game.cpp.
use card_bluff.Prelude.{
  ℕ, ◌≤◌, ◌<◌, ◌≡◌, refl, ◌∙◌, ap, inl, inr, Bool, true, false, List, [], ◌∷◌, ◌++◌, if◌then◌else◌,
  ◌&&◌, ok, at, arith, Bool-cases, codes, list_eq,
}
use card_bluff.Env.{Env}
use card_bluff.Combinations.Tables
use card_bluff.Combinations.Spec.{described}
use card_bluff.Combinations.Hand.{card_rank}
use card_bluff.Combinations.Check.{clever_asserts, check_combination}
use card_bluff.Combinations.Best.{
  remove_suit, is_best_combination, is_combination_nothing, find_best_combination,
}
use card_bluff.Combinations.Bets.{Bet, encode, kind_of, IsProper, holds}
use card_bluff.Combinations.Bets.Ranking.{IsBest}
use card_bluff.Combinations.Bets.Checked.{check_combination-holds}
use card_bluff.Combinations.Bets.Optimal.{find_best_combination-IsBest}
use card_bluff.Combinations.Order.{less_combination, comparison_key, lexicographic}
use card_bluff.Combinations.Command.Format.{format_ranks, format_m_command}
use card_bluff.Game.Heard.{waiting, server_line, player_line, hear, heard, heard-move, both-heard}
use card_bluff.Game.State.{Game, Seat, first_player, second_player}
use card_bluff.Game.Say.{name}
use card_bluff.Game.Round.{player_loses_round, tie_in_round}
use card_bluff.Game.Move.{block, block_failed}
use card_bluff.Game.Shuffling.{at-length}
use card_bluff.Game.Reveal.{
  SameTable, SameTable-cards, SameTable-bet, hear-SameTable, heard-SameTable, shown-hear,
  judged-heard, is_combination_nothing-encode,
}

rank_char : (r : ℕ) → r < 13 → (x : ℕ) × (at Tables.rank_to_wchar r ≡ ok x)
rank_char r l = at-length Tables.rank_to_wchar r l

suit_char : (s : ℕ) → s < 4 → (x : ℕ) × (at Tables.suit_to_wchar s ≡ ok x)
suit_char s l = at-length Tables.suit_to_wchar s l

abbrev Formats : Bet → Type 0
Formats c = (t : List ℕ) × (format_m_command (encode c) ≡ ok t)

format-Formats : (c : Bet) → IsProper c → 1 ≤ kind_of c → Formats c
unfolding format_m_command format_ranks clever_asserts is_combination_nothing
format-Formats Bet.nothing p l = absurd (omega arith)
format-Formats (Bet.high_card r) p l =
    let (x, e) = rank_char r p in (codes "/m " ++ b'0' ∷ x ∷ [], rw e refl)
format-Formats (Bet.pair r) p l =
    let (x, e) = rank_char r p in (codes "/m " ++ b'1' ∷ x ∷ [], rw e refl)
format-Formats (Bet.set r) p l =
    let (x, e) = rank_char r p in (codes "/m " ++ b'3' ∷ x ∷ [], rw e refl)
format-Formats (Bet.straight r) p l =
    let (x, e) = rank_char r p.1 in (codes "/m " ++ b'4' ∷ x ∷ [], rw e refl)
format-Formats (Bet.square r) p l =
    let (x, e) = rank_char r p in (codes "/m " ++ b'7' ∷ x ∷ [], rw e refl)
format-Formats (Bet.two_pairs a b) p l =
    let (x, e) = rank_char a p.0 in
    let (y, f) = rank_char b p.1 in (codes "/m " ++ b'2' ∷ x ∷ y ∷ [], rw (e, f) refl)
format-Formats (Bet.full_house a b) p l =
    let (x, e) = rank_char a p.0 in
    let (y, f) = rank_char b p.1 in (codes "/m " ++ b'6' ∷ x ∷ y ∷ [], rw (e, f) refl)
format-Formats (Bet.flush r s) p l =
    let (x, e) = rank_char r p.0 in
    let (y, f) = suit_char s p.1 in (codes "/m " ++ b'5' ∷ x ∷ y ∷ [], rw (e, f) refl)
format-Formats (Bet.straight_flush r s) p l =
    let (x, e) = rank_char r p.1 in
    let (y, f) = suit_char s p.2 in (codes "/m " ++ b'8' ∷ x ∷ y ∷ [], rw (e, f) refl)

-- A bet without the suit of a flush.
abbrev pub bare : Bet → List ℕ
bare (Bet.flush r s) = 6 ∷ r ∷ []
bare (Bet.straight_flush r s) = 9 ∷ r ∷ []
bare b = encode b

remove_suit-bare : (c : Bet) → remove_suit (encode c) ≡ ok (bare c)
unfolding remove_suit clever_asserts
remove_suit-bare Bet.nothing = refl
remove_suit-bare _ = refl

-- The bet is among the cards, and it is the best one but for a suit.
abbrev pub is_highest : List ℕ → Bet → Bet → Bool
is_highest v best b = holds v b && list_eq (bare best) (bare b)

is_best-highest :
    (v : List ℕ) (b best : Bet)
    → IsProper b
    → find_best_combination (described v) ≡ ok (encode best)
    → is_best_combination (described v) (encode b) ≡ ok (is_highest v best b)
unfolding is_best_combination
is_best-highest v b best p found =
    let judged = check_combination-holds v b p in
    elim (Bool-cases (holds v b)) [
      | inl here ↦ rw (judged, here, found, remove_suit-bare best, remove_suit-bare b) refl
      | inr away ↦ rw (judged, away) refl
    ]

nothing-beaten :
    (r : ℕ) → less_combination (encode Bet.nothing) (encode (Bet.high_card r)) ≡ ok true
unfolding less_combination clever_asserts comparison_key lexicographic
nothing-beaten r = refl

-- Where there is a card there is a combination.
IsBest-bid : (c : ℕ) (v : List ℕ) (b : Bet) → c < 52 → IsBest (c ∷ v) b → 1 ≤ kind_of b
IsBest-bid c v Bet.nothing l h =
    let kept = h.2 (Bet.high_card (card_rank c)) (omega arith) (ground arith) in
    let beaten = nothing-beaten (card_rank c) in absurd (ground arith)
IsBest-bid c v _ l h = omega arith

module _ (env : Env) where
  open env use {Db}

  -- What the players are told: the player who does not move sees the command, both see the verdict.
  abbrev pub tied_lines : Game Db → Seat → List ℕ → List (Seat × List ℕ)
  tied_lines g s text =
      let verdict = server_line (name g s ++ codes ", это лучшая комбинация.") in
      (waiting g.current_move, player_line g s text)
      ∷ (first_player, verdict)
      ∷ (second_player, verdict)
      ∷ []

  -- And both see the best combination.
  abbrev pub failed_lines : Game Db → Seat → List ℕ → Bool → List ℕ → List (Seat × List ℕ)
  failed_lines g s text present best =
      let verdict = server_line (
        name g s
        ++ (if present
            then codes ", это не лучшая комбинация."
            else codes ", этой комбинации здесь нет.")) in
      (waiting g.current_move, player_line g s text)
      ∷ (first_player, verdict)
      ∷ (second_player, verdict)
      ∷ (first_player, server_line (codes "Best combination: " ++ best))
      ∷ (second_player, server_line (codes "Best combination: " ++ best))
      ∷ []

  block_failed-loses :
      (g : Game Db) (s : Seat) (text : List ℕ) (now : ℕ) (v : List ℕ) (b best : Bet)
      (shown : List ℕ)
      → g.union_of_cards ≡ described v
      → g.current_combination ≡ encode b
      → IsProper b
      → find_best_combination (described v) ≡ ok (encode best)
      → format_m_command (encode best) ≡ ok shown
      → block_failed env (hear g (waiting g.current_move) (player_line g s text)) s now
        ≡ player_loses_round env
            (heard g (failed_lines g s text (holds v b) shown))
            g.current_move
            now
  unfolding block_failed
  block_failed-loses g s text now v b best shown cards comb proper found e =
      let w = waiting g.current_move in
      let line = player_line g s text in
      let g₁ = hear g w line in
      let same : SameTable g g₁ = hear-SameTable g w line in
      let verdict =
        if holds v b
        then codes ", это не лучшая комбинация."
        else codes ", этой комбинации здесь нет." in
      let lines =
        (w, line)
        ∷ (first_player, server_line (name g s ++ verdict))
        ∷ (second_player, server_line (name g s ++ verdict))
        ∷ [] in
      let g₂ = heard g lines in
      let same₂ : SameTable g g₂ = heard-SameTable g lines in
      let comb₁ : g₁.current_combination ≡ encode b = SameTable-bet g g₁ same ∙ comb in
      let cards₁ : g₁.union_of_cards ≡ described v = SameTable-cards g g₁ same ∙ cards in
      let cards₂ : g₂.union_of_cards ≡ described v = SameTable-cards g g₂ same₂ ∙ cards in
      let judged : check_combination g₁.union_of_cards g₁.current_combination ≡ ok (holds v b) =
        ap (λ x. check_combination x g₁.current_combination) cards₁
        ∙ ap (check_combination (described v)) comb₁
        ∙ check_combination-holds v b proper in
      let found₂ : find_best_combination g₂.union_of_cards ≡ ok (encode best) =
        ap find_best_combination cards₂ ∙ found in
      let told = both-heard g₂ (codes "Best combination: " ++ shown) in
      let all = failed_lines g s text (holds v b) shown in
      rw (judged, judged-heard g w s line verdict, found₂, e, told)
        (ap (λ m. player_loses_round env (heard g all) m now) (heard-move g all))

  -- When `union_of_cards` has the tables of some cards, the first of them of the pack, and the current
  -- combination is that of a bet b that exists in the game and is not nothing, "/b" ends the round. With
  -- the best bet of the cards, which is written as `format_m_command` does: in a tie where the cards
  -- contain b and b is that bet but for a suit, and else as lost by the player who moves. Before that the
  -- player who does not move is shown the command, and both are told which it is, and in the second case
  -- what the best bet is; nothing else changes.
  pub block-judges :
      (g : Game Db) (s : Seat) (text : List ℕ) (now : ℕ) (c : ℕ) (v : List ℕ) (b : Bet)
      → g.union_of_cards ≡ described (c ∷ v)
      → g.current_combination ≡ encode b
      → c < 52
      → IsProper b
      → 1 ≤ kind_of b
      → (best : Bet) × (shown : List ℕ) × IsBest (c ∷ v) best
        × (format_m_command (encode best) ≡ ok shown)
        × (block env g s text now ≡ (
            if is_highest (c ∷ v) best b
            then tie_in_round env (heard g (tied_lines g s text)) now
            else player_loses_round env
                (heard g (failed_lines g s text (holds (c ∷ v) b) shown))
                g.current_move
                now))
  unfolding block
  block-judges g s text now c v b cards comb l proper bid =
      let w = waiting g.current_move in
      let line = player_line g s text in
      let g₁ = hear g w line in
      let same : SameTable g g₁ = hear-SameTable g w line in
      let comb₁ : g₁.current_combination ≡ encode b = SameTable-bet g g₁ same ∙ comb in
      let cards₁ : g₁.union_of_cards ≡ described (c ∷ v) = SameTable-cards g g₁ same ∙ cards in
      let no_bid : is_combination_nothing g₁.current_combination ≡ ok false =
        ap is_combination_nothing comb₁ ∙ is_combination_nothing-encode b bid in
      let (best, found, highest) = find_best_combination-IsBest (c ∷ v) in
      let (shown, e) = format-Formats best highest.0 (IsBest-bid c v best l highest) in
      let judged : is_best_combination g₁.union_of_cards g₁.current_combination
          ≡ ok (is_highest (c ∷ v) best b) =
        ap (λ x. is_best_combination x g₁.current_combination) cards₁
        ∙ ap (is_best_combination (described (c ∷ v))) comb₁
        ∙ is_best-highest (c ∷ v) b best proper found in
      (
        best,
        shown,
        highest,
        e,
        elim (Bool-cases (is_highest (c ∷ v) best b)) [
          | inl it ↦
              rw
                (
                  shown-hear g s text,
                  no_bid,
                  judged,
                  it,
                  judged-heard g w s line (codes ", это лучшая комбинация."),
                )
                refl
          | inr other ↦
              rw (shown-hear g s text, no_bid, judged, other)
                (block_failed-loses g s text now (c ∷ v) b best shown cards comb proper found e)
        ],
      )
