-- ===== src/Game/Reveal.antt =====
-- Who loses the round after "/r", and what a bet does to the round, in `Game::make_move` of
-- CardBluffServer/game.cpp.
use card_bluff.Prelude.{
  ℕ, ◌≤◌, ◌≡◌, refl, ◌∙◌, ap, inl, inr, Bool, true, false, List, [], ◌∷◌, ◌++◌, Option, none, some,
  if◌then◌else◌, ok, arith, Bool-cases, codes,
}
use card_bluff.Client.{Client}
use card_bluff.Env.{Env}
use card_bluff.Combinations.Spec.{described}
use card_bluff.Combinations.Check.{clever_asserts, check_combination}
use card_bluff.Combinations.Best.{is_combination_nothing}
use card_bluff.Combinations.Bets.{Bet, encode, kind_of, IsProper, holds}
use card_bluff.Combinations.Bets.Checked.{check_combination-holds}
use card_bluff.Game.State.{
  Game, Seat, first_player, second_player, CurrentMove, get_currently_not_moving_player,
}
use card_bluff.Game.Say.{
  tell, push_client_string_to_client, push_client_string_to_both, addend, name,
}
use card_bluff.Game.Round.{player_loses_round}
use card_bluff.Game.Heard.{
  opposite, waiting, server_line, player_line, hear, heard, heard-move, player-hear, both-heard,
  name-hear, negate_current_move-opposite, not_moving-waiting,
}
use card_bluff.Game.Move.{reveal}

module _ {Db : Type 0} where
  -- The two games differ in what the clients are and what they are sent, and in nothing else.
  abbrev pub SameTable : Game Db → Game Db → Type 0
  SameTable g h = (a : Client) × (b : Client) × (h ≡ record g { player1 = a; player2 = b })

  reseat : Client → Client → Game Db → Game Db
  reseat a b g = record g { player1 = a; player2 = b }

  pub SameTable-trans : (g h k : Game Db) → SameTable g h → SameTable h k → SameTable g k
  unfolding reseat
  SameTable-trans g h k (a, b, e) (c, d, f) = (c, d, f ∙ ap (reseat c d) e)

  pub tell-SameTable : (g : Game Db) (s : Seat) (text : List ℕ) → SameTable g (tell g s text)
  unfolding tell
  tell-SameTable g first_player text = (_, _, refl)
  tell-SameTable g second_player text = (_, _, refl)

  pub to_both-SameTable :
      (g : Game Db) (text : List ℕ) (from : Option Seat)
      → SameTable g (push_client_string_to_both g text from)
  unfolding push_client_string_to_both
  to_both-SameTable g text from =
      let line = addend g from ++ codes " " ++ text in
      SameTable-trans g _ _ (tell-SameTable g first_player line)
        (tell-SameTable (tell g first_player line) second_player line)

  pub to_client-SameTable :
      (g : Game Db) (text : List ℕ) (s : Seat) (from : Option Seat)
      → SameTable g (push_client_string_to_client g text s from)
  unfolding push_client_string_to_client
  to_client-SameTable g text s from = tell-SameTable g s (addend g from ++ codes " " ++ text)

  pub SameTable-cards : (g h : Game Db) → SameTable g h → h.union_of_cards ≡ g.union_of_cards
  SameTable-cards g h (a, b, e) = ap (λ x. x.union_of_cards) e

  pub SameTable-bet :
      (g h : Game Db) → SameTable g h → h.current_combination ≡ g.current_combination
  SameTable-bet g h (a, b, e) = ap (λ x. x.current_combination) e

  pub SameTable-move : (g h : Game Db) → SameTable g h → h.current_move ≡ g.current_move
  SameTable-move g h (a, b, e) = ap (λ x. x.current_move) e

  pub hear-SameTable : (g : Game Db) (s : Seat) (text : List ℕ) → SameTable g (hear g s text)
  hear-SameTable g first_player text = (_, _, refl)
  hear-SameTable g second_player text = (_, _, refl)

  pub heard-SameTable : (g : Game Db) (lines : List (Seat × List ℕ)) → SameTable g (heard g lines)
  heard-SameTable g [] = (g.player1, g.player2, refl)
  heard-SameTable g ((s, text) ∷ lines) =
      SameTable-trans g (hear g s text) (heard g ((s, text) ∷ lines)) (hear-SameTable g s text)
        (heard-SameTable (hear g s text) lines)

  -- The command is shown first, and nothing but a queue changes.
  pub shown-hear :
      (g : Game Db) (s : Seat) (text : List ℕ)
      → push_client_string_to_client g text (get_currently_not_moving_player g) (some s)
        ≡ hear g (waiting g.current_move) (player_line g s text)
  shown-hear g s text = rw (not_moving-waiting g) (player-hear g (waiting g.current_move) s text)

  pub judged-heard :
      (g : Game Db) (w s : Seat) (line verdict : List ℕ)
      → push_client_string_to_both (hear g w line) (name (hear g w line) s ++ verdict) none
        ≡ heard g (
            (w, line)
            ∷ (first_player, server_line (name g s ++ verdict))
            ∷ (second_player, server_line (name g s ++ verdict))
            ∷ [])
  judged-heard g w s line verdict =
      both-heard (hear g w line) (name (hear g w line) s ++ verdict)
      ∙ ap
          (λ n. heard g (
            (w, line)
            ∷ (first_player, server_line (n ++ verdict))
            ∷ (second_player, server_line (n ++ verdict))
            ∷ []))
          (name-hear g w s line)

pub is_combination_nothing-encode :
    (b : Bet) → 1 ≤ kind_of b → is_combination_nothing (encode b) ≡ ok false
unfolding is_combination_nothing clever_asserts
is_combination_nothing-encode Bet.nothing h = absurd (omega arith)
is_combination_nothing-encode _ h = refl

module _ (env : Env) where
  open env use {Db}

  -- The player who reveals loses the round where the bet is there, and else the other one.
  abbrev pub revealed : CurrentMove → Bool → CurrentMove
  revealed m present = if present then m else opposite m

  -- What the players are told: the player who does not move sees the command, both see the verdict.
  abbrev pub reveal_lines : Game Db → Seat → List ℕ → Bool → List (Seat × List ℕ)
  reveal_lines g s text present =
      let verdict = server_line (
        name g s
        ++ (if present
            then codes ", здесь есть эта комбинация."
            else codes ", здесь нет этой комбинации.")) in
      (waiting g.current_move, player_line g s text)
      ∷ (first_player, verdict)
      ∷ (second_player, verdict)
      ∷ []

  -- When `union_of_cards` has the tables of the cards v, and the current combination is that of a bet b
  -- that exists in the game and is not nothing, "/r" does what `player_loses_round` does after the
  -- player who does not move was shown the command, with the name of its sender, and both players were
  -- told whether v contains b: the loser is the player who moves if v contains b, and the other player
  -- otherwise. Nothing else changes before.
  pub reveal-judges :
      (g : Game Db) (s : Seat) (text : List ℕ) (now : ℕ) (v : List ℕ) (b : Bet)
      → g.union_of_cards ≡ described v
      → g.current_combination ≡ encode b
      → IsProper b
      → 1 ≤ kind_of b
      → reveal env g s text now
        ≡ player_loses_round env
            (heard g (reveal_lines g s text (holds v b)))
            (revealed g.current_move (holds v b))
            now
  unfolding reveal
  reveal-judges g s text now v b cards comb proper bid =
      let w = waiting g.current_move in
      let line = player_line g s text in
      let g₁ = hear g w line in
      let same : SameTable g g₁ = hear-SameTable g w line in
      let comb₁ : g₁.current_combination ≡ encode b = SameTable-bet g g₁ same ∙ comb in
      let cards₁ : g₁.union_of_cards ≡ described v = SameTable-cards g g₁ same ∙ cards in
      let judged : check_combination g₁.union_of_cards g₁.current_combination ≡ ok (holds v b) =
        ap (λ x. check_combination x g₁.current_combination) cards₁
        ∙ ap (check_combination (described v)) comb₁
        ∙ check_combination-holds v b proper in
      let no_bid : is_combination_nothing g₁.current_combination ≡ ok false =
        ap is_combination_nothing comb₁ ∙ is_combination_nothing-encode b bid in
      elim (Bool-cases (holds v b)) [
        | inl here ↦
            let lines = reveal_lines g s text true in
            rw
              (
                shown-hear g s text,
                no_bid,
                judged,
                here,
                judged-heard g w s line (codes ", здесь есть эта комбинация."),
              )
              (ap (λ m. player_loses_round env (heard g lines) m now) (heard-move g lines))
        | inr away ↦
            let lines = reveal_lines g s text false in
            rw
              (
                shown-hear g s text,
                no_bid,
                judged,
                away,
                judged-heard g w s line (codes ", здесь нет этой комбинации."),
              )
              (ap (λ m. player_loses_round env (heard g lines) m now)
                (negate_current_move-opposite (heard g lines).current_move
                  ∙ ap opposite (heard-move g lines)))
      ]
