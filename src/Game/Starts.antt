-- ===== src/Game/Starts.antt =====
-- `start_round` of CardBluffServer/game.cpp always deals a new round.
use card_bluff.Prelude.{ℕ, ◌+◌, ◌≤◌, ◌≡◌, refl, sym, [], ok, arith, false, subst}
use card_bluff.Env.{Env}
use card_bluff.Combinations.Bets.{Bet, encode}
use card_bluff.Game.State.{Game, first_player, second_player, alternate_first_move}
use card_bluff.Game.Say.{tell}
use card_bluff.Game.Round.{start_round, send_card_messages_to_owners, send_next_move_prompts}
use card_bluff.Game.Dealt.{IsTable, SameRules, generate_cards-IsTable}
use card_bluff.Game.Printed.{IsDealt-left, IsDealt-right, cards_to_string-returns}
use card_bluff.Game.Heard.{opposite, negate_current_move-opposite}
use card_bluff.Game.Reveal.{SameTable, SameTable-trans, tell-SameTable}
use card_bluff.Game.Bidding.{send_next_move_prompts-SameTable}

module _ {Db : Type 0} where
  pub to_owners-returns :
      (g : Game Db)
      → IsTable g
      → g.card_number1 + g.card_number2 ≤ 52
      → (h : Game Db) × (send_card_messages_to_owners g ≡ ok h) × SameTable g h
  unfolding send_card_messages_to_owners
  to_owners-returns g table few =
      let (t, e) =
        cards_to_string-returns g.cards1 (IsDealt-left g.cards1 g.cards2 table.0)
          (omega (arith, table.1)) in
      let (u, f) =
        cards_to_string-returns g.cards2 (IsDealt-right g.cards1 g.cards2 table.0)
          (omega (arith, table.2)) in
      let same = tell-SameTable g first_player t in
      let same₂ = tell-SameTable (tell g first_player t) second_player u in
      (
        tell (tell g first_player t) second_player u,
        rw (e, f) refl,
        SameTable-trans g _ _ same same₂,
      )

  pub SameTable-IsTable : (g h : Game Db) → SameTable g h → IsTable g → IsTable h
  SameTable-IsTable g h (a, b, e) table = subst IsTable (sym e) table

  pub SameTable-SameRules : (g h k : Game Db) → SameTable h k → SameRules g h → SameRules g k
  SameTable-SameRules g h k (a, b, e) rules = subst (SameRules g) (sym e) rules

  -- The game when `start_round` deals: nothing is bid, and the first move has changed sides.
  abbrev pub fresh : Game Db → Game Db
  fresh g = record g {
    current_combination = encode Bet.nothing;
    last_move = [];
    wants_tie1 = false;
    wants_tie2 = false;
    first_move = opposite g.first_move;
    current_move = opposite g.first_move;
  }

module _ (env : Env) where
  open env use {Db, gnr}

  -- Whatever the random numbers are, when the two numbers of cards are at most 52 together,
  -- `start_round` returns, the players have different cards of the pack, as many as their numbers say,
  -- with the tables of all of them in `union_of_cards`, no bet stands, nobody wants a tie, and the
  -- player moves first who did not in the round before.
  pub start_round-deals :
      (g : Game Db) (now : ℕ)
      → g.card_number1 + g.card_number2 ≤ 52
      → (h : Game Db) × (start_round env g now ≡ ok h) × IsTable h × SameRules (fresh g) h
  unfolding start_round alternate_first_move
  start_round-deals g now few =
      let (h, e, table, rules) = generate_cards-IsTable gnr (fresh g) few in
      let timed : Game Db = record h { move_start_time = now } in
      let (k, f, same) = to_owners-returns timed table (omega (arith, rules.0, rules.1)) in
      let all = SameTable-trans timed k _ same (send_next_move_prompts-SameTable k) in
      (
        send_next_move_prompts k,
        rw (negate_current_move-opposite, e, f) refl,
        SameTable-IsTable timed _ all table,
        SameTable-SameRules (fresh g) timed _ all rules,
      )
