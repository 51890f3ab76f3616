-- ===== src/Game/Next.antt =====
-- `player_loses_round` of CardBluffServer/game.cpp goes on with another round, or finishes the game.
use card_bluff.Prelude.{
  ℕ, ◌+◌, ◌≤◌, ◌<◌, ◌≡◌, refl, sym, ap, inl, inr, List, ◌++◌, ok, arith, Run, false, none, subst,
  codes, fault, ◌>>=◌,
}
use card_bluff.Env.{Env}
use card_bluff.Game.State.{
  finished_game, Game, Seat, CurrentMove, RoundResult, first_player, second_player,
  first_player_move, second_player_move,
}
use card_bluff.Game.Say.{
  tell, tell_all, push_client_string_to_client, push_client_strings_to_both, push_strings_to_both,
  name,
}
use card_bluff.Game.Deal.{cards_to_string}
use card_bluff.Game.Round.{
  start_round, send_card_messages_to_one_player, send_card_messages_to_both_players,
  send_card_numbers_to_both_players, report_round_results, player_loses_round, add_card_to,
  game_result, result_of,
}
use card_bluff.Game.Dealt.{IsTable, SameRules}
use card_bluff.Game.Printed.{IsDealt-left, IsDealt-right, cards_to_string-returns}
use card_bluff.Game.Reveal.{SameTable, SameTable-trans, tell-SameTable, to_client-SameTable}
use card_bluff.Game.Score.{Playable, lost_round, cards_of_loser, extra_card-decides}
use card_bluff.Game.Starts.{fresh, start_round-deals}

module _ {Db : Type 0} where
  -- The cards can be printed.
  abbrev pub Printable : Game Db → Type 0
  Printable g =
      (t : List ℕ) × (u : List ℕ) × (cards_to_string g.cards1 ≡ ok t)
      × (cards_to_string g.cards2 ≡ ok u)

  SameTable-Printable : (g h : Game Db) → SameTable g h → Printable g → Printable h
  SameTable-Printable g h (a, b, e) p = subst Printable (sym e) p

  IsTable-Printable : (g : Game Db) → IsTable g → g.card_number1 + g.card_number2 ≤ 52 → Printable g
  IsTable-Printable g table few =
      let (t, e) =
        cards_to_string-returns g.cards1 (IsDealt-left g.cards1 g.cards2 table.0)
          (omega (arith, table.1)) in
      let (u, f) =
        cards_to_string-returns g.cards2 (IsDealt-right g.cards1 g.cards2 table.0)
          (omega (arith, table.2)) in
      (t, u, e, f)

  abbrev Sent : Game Db → Run (Game Db) → Type 0
  Sent g m = (h : Game Db) × (m ≡ ok h) × SameTable g h

  one_player-Sent :
      (g : Game Db) (s : Seat) → Printable g → Sent g (send_card_messages_to_one_player g s)
  unfolding send_card_messages_to_one_player
  one_player-Sent g s (t, u, e, f) =
      let g₁ = push_client_string_to_client g (codes "Cards:") s none in
      let g₂ = tell g₁ s (t ++ name g first_player ++ codes ": ") in
      let g₃ = tell g₂ s (u ++ name g second_player ++ codes ": ") in
      let same₁ : SameTable g g₁ = to_client-SameTable g _ s none in
      let same₂ : SameTable g g₂ = SameTable-trans g g₁ g₂ same₁ (tell-SameTable g₁ s _) in
      (g₃, rw (e, f) refl, SameTable-trans g g₂ g₃ same₂ (tell-SameTable g₂ s _))

  tell_all-SameTable :
      (g : Game Db) (s : Seat) (texts : List (List ℕ)) → SameTable g (tell_all g s texts)
  unfolding tell_all
  tell_all-SameTable g first_player texts = (_, _, refl)
  tell_all-SameTable g second_player texts = (_, _, refl)

  to_both-SameTable :
      (g : Game Db) (texts : List (List ℕ)) → SameTable g (push_strings_to_both g texts)
  unfolding push_strings_to_both
  to_both-SameTable g texts =
      SameTable-trans g _ _ (tell_all-SameTable g first_player texts)
        (tell_all-SameTable (tell_all g first_player texts) second_player texts)

  numbers-SameTable :
      (g : Game Db) (res : RoundResult) → SameTable g (send_card_numbers_to_both_players g res)
  unfolding send_card_numbers_to_both_players push_client_strings_to_both
  numbers-SameTable g res = to_both-SameTable g _

  report-Sent :
      (g : Game Db) (res : RoundResult) → Printable g → Sent g (report_round_results g res)
  unfolding report_round_results send_card_messages_to_both_players
  report-Sent g res p =
      let (h, e, same) = one_player-Sent g first_player p in
      let (k, f, same₂) = one_player-Sent h second_player (SameTable-Printable g h same p) in
      let all = SameTable-trans g h k same same₂ in
      (
        send_card_numbers_to_both_players k res,
        rw (e, f) refl,
        SameTable-trans g k _ all (numbers-SameTable k res),
      )

  -- The extra card changes no card yet.
  add_card_to-Printable :
      (g : Game Db) (cur : CurrentMove) → Printable g → Printable (add_card_to g cur)
  unfolding add_card_to
  add_card_to-Printable g first_player_move p = p
  add_card_to-Printable g second_player_move p = p

bind-returns :
    {A : Type 0} {B : Type 0} (m : Run A) (rest : A → Run B) {y : B}
    → (m >>= rest) ≡ ok y
    → (x : A) × (m ≡ ok x) × (rest x ≡ ok y)
bind-returns fault rest e = cc
bind-returns (ok x) rest e = (x, refl, e)

lost_round-finished : (cur : CurrentMove) → finished_game (lost_round cur) ≡ false
lost_round-finished first_player_move = refl
lost_round-finished second_player_move = refl

module _ (env : Env) where
  open env use {Db}

  abbrev pub Restarted : Game Db → Run (Game Db) → Type 0
  Restarted g m = (h : Game Db) × (m ≡ ok h) × IsTable h × SameRules (fresh g) h

  -- A round that is lost with numbers of cards that allow another one.
  go_on :
      (g : Game Db) (cur : CurrentMove) (now : ℕ)
      → Printable g
      → Playable g.card_number1 g.card_number2
      → Restarted g (report_round_results g (lost_round cur) >>= λ h. start_round env h now)
  go_on g cur now p play =
      let (h, e, (a, b, same)) = report-Sent g (lost_round cur) p in
      let first : h.card_number1 ≡ g.card_number1 = ap (λ x. x.card_number1) same in
      let second : h.card_number2 ≡ g.card_number2 = ap (λ x. x.card_number2) same in
      let (k, f, table, rules) = start_round-deals env h now (omega (arith, first, second, play)) in
      (k, rw e f, table, subst (λ x. SameRules (fresh x) k) same rules)

  -- When the cards of a round were dealt, its numbers of cards allow it, its loser has fewer than 26
  -- cards, and the numbers with the extra card allow another round, `player_loses_round` returns: the
  -- players have new cards, different ones of the pack and as many as the numbers say, no bet stands,
  -- and the player moves first who did not in the round before.
  pub player_loses_round-deals :
      (g : Game Db) (cur : CurrentMove) (now : ℕ)
      → IsTable g
      → Playable g.card_number1 g.card_number2
      → cards_of_loser env g cur < 26
      → Playable (add_card_to g cur).card_number1 (add_card_to g cur).card_number2
      → Restarted (add_card_to g cur) (player_loses_round env g cur now)
  unfolding player_loses_round
  player_loses_round-deals g cur now table play few next =
      let h = add_card_to g cur in
      let p = add_card_to-Printable g cur (IsTable-Printable g table (omega (arith, play))) in
      elim (extra_card-decides env g cur play few) [
        | inl (decided, _) ↦
            let (code, e, f) =
              bind-returns (game_result h.card_number1 h.card_number2) (result_of cur) decided in
            rw (e, f, lost_round-finished cur) (go_on h cur now p next)
        | inr (inl (_, over)) ↦ absurd (over next)
        | inr (inr (_, a, b)) ↦ absurd (omega (arith, next))
      ]
