-- ===== src/Game/Bidding.antt =====
-- What "/m" does to a round: `bet`, the branch of `Game::make_move` in CardBluffServer/game.cpp.
use card_bluff.Prelude.{
  ℕ, ◌≡◌, refl, ◌∙◌, ap, ◌⊎◌, inl, inr, Bool, true, false, List, [], ◌∷◌, ◌++◌, none, Run, ok,
  Bool-cases, drop, codes, take,
}
use card_bluff.Text.{escape_special_chars, ll_to_string}
use card_bluff.Prelude.Int.{pos}
use card_bluff.Combinations.Bets.{Bet, encode, kind_of}
use card_bluff.Combinations.Bets.Ranking.{clever_asserts-encode, comparison_key-encode}
use card_bluff.Combinations.Order.{less_combination, lexicographic}
use card_bluff.Combinations.Command.Parse.{
  transcript_text, Parsed, Transcript, parse_m_command, parsed, refused,
}
use card_bluff.Combinations.Command.Proper.{IsAccepted, parse_m_command-IsAccepted}
use card_bluff.Game.State.{
  Game, Seat, seat_of, alternate_current_move, get_currently_moving_player,
  get_currently_not_moving_player,
}
use card_bluff.Game.Say.{push_client_string_to_client, name}
use card_bluff.Game.Heard.{
  opposite, waiting, server_line, player_line, hear, heard, server-hear, name-hear,
  negate_current_move-opposite, not_moving-waiting,
}
use card_bluff.Game.Round.{send_next_move_prompts}
use card_bluff.Game.Move.{bet, accept_bet}
use card_bluff.Game.Reveal.{
  SameTable, SameTable-trans, SameTable-bet, hear-SameTable, to_client-SameTable, shown-hear,
}

pub less_combination-returns :
    (b c : Bet) → (r : Bool) × (less_combination (encode b) (encode c) ≡ ok r)
unfolding less_combination
less_combination-returns b c =
    let (u, e) = comparison_key-encode b in
    let (v, f) = comparison_key-encode c in
    (
      lexicographic (pos (kind_of b) ∷ u) (pos (kind_of c) ∷ v),
      rw (clever_asserts-encode b, clever_asserts-encode c, e, f) refl,
    )

Parsed-cases {ℓ} :
    {A : Type ℓ} (p : Parsed A) → ((a : A) × (p ≡ parsed a)) ⊎ ((t : Transcript) × (p ≡ refused t))
Parsed-cases (parsed a) = inl (a, refl)
Parsed-cases (refused t) = inr (t, refl)

-- The bet that is read, as it is shown.
abbrev pub formatted : List ℕ → List ℕ
formatted cws = take 2 cws ++ codes " " ++ drop 2 cws

module _ {Db : Type 0} where
  pub send_next_move_prompts-SameTable : (g : Game Db) → SameTable g (send_next_move_prompts g)
  unfolding send_next_move_prompts
  send_next_move_prompts-SameTable g =
      SameTable-trans g _ _ (to_client-SameTable g _ _ none) (to_client-SameTable _ _ _ none)

  -- What both players hear when a move begins.
  abbrev pub prompts : Game Db → List (Seat × List ℕ)
  prompts g =
      (
        seat_of g.current_move,
        server_line (
            name g (seat_of g.current_move)
            ++ codes ", you have "
            ++ codes "60"
            ++ codes " seconds o move."),
      )
      ∷ (waiting g.current_move, server_line (codes "Waiting for your opponent to move..."))
      ∷ []

  send_next_move_prompts-heard : (g : Game Db) → send_next_move_prompts g ≡ heard g (prompts g)
  unfolding send_next_move_prompts get_currently_moving_player ll_to_string
  send_next_move_prompts-heard g =
      let m = seat_of g.current_move in
      let line = name g m ++ codes ", you have " ++ codes "60" ++ codes " seconds o move." in
      let wait = codes "Waiting for your opponent to move..." in
      let g₁ = hear g m (server_line line) in
      ap (λ x. push_client_string_to_client x wait (get_currently_not_moving_player g) none)
        (server-hear g m line)
      ∙ server-hear g₁ (get_currently_not_moving_player g) wait
      ∙ ap (λ s. hear g₁ s (server_line wait)) (not_moving-waiting g)

  -- The text is refused, and the sender hears why.
  abbrev pub Refused : Game Db → Seat → List ℕ → Transcript → Game Db → Type 0
  Refused g s cws transcript h =
      (parse_m_command (drop 2 cws) ≡ refused transcript)
      × (h
          ≡ hear g s (
              server_line (
                name g s
                ++ codes ", "
                ++ escape_special_chars (transcript_text transcript)
                ++ codes ".")))

  -- The bet c is not above the one that stands: it is shown, and the sender hears so.
  abbrev pub Kept : Game Db → Seat → List ℕ → Bet → Game Db → Type 0
  Kept g s cws c h =
      (parse_m_command (drop 2 cws) ≡ parsed (encode c))
      × (less_combination g.current_combination (encode c) ≡ ok false)
      × (h
          ≡ heard g (
              (waiting g.current_move, player_line g s (formatted cws))
              ∷ (s, server_line (name g s ++ codes ", текущая комбинация не хуже введённой вами."))
              ∷ []))

  -- The game with the bet c, and the other player's move.
  abbrev pub raised : Game Db → List ℕ → ℕ → Bet → Game Db
  raised g cws t c = record g {
    move_start_time = t;
    last_move = formatted cws;
    wants_tie1 = false;
    wants_tie2 = false;
    current_combination = encode c;
    current_move = opposite g.current_move;
  }

  -- The bet c is one that a player can make and is above the one that stands: it is shown, it stands
  -- now, and the players are told who moves.
  abbrev pub Raised : Game Db → Seat → List ℕ → ℕ → Bet → Game Db → Type 0
  Raised g s cws t c h =
      let g₁ = raised (hear g (waiting g.current_move) (player_line g s (formatted cws))) cws t c in
      IsAccepted c
      × (parse_m_command (drop 2 cws) ≡ parsed (encode c))
      × (less_combination g.current_combination (encode c) ≡ ok true)
      × (h ≡ heard g₁ (prompts g₁))

  accept_bet-raised :
      (g : Game Db) (cws : List ℕ) (t : ℕ) (c : Bet)
      → accept_bet g (encode c) (formatted cws) t
        ≡ heard (raised g cws t c) (prompts (raised g cws t c))
  unfolding accept_bet alternate_current_move
  accept_bet-raised g cws t c =
      rw (negate_current_move-opposite) (send_next_move_prompts-heard (raised g cws t c))

  abbrev pub Answered : Game Db → Seat → List ℕ → ℕ → Run (Game Db) → Type 0
  Answered g s cws t m =
      (h : Game Db) × (m ≡ ok h)
      × (((transcript : Transcript) × Refused g s cws transcript h)
          ⊎ ((c : Bet) × Kept g s cws c h)
          ⊎ ((c : Bet) × Raised g s cws t c h))

  -- When the current combination is that of a bet b of the game, "/m" always returns. If
  -- `parse_m_command` refuses the text, the sender is told why. A bet that it reads is shown to the player
  -- who does not move. If `less_combination` does not put it above b, the sender is told so. Otherwise it
  -- is one that a player can make, it is the current combination now, the wishes for a tie are gone, it
  -- is the other player's move, with the time of the command as its start, and both are told whose move
  -- it is. Nothing else changes.
  pub bet-raises :
      (g : Game Db) (s : Seat) (cws : List ℕ) (t : ℕ) (b : Bet)
      → g.current_combination ≡ encode b
      → Answered g s cws t (bet g s cws t)
  unfolding bet
  bet-raises g s cws t b comb = elim (Parsed-cases (parse_m_command (drop 2 cws))) [
    | inr (transcript, e) ↦ (
      push_client_string_to_client g
          (name g s ++ codes ", " ++ escape_special_chars (transcript_text transcript) ++ codes ".")
          s none,
      rw (e, bet) refl,
      inl (transcript, (e, server-hear g s _)),
    )
    | inl (combination, e) ↦
        let (c, same, accepted) = parse_m_command-IsAccepted (drop 2 cws) e in
        let w = waiting g.current_move in
        let line = player_line g s (formatted cws) in
        let g₁ = hear g w line in
        let comb₁ : g₁.current_combination ≡ encode b =
          SameTable-bet g g₁ (hear-SameTable g w line) ∙ comb in
        let (r, less) = less_combination-returns b c in
        let judged : less_combination g₁.current_combination combination ≡ ok r =
          ap (λ x. less_combination x combination) comb₁
          ∙ ap (less_combination (encode b)) same
          ∙ less in
        let read : parse_m_command (drop 2 cws) ≡ parsed (encode c) = e ∙ ap parsed same in
        let above = ap (λ x. less_combination x (encode c)) comb ∙ less in
        elim (Bool-cases r) [
          | inl up ↦ (
            accept_bet g₁ combination (formatted cws) t,
            rw (e, bet, shown-hear g s (formatted cws), judged, up) refl,
            inr (
                inr (
                  c,
                  (
                    accepted,
                    read,
                    above ∙ ap ok up,
                    ap (λ x. accept_bet g₁ x (formatted cws) t) same ∙ accept_bet-raised g₁ cws t c,
                  ),
                )),
          )
          | inr down ↦ (
            hear g₁ s
                (server_line (name g s ++ codes ", текущая комбинация не хуже введённой вами.")),
            rw
                (
                  e,
                  bet,
                  shown-hear g s (formatted cws),
                  judged,
                  down,
                  name-hear g w s line,
                  server-hear,
                )
                refl,
            inr (inl (c, (read, above ∙ ap ok down, refl))),
          )
        ]
  ]
