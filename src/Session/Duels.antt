-- ===== src/Session/Duels.antt =====
-- The steps of CardBluffServer/main.cpp that bring a client, begin a game, or end one.
use card_bluff.Prelude.{
  ℕ, suc, ◌≡◌, refl, sym, ap, ◌∙◌, subst, inl, inr, true, false, [], ◌∷◌, ◌++◌, none, some, ◌==◌,
  codes, Bool-cases, Option-cases, ==→eq,
}
use card_bluff.Client.{
  Client, ClientState, wait_nickname, wait_password_register_first, wait_password_register_second,
  wait_password, wait_enter_game, wait_opponent, in_game_state, get_nickname_with_color,
  push_string, set_state, set_in_game, set_game, set_opponent, set_finding_duel,
}
use card_bluff.Session.{Session, Clients}
use card_bluff.Session.Server.{
  Server, lookup, modify, left_game, enter_game, found, seeks, find_pair, find_opponent, new_duel,
}
use card_bluff.Session.Steps.{Inserted}
use card_bluff.Session.Sound.{IsSound, modify-AreSound, is_playing, is_seeking, is_entered}
use card_bluff.Session.Kept.{modify-Distinct, lookup-modify_other}
use card_bluff.Session.Paired.{find_pair-Seeker}
use card_bluff.Session.Linked.{AreLinked-Follows, Follows-refl}
use card_bluff.Session.Games.{both, begin-AreLinked, end-AreLinked}
use card_bluff.Session.Settling.{IsSettled}

pub playing-state : (x : ClientState) → is_playing x ≡ true → x ≡ in_game_state
playing-state in_game_state e = refl
playing-state wait_nickname e = cc
playing-state wait_password_register_first e = cc
playing-state wait_password_register_second e = cc
playing-state wait_password e = cc
playing-state wait_enter_game e = cc
playing-state wait_opponent e = cc

pub insert-IsSettled :
    (clients result : Clients) (a : ℕ) (new : Session)
    → Inserted clients a new result
    → IsSound new
    → new.client.in_game ≡ false
    → IsSettled clients
    → IsSettled result
insert-IsSettled clients result a new inserted sound idle h =
    let value : (c : ℕ) → (a == c) ≡ true → lookup result c ≡ some new =
      λ c same. inserted.2 c ∙ rw same refl in
    let rest : (c : ℕ) → (a == c) ≡ false → lookup result c ≡ lookup clients c =
      λ c differs. inserted.2 c ∙ rw differs refl in
    let before : (c : ℕ) → (a == c) ≡ true → lookup clients c ≡ none =
      λ c same. subst (λ x. lookup clients x ≡ none) (==→eq a c same) inserted.0 in
    (
      (λ c s here. elim (Bool-cases (a == c)) [
        | inl same ↦ let there = value c same in let it : new ≡ s = cc in subst IsSound it sound
        | inr differs ↦ h.0 c s (sym (rest c differs) ∙ here)
      ]),
      inserted.1,
      AreLinked-Follows clients result h.2 (λ c. elim (Bool-cases (a == c)) [
        | inl same ↦ rw (value c same, before c same) idle
        | inr differs ↦ rw (rest c differs) (Follows-refl (lookup clients c))
      ]),
    )

left-IsSound : (s : Session) → IsSound s → s.client.in_game ≡ true → IsSound (left_game s)
unfolding left_game set_state set_in_game
left-IsSound s h playing =
    let state = playing-state s.client.state (sym h.3 ∙ playing) in
    ((λ _. h.0 (ap is_entered state)), (λ _. inl refl), h.2 ∙ ap is_seeking state, refl)

pub finish-IsSettled :
    (clients : Clients) (a b : ℕ) (s : Session)
    → lookup clients a ≡ some s
    → s.client.in_game ≡ true
    → s.client.opponent ≡ some b
    → IsSettled clients
    → IsSettled (modify (modify clients a left_game) b left_game)
unfolding both left_game set_state set_in_game
finish-IsSettled clients a b s here playing opponent h =
    let (b₁, t, g, names, game, there, busy, back, its, apart) = h.2 a s here playing in
    let same : b₁ ≡ b = cc in
    let second = subst (λ x. lookup clients x ≡ some t) same there in
    let differ = subst (λ x. ¬ (a ≡ x)) same apart in
    (
      modify-AreSound _ b left_game
          (λ u e.
            let still = lookup-modify_other clients a b left_game differ in
            let it : t ≡ u = cc in
            subst (λ x. IsSound (left_game x)) it (left-IsSound t (h.0 b t second) busy))
          (modify-AreSound clients a left_game
            (λ u e.
              let it : s ≡ u = cc in
              subst (λ x. IsSound (left_game x)) it (left-IsSound s (h.0 a s here) playing))
            h.0),
      modify-Distinct _ b left_game (modify-Distinct clients a left_game h.1),
      end-AreLinked clients a b left_game left_game differ s t here second opponent back refl refl
          h.2,
    )

-- A client that plays with another one in a game.
abbrev pub placed : Client → ℕ → ℕ → Client
placed c b game = record c {
  in_game = true;
  opponent = some b;
  state = in_game_state;
  game = some game;
}

pub enter_game-idle :
    (game a b : ℕ) (c opponent : Client)
    → c.in_game ≡ false
    → enter_game game a c b opponent ≡ (placed c b game, placed opponent a game)
unfolding enter_game set_in_game set_opponent set_state set_game
enter_game-idle game a b c opponent idle = rw idle refl

pub seeks-parts :
    (s : Session) → seeks s ≡ true → (s.client.finding_duel ≡ true) × (s.client.in_game ≡ false)
seeks-parts s h = elim (Bool-cases s.client.finding_duel) [
  | inl f ↦ elim (Bool-cases s.client.in_game) [ inl g ↦ absurd (cc) | inr g ↦ (f, g) ]
  | inr f ↦ absurd (cc)
]

seeking-state : (x : ClientState) → is_seeking x ≡ true → is_entered x ≡ true
seeking-state wait_opponent e = refl
seeking-state wait_nickname e = cc
seeking-state wait_password_register_first e = cc
seeking-state wait_password_register_second e = cc
seeking-state wait_password e = cc
seeking-state wait_enter_game e = cc
seeking-state in_game_state e = cc

-- What a seeker becomes: it seeks no more, has the name of its opponent in its queue, and plays.
abbrev pub playing : ℕ → Session → ℕ → Client → Session
playing game s b opponent = record s {
  client = record s.client {
    finding_duel = false;
    send_queue =
        s.client.send_queue
        ++ (codes "SERVER: Your opponent is " ++ get_nickname_with_color opponent) ∷ [];
    in_game = true;
    opponent = some b;
    state = in_game_state;
    game = some game;
  };
}

playing-IsSound :
    (game b : ℕ) (s : Session) (opponent : Client)
    → IsSound s
    → seeks s ≡ true
    → IsSound (playing game s b opponent)
unfolding found set_finding_duel push_string
playing-IsSound game b s opponent h seeking =
    let state = seeking-state s.client.state (sym h.2 ∙ (seeks-parts s seeking).0) in
    ((λ _. h.0 state), (λ _. inl refl), refl, refl)

-- What `find_opponent` makes of the set where it finds two clients.
pub find_opponent-begins :
    {Db : Type 0} (w : Server Db) (a b : ℕ) (s t : Session)
    → find_pair none w.clients ≡ some ((a, s), (b, t))
    → s.client.in_game ≡ false
    → find_opponent w ≡ record w {
      clients =
          both w.clients a b
            (λ _. playing w.next_game s b t.client)
            (λ _. playing w.next_game t a s.client);
      calls = w.calls ++ new_duel w.next_game a b ∷ [];
      next_game = suc w.next_game;
    }
unfolding find_opponent both found set_finding_duel push_string
find_opponent-begins w a b s t e idle =
    rw
      (
        find_opponent,
        e,
        enter_game-idle w.next_game a b (found s.client t.client) (found t.client s.client) idle,
      )
      refl

pub search-IsSettled :
    {Db : Type 0} (w : Server Db) → IsSettled w.clients → IsSettled (find_opponent w).clients
unfolding find_opponent both found set_finding_duel push_string
search-IsSettled w h = elim (Option-cases (find_pair none w.clients)) [
  | inl nobody ↦ rw (find_opponent, nobody) h
  | inr (((a, s), (b, t)), e) ↦
      let pair = find_pair-Seeker w.clients a b s t h.1 e in
      let idle_s = (seeks-parts s pair.0.1).1 in
      let idle_t = (seeks-parts t pair.1.1).1 in
      let s₁ = playing w.next_game s b t.client in
      let t₁ = playing w.next_game t a s.client in
      let sound_s = playing-IsSound w.next_game b s t.client (h.0 a s pair.0.0) pair.0.1 in
      let sound_t = playing-IsSound w.next_game a t s.client (h.0 b t pair.1.0) pair.1.1 in
      rw (find_opponent-begins w a b s t e idle_s) (
        modify-AreSound _ b (λ _. t₁) (λ u _. sound_t)
            (modify-AreSound w.clients a (λ _. s₁) (λ u _. sound_s) h.0),
        modify-Distinct _ b (λ _. t₁) (modify-Distinct w.clients a (λ _. s₁) h.1),
        begin-AreLinked w.clients a b (λ _. s₁) (λ _. t₁) pair.2 s t pair.0.0 pair.1.0 w.next_game
            idle_s idle_t refl refl refl refl refl refl h.2,
      )
]
