-- ===== src/Session/Races.antt =====
-- What becomes of "/findduel" in CardBluffServer/main.cpp when the search for opponents runs between two of
-- its calls.
use card_bluff.Prelude.{ℕ, ◌≡◌, refl, sym, ap, ◌∙◌, inl, inr, true, false, some, codes, eq-cases}
use card_bluff.Client.{wait_enter_game, wait_opponent, set_finding_duel, set_state, push_string}
use card_bluff.Session.{Session}
use card_bluff.Session.Lobby.{find_duel}
use card_bluff.Session.Server.{Server, lookup, modify, find_opponent}
use card_bluff.Session.Steps.{Distinct}
use card_bluff.Session.Kept.{changed, modify-Distinct, lookup-modify_same, lookup-modify_other}
use card_bluff.Session.Paired.{Seeker}
use card_bluff.Session.Pairing.{find_opponent-ArePaired}

-- The first call in the branch of WAIT_ENTER_GAME, and the two after it.
unfoldable pub begin_find_duel : Session → Session
unfolding set_finding_duel
begin_find_duel s = record s { client = set_finding_duel s.client true }

unfoldable pub end_find_duel : Session → Session
unfolding push_string set_state
end_find_duel s = record s {
  client =
      set_state (push_string s.client (codes "SERVER: Finding an opponent for you..."))
        wait_opponent;
}

-- Without an interruption they are the branch.
find_duel-uninterrupted :
    (s : Session)
    → s.client.state ≡ wait_enter_game
    → find_duel s ≡ end_find_duel (begin_find_duel s)
unfolding find_duel begin_find_duel end_find_duel
find_duel-uninterrupted s e = rw (find_duel, e) refl

-- The search runs after the first call of the thread of one client.
unfoldable pub interrupted : {Db : Type 0} → Server Db → ℕ → Server Db
unfolding modify find_opponent begin_find_duel end_find_duel
interrupted w a =
    let found = find_opponent (record w { clients = modify w.clients a begin_find_duel }) in
    record found { clients = modify found.clients a end_find_duel }

-- The client plays, and its state is that of a client that waits for an opponent.
abbrev pub IsTorn : {Db : Type 0} → Server Db → ℕ → ℕ → Type 0
IsTorn w a b =
    (u : Session) × (lookup w.clients a ≡ some u)
    × (u.client.in_game ≡ true)
    × (u.client.opponent ≡ some b)
    × (u.client.state ≡ wait_opponent)

module _ {Db : Type 0} (w : Server Db) (a b : ℕ) (s t : Session) (distinct : Distinct w.clients)
    (here : lookup w.clients a ≡ some s) (there : Seeker w.clients b t) (apart : ¬ (a ≡ b))
    (lobby : s.client.state ≡ wait_enter_game) (idle : s.client.in_game ≡ false)
    (quiet : (c : ℕ) (u : Session) → Seeker w.clients c u → ¬ (a ≡ c) → b ≡ c) where
  begun : Server Db
  begun = record w { clients = modify w.clients a begin_find_duel }

  begun-other : (c : ℕ) (u : Session) → ¬ (a ≡ c) → Seeker begun.clients c u → Seeker w.clients c u
  unfolding begun
  begun-other c u far h = (sym (lookup-modify_other w.clients a c begin_find_duel far) ∙ h.0, h.1)

  torn :
      (v : Session)
      → lookup (find_opponent begun).clients a ≡ some v
      → v.client.in_game ≡ true
      → v.client.opponent ≡ some b
      → IsTorn (interrupted w a) a b
  unfolding begun interrupted end_find_duel push_string set_state
  torn v found playing opponent = (
    end_find_duel v,
    lookup-modify_same (find_opponent begun).clients a end_find_duel
        ∙ ap (changed end_find_duel) found,
    playing,
    opponent,
    refl,
  )

  interrupted-IsTorn : IsTorn (interrupted w a) a b
  unfolding begun begin_find_duel set_finding_duel
  interrupted-IsTorn =
      let first : Seeker begun.clients a (begin_find_duel s) = (
        lookup-modify_same w.clients a begin_find_duel ∙ ap (changed begin_find_duel) here,
        rw idle refl,
      ) in
      let second : Seeker begun.clients b t =
        (lookup-modify_other w.clients a b begin_find_duel apart ∙ there.0, there.1) in
      let (c, d, u, v, sc, sd, differ, pair) =
        find_opponent-ArePaired begun a b (begin_find_duel s) t
          (modify-Distinct w.clients a begin_find_duel distinct) first second apart in
      elim (eq-cases a c) [
        | inl e ↦
            let b_d : b ≡ d =
              quiet d v (begun-other d v (λ x. differ (sym e ∙ x)) sd) (λ x. differ (sym e ∙ x)) in
            torn _ (ap (lookup (find_opponent begun).clients) e ∙ pair.0) refl
              (ap (λ x. some x) (sym b_d))
        | inr far ↦
            let b_c : b ≡ c = quiet c u (begun-other c u far sc) far in
            elim (eq-cases a d) [
              | inl e ↦
                  torn _ (ap (lookup (find_opponent begun).clients) e ∙ pair.1) refl
                    (ap (λ x. some x) (sym b_c))
              | inr away ↦ absurd (differ (sym b_c ∙ quiet d v (begun-other d v away sd) away))
            ]
      ]

  -- When a client in the lobby that does not play sends "/findduel", exactly one other client seeks an
  -- opponent, and the search runs after the thread has set finding_duel and before it sets the state, then
  -- the client plays with the other one afterwards, but its state is WAIT_OPPONENT. The calls before and
  -- after the search are together what find_duel does.
  pub find_duel-IsTorn :
      (find_duel s ≡ end_find_duel (begin_find_duel s)) × IsTorn (interrupted w a) a b
  find_duel-IsTorn = (find_duel-uninterrupted s lobby, interrupted-IsTorn)
