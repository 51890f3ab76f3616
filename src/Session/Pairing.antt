-- ===== src/Session/Pairing.antt =====
-- The search for opponents of CardBluffServer/main.cpp: where two clients seek, two are found, and they
-- begin a game.
use card_bluff.Prelude.{
  ℕ, suc, ◌≡◌, refl, sym, ap, ◌∙◌, inl, inr, false, [], ◌∷◌, ◌++◌, none, some, ◌==◌, Bool-cases,
  Option-cases, eq-cases, arith,
}
use card_bluff.Session.{Session, Clients}
use card_bluff.Session.Server.{Server, lookup, seeks, find_pair, find_opponent, new_duel}
use card_bluff.Session.Steps.{Distinct}
use card_bluff.Session.Paired.{Seeker, find_pair-Seeker}
use card_bluff.Session.Games.{at_s, at_t, at_other}
use card_bluff.Session.Duels.{playing, seeks-parts, find_opponent-begins}

-- A seeker is the first client of the set or stands behind it.
Seeker-cases :
    (clients : Clients) (a b : ℕ) (s t : Session)
    → Seeker ((a, s) ∷ clients) b t
    → (seeks s ≡ false → Seeker clients b t) × (¬ (a ≡ b) → Seeker clients b t)
unfolding lookup
Seeker-cases clients a b s t h = elim (Bool-cases (a == b)) [
  | inl here ↦
      let value : some s ≡ some t = rw here at h.0 in
      let same : s ≡ t = cc in
      ((λ idle. let x = ap seeks same in absurd (cc)), (λ differ. absurd (differ (ground arith))))
  | inr there ↦ ((λ idle. (rw there at h.0, h.1)), (λ differ. (rw there at h.0, h.1)))
]

find_pair-finds_second :
    (clients : Clients) (first : ℕ × Session) (b : ℕ) (t : Session)
    → Seeker clients b t
    → ¬ (find_pair (some first) clients ≡ none)
unfolding find_pair lookup
find_pair-finds_second [] first b t h e = cc
find_pair-finds_second ((a, s) ∷ clients) first b t h e = elim (Bool-cases (seeks s)) [
  | inl here ↦ let x : some (first, (a, s)) ≡ none = rw here at e in absurd (cc)
  | inr later ↦
      find_pair-finds_second clients first b t ((Seeker-cases clients a b s t h).0 later)
        (rw later at e)
]

find_pair-finds :
    (clients : Clients) (a b : ℕ) (s t : Session)
    → Seeker clients a s
    → Seeker clients b t
    → ¬ (a ≡ b)
    → ¬ (find_pair none clients ≡ none)
unfolding find_pair lookup
find_pair-finds [] a b s t h k apart e = let x = h.0 in cc
find_pair-finds ((c, u) ∷ clients) a b s t h k apart e = elim (Bool-cases (seeks u)) [
  | inr later ↦
      find_pair-finds clients a b s t ((Seeker-cases clients c a u s h).0 later)
        ((Seeker-cases clients c b u t k).0 later) apart (rw later at e)
  | inl here ↦
      let rest : find_pair (some (c, u)) clients ≡ none = rw here at e in
      elim (eq-cases c a) [
        | inl same ↦
            find_pair-finds_second clients (c, u) b t
              ((Seeker-cases clients c b u t k).1 (λ x. apart (sym same ∙ x))) rest
        | inr differs ↦
            find_pair-finds_second clients (c, u) a s ((Seeker-cases clients c a u s h).1 differs)
              rest
      ]
]

-- The two clients play with each other, in the game of that number, and the others are as before.
abbrev pub ArePaired : {Db : Type 0} → Server Db → Server Db → ℕ → ℕ → Session → Session → Type 0
ArePaired w w' a b s t =
    (lookup w'.clients a ≡ some (playing w.next_game s b t.client))
    × (lookup w'.clients b ≡ some (playing w.next_game t a s.client))
    × ((c : ℕ) → ¬ (a ≡ c) → ¬ (b ≡ c) → lookup w'.clients c ≡ lookup w.clients c)
    × (w'.calls ≡ w.calls ++ new_duel w.next_game a b ∷ [])
    × (w'.next_game ≡ suc w.next_game)

-- When the addresses of the clients differ and two different clients seek an opponent, find_opponent
-- makes two different clients that seek one the players of a new game: each has the other as its
-- opponent, is in that game, seeks no more, and is told the nickname of the other; the other clients are
-- as before, and that game is made.
pub find_opponent-ArePaired :
    {Db : Type 0} (w : Server Db) (a b : ℕ) (s t : Session)
    → Distinct w.clients
    → Seeker w.clients a s
    → Seeker w.clients b t
    → ¬ (a ≡ b)
    → (a' : ℕ) × (b' : ℕ) × (s' : Session) × (t' : Session) × Seeker w.clients a' s'
      × Seeker w.clients b' t'
      × (¬ (a' ≡ b'))
      × ArePaired w (find_opponent w) a' b' s' t'
find_opponent-ArePaired w a b s t d h k apart = elim (Option-cases (find_pair none w.clients)) [
  | inl nobody ↦ absurd (find_pair-finds w.clients a b s t h k apart nobody)
  | inr (((a', s'), (b', t')), e) ↦
      let pair = find_pair-Seeker w.clients a' b' s' t' d e in
      let f = λ (x : Session). playing w.next_game s' b' t'.client in
      let g = λ (x : Session). playing w.next_game t' a' s'.client in
      let value = find_opponent-begins w a' b' s' t' e (seeks-parts s' pair.0.1).1 in
      (
        a',
        b',
        s',
        t',
        pair.0,
        pair.1,
        pair.2,
        rw value (
          at_s w.clients a' b' f g pair.2 s' t' pair.0.0 pair.1.0,
          at_t w.clients a' b' f g pair.2 s' t' pair.0.0 pair.1.0,
          at_other w.clients a' b' f g pair.2,
          refl,
          refl,
        ),
      )
]
