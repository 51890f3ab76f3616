-- ===== src/Session/Linked.antt =====
-- Who plays with whom in CardBluffServer/main.cpp: each client in a game has an opponent in the set,
-- which has it as its opponent, in the same game.
use card_bluff.Prelude.{
  ℕ, ◌≡◌, refl, sym, ◌∙◌, subst, inl, inr, true, false, Option, none, some, eq-cases,
}
use card_bluff.Session.{Session, Clients}
use card_bluff.Session.Server.{lookup, modify, erase}
use card_bluff.Session.Handled.{SamePlace}
use card_bluff.Session.Kept.{
  changed, lookup-modify_same, lookup-modify_other, lookup-erase_same, lookup-erase_other,
}

abbrev pub Partner : Clients → ℕ → Session → Type 0
Partner clients a s =
    (b : ℕ) × (t : Session) × (g : ℕ) × (s.client.opponent ≡ some b)
    × (s.client.game ≡ some g)
    × (lookup clients b ≡ some t)
    × (t.client.in_game ≡ true)
    × (t.client.opponent ≡ some a)
    × (t.client.game ≡ some g)
    × (¬ (a ≡ b))

abbrev pub AreLinked : Clients → Type 0
AreLinked clients =
    (a : ℕ) (s : Session)
    → lookup clients a ≡ some s
    → s.client.in_game ≡ true
    → Partner clients a s

-- At one address: who is not in a game may come and go, and the others keep game and opponent.
abbrev pub Follows : Option Session → Option Session → Type 0
Follows none none = Unit
Follows none (some t) = t.client.in_game ≡ false
Follows (some s) none = s.client.in_game ≡ false
Follows (some s) (some t) = SamePlace s t

pub Follows-refl : (o : Option Session) → Follows o o
Follows-refl none = tt
Follows-refl (some s) = (refl, refl, refl)

Follows-some :
    (o : Option Session) (t : Session)
    → Follows o (some t)
    → t.client.in_game ≡ true
    → (s : Session) × (o ≡ some s) × SamePlace s t
Follows-some none t h e = cc
Follows-some (some s) t h e = (s, refl, h)

Follows-from :
    (o : Option Session) (s : Session)
    → Follows (some s) o
    → s.client.in_game ≡ true
    → (t : Session) × (o ≡ some t) × SamePlace s t
Follows-from none s h e = cc
Follows-from (some t) s h e = (t, refl, h)

-- Links survive what `Follows` allows at each address.
pub AreLinked-Follows :
    (clients clients' : Clients)
    → AreLinked clients
    → ((c : ℕ) → Follows (lookup clients c) (lookup clients' c))
    → AreLinked clients'
AreLinked-Follows clients clients' linked follows a s' here' playing' =
    let (s, here, same) =
      Follows-some (lookup clients a) s' (subst (Follows (lookup clients a)) here' (follows a))
        playing' in
    let (b, t, g, opponent, game, there, playing, back, its_game, apart) =
      linked a s here (sym same.0 ∙ playing') in
    let (t', there', same') =
      Follows-from (lookup clients' b) t
        (subst (λ o. Follows o (lookup clients' b)) there (follows b)) playing in
    (
      b,
      t',
      g,
      same.2 ∙ opponent,
      same.1 ∙ game,
      there',
      same'.0 ∙ playing,
      same'.2 ∙ back,
      same'.1 ∙ its_game,
      apart,
    )

Follows-changed :
    (f : Session → Session)
    → ((s : Session) → SamePlace s (f s))
    → (o : Option Session) → Follows o (changed f o)
Follows-changed f h none = tt
Follows-changed f h (some s) = h s

pub modify-AreLinked :
    (clients : Clients) (a : ℕ) (f : Session → Session)
    → ((s : Session) → SamePlace s (f s))
    → AreLinked clients
    → AreLinked (modify clients a f)
modify-AreLinked clients a f h linked = AreLinked-Follows clients (modify clients a f) linked (λ c.
    elim (eq-cases a c) [
      | inl same ↦
          rw⁻¹ same (rw (lookup-modify_same clients a f) (Follows-changed f h (lookup clients a)))
      | inr differs ↦
          rw (lookup-modify_other clients a c f differs) (Follows-refl (lookup clients c))
    ])

pub put-AreLinked :
    (clients : Clients) (a : ℕ) (s t : Session)
    → lookup clients a ≡ some s
    → SamePlace s t
    → AreLinked clients
    → AreLinked (modify clients a (λ _. t))
put-AreLinked clients a s t here h linked =
    AreLinked-Follows clients (modify clients a (λ _. t)) linked (λ c. elim (eq-cases a c) [
      | inl same ↦ rw⁻¹ same (rw (lookup-modify_same clients a (λ _. t), here) h)
      | inr differs ↦
          rw (lookup-modify_other clients a c (λ _. t) differs) (Follows-refl (lookup clients c))
    ])

pub erase-AreLinked :
    (clients : Clients) (a : ℕ) (s : Session)
    → lookup clients a ≡ some s
    → s.client.in_game ≡ false
    → AreLinked clients
    → AreLinked (erase clients a)
erase-AreLinked clients a s here idle linked =
    AreLinked-Follows clients (erase clients a) linked (λ c. elim (eq-cases a c) [
      | inl same ↦ rw⁻¹ same (rw (lookup-erase_same clients a, here) idle)
      | inr differs ↦ rw (lookup-erase_other clients a c differs) (Follows-refl (lookup clients c))
    ])
