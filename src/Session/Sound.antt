-- ===== src/Session/Sound.antt =====
-- What holds of every session of CardBluffServer/main.cpp: how the flags of a client go with its state.
use card_bluff.Prelude.{
  ℕ, ◌≡◌, sym, ◌∙◌, subst, ◌⊎◌, inl, inr, Bool, true, false, some, Option-cases, eq-cases,
}
use card_bluff.Client.{ClientState, wait_enter_game, wait_opponent, in_game_state}
use card_bluff.Session.{Session, Clients, closing}
use card_bluff.Session.Server.{lookup, modify, erase}
use card_bluff.Session.Kept.{
  lookup-modify_same, lookup-modify_other, lookup-erase_same, lookup-erase_other,
}

-- The states that only an authorized client enters.
abbrev pub is_entered : ClientState → Bool
is_entered wait_enter_game = true
is_entered wait_opponent = true
is_entered in_game_state = true
is_entered _ = false

abbrev pub is_seeking : ClientState → Bool
is_seeking wait_opponent = true
is_seeking _ = false

abbrev pub is_playing : ClientState → Bool
is_playing in_game_state = true
is_playing _ = false

abbrev pub IsSound : Session → Type 0
IsSound s =
    (is_entered s.client.state ≡ true → s.client.authorized ≡ true)
    × (s.client.authorized ≡ true → (is_entered s.client.state ≡ true) ⊎ (s.position ≡ closing))
    × (s.client.finding_duel ≡ is_seeking s.client.state)
    × (s.client.in_game ≡ is_playing s.client.state)

abbrev pub AreSound : Clients → Type 0
AreSound clients = (a : ℕ) (s : Session) → lookup clients a ≡ some s → IsSound s

pub modify-AreSound :
    (clients : Clients) (a : ℕ) (f : Session → Session)
    → ((s : Session) → lookup clients a ≡ some s → IsSound (f s))
    → AreSound clients
    → AreSound (modify clients a f)
modify-AreSound clients a f new h c u here = elim (eq-cases a c) [
  | inr differs ↦ h c u (sym (lookup-modify_other clients a c f differs) ∙ here)
  | inl same ↦
      let value = lookup-modify_same clients a f in
      elim (Option-cases (lookup clients a)) [
        | inl nothing ↦ absurd (cc)
        | inr (s, e) ↦ let it : f s ≡ u = cc in subst IsSound it (new s e)
      ]
]

pub erase-AreSound : (clients : Clients) (a : ℕ) → AreSound clients → AreSound (erase clients a)
erase-AreSound clients a h c u here = elim (eq-cases a c) [
  | inr differs ↦ h c u (sym (lookup-erase_other clients a c differs) ∙ here)
  | inl same ↦ let value = lookup-erase_same clients a in absurd (cc)
]
