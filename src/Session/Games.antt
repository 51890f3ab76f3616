-- ===== src/Session/Games.antt =====
-- The links of the clients of CardBluffServer/main.cpp when a game begins and when it ends.
use card_bluff.Prelude.{ℕ, ◌≡◌, sym, ap, ◌∙◌, subst, inl, inr, true, false, some, eq-cases}
use card_bluff.Session.{Session, Clients}
use card_bluff.Session.Server.{lookup, modify}
use card_bluff.Session.Kept.{changed, lookup-modify_same, lookup-modify_other}
use card_bluff.Session.Linked.{AreLinked, Partner}

-- Two addresses of the set, and what becomes of the clients there.
unfoldable pub both : Clients → ℕ → ℕ → (Session → Session) → (Session → Session) → Clients
unfolding modify
both clients a b f g = modify (modify clients a f) b g

module _ (clients : Clients) (a b : ℕ) (f g : Session → Session) (apart : ¬ (a ≡ b)) where
  abbrev after : Clients
  after = both clients a b f g

  at_first : lookup after a ≡ changed f (lookup clients a)
  unfolding both
  at_first =
      lookup-modify_other (modify clients a f) b a g (λ e. apart (sym e))
      ∙ lookup-modify_same clients a f

  at_second : lookup after b ≡ changed g (lookup clients b)
  unfolding both
  at_second =
      lookup-modify_same (modify clients a f) b g
      ∙ ap (changed g) (lookup-modify_other clients a b f apart)

  pub at_other : (c : ℕ) → ¬ (a ≡ c) → ¬ (b ≡ c) → lookup after c ≡ lookup clients c
  unfolding both
  at_other c p q =
      lookup-modify_other (modify clients a f) b c g q ∙ lookup-modify_other clients a c f p

  module _ (s t : Session) (first : lookup clients a ≡ some s)
      (second : lookup clients b ≡ some t) where
    pub at_s : lookup after a ≡ some (f s)
    at_s = at_first ∙ ap (changed f) first

    pub at_t : lookup after b ≡ some (g t)
    at_t = at_second ∙ ap (changed g) second

    -- A link of two others.
    other-Partner :
        AreLinked clients
        → (c : ℕ) (u : Session) → ¬ (a ≡ c)
        → ¬ (b ≡ c)
        → lookup after c ≡ some u
        → u.client.in_game ≡ true
        → ((v : Session)
            → lookup clients a ≡ some v
            → v.client.in_game ≡ true
            → ¬ (v.client.opponent ≡ some c))
        → ((v : Session)
            → lookup clients b ≡ some v
            → v.client.in_game ≡ true
            → ¬ (v.client.opponent ≡ some c))
        → Partner after c u
    other-Partner linked c u p q here playing no_a no_b =
        let (d, v, g₀, opponent, game, there, busy, back, its_game, distinct) =
          linked c u (sym (at_other c p q) ∙ here) playing in
        let far_a : ¬ (a ≡ d) =
          λ e. no_a v (subst (λ x. lookup clients x ≡ some v) (sym e) there) busy back in
        let far_b : ¬ (b ≡ d) =
          λ e. no_b v (subst (λ x. lookup clients x ≡ some v) (sym e) there) busy back in
        (d, v, g₀, opponent, game, at_other d far_a far_b ∙ there, busy, back, its_game, distinct)

    idle-no :
        (x : ℕ) (s₀ : Session)
        → lookup clients x ≡ some s₀
        → s₀.client.in_game ≡ false
        → (c : ℕ) (v : Session) → lookup clients x ≡ some v
        → v.client.in_game ≡ true
        → ¬ (v.client.opponent ≡ some c)
    idle-no x s₀ here idle c v there busy e = cc

    -- Two idle clients begin a game.
    pub begin-AreLinked :
        (game : ℕ)
        → s.client.in_game ≡ false
        → t.client.in_game ≡ false
        → (f s).client.opponent ≡ some b
        → (f s).client.game ≡ some game
        → (f s).client.in_game ≡ true
        → (g t).client.opponent ≡ some a
        → (g t).client.game ≡ some game
        → (g t).client.in_game ≡ true
        → AreLinked clients
        → AreLinked after
    begin-AreLinked game idle_s idle_t so sg sp to tg tp linked c u here playing =
        let value_s = at_s in
        let value_t = at_t in
        elim (eq-cases a c) [
          | inl e ↦
              rw⁻¹ e
                (let same : u ≡ f s = cc in rw same (b, g t, game, so, sg, at_t, tp, to, tg, apart))
          | inr p ↦ elim (eq-cases b c) [
            | inl e ↦ rw⁻¹ e (
                let same : u ≡ g t = cc in
                rw same (a, f s, game, to, tg, at_s, sp, so, sg, λ x. apart (sym x)))
            | inr q ↦
                other-Partner linked c u p q here playing (idle-no a s first idle_s c)
                  (idle-no b t second idle_t c)
          ]
        ]

    -- The game of two clients ends.
    pub end-AreLinked :
        s.client.opponent ≡ some b
        → t.client.opponent ≡ some a
        → (f s).client.in_game ≡ false
        → (g t).client.in_game ≡ false
        → AreLinked clients
        → AreLinked after
    end-AreLinked so to idle_s idle_t linked c u here playing =
        let value_s = at_s in
        let value_t = at_t in
        elim (eq-cases a c) [
          | inl e ↦ let same : u ≡ f s = cc in absurd (cc)
          | inr p ↦ elim (eq-cases b c) [
            | inl e ↦ let same : u ≡ g t = cc in absurd (cc)
            | inr q ↦
                other-Partner linked c u p q here playing (λ v there busy e. q (cc))
                  (λ v there busy e. p (cc))
          ]
        ]
