-- ===== src/Session/Paired.antt =====
-- What `find_opponent` of CardBluffServer/main.cpp finds: two different clients of the set.
use card_bluff.Prelude.{
  ℕ, ◌≡◌, refl, sym, ap, subst, ==_refl, inl, inr, true, false, [], ◌∷◌, none, some, ◌==◌,
  Bool-cases, arith,
}
use card_bluff.Session.{Session, Clients}
use card_bluff.Session.Server.{lookup, seeks, find_pair}
use card_bluff.Session.Steps.{Distinct}

abbrev pub Seeker : Clients → ℕ → Session → Type 0
Seeker clients a s = (lookup clients a ≡ some s) × (seeks s ≡ true)

-- Behind a client with another address the set is as before.
Seeker-behind :
    (clients : Clients) (a b : ℕ) (s t : Session)
    → lookup clients a ≡ none
    → Seeker clients b t
    → Seeker ((a, s) ∷ clients) b t × (¬ (a ≡ b))
unfolding lookup
Seeker-behind clients a b s t none_such h =
    let other : (a == b) ≡ false = elim (Bool-cases (a == b)) [
      | inl same ↦ let e : a ≡ b = ground arith in absurd (cc)
      | inr differs ↦ differs
    ] in
    ((rw other h.0, h.1), ground arith)

find_pair-second :
    (clients : Clients) (first p : ℕ × Session) (b : ℕ) (t : Session)
    → Distinct clients
    → find_pair (some first) clients ≡ some (p, (b, t))
    → (p ≡ first) × Seeker clients b t
unfolding find_pair lookup
find_pair-second [] first p b t d e = cc
find_pair-second ((a, s) ∷ clients) first p b t d e = elim (Bool-cases (seeks s)) [
  | inl here ↦
      let left : (ℕ × Session) × (ℕ × Session) = (first, (a, s)) in
      let right : (ℕ × Session) × (ℕ × Session) = (p, (b, t)) in
      let both : left ≡ right = cc in
      let found : lookup ((a, s) ∷ clients) a ≡ some s = rw (==_refl a) refl in
      (
        sym (ap (λ x. x.0) both),
        subst (λ x. Seeker ((a, s) ∷ clients) x.0 x.1) (ap (λ x. x.1) both) (found, here),
      )
  | inr later ↦
      let rest = find_pair-second clients first p b t d.1 (rw later at e) in
      (rest.0, (Seeker-behind clients a b s t d.0 rest.1).0)
]

-- The two that are found stand in the set, both seek an opponent, and their addresses differ.
pub find_pair-Seeker :
    (clients : Clients) (a b : ℕ) (s t : Session)
    → Distinct clients
    → find_pair none clients ≡ some ((a, s), (b, t))
    → Seeker clients a s × Seeker clients b t × (¬ (a ≡ b))
unfolding find_pair lookup
find_pair-Seeker [] a b s t d e = cc
find_pair-Seeker ((c, u) ∷ clients) a b s t d e = elim (Bool-cases (seeks u)) [
  | inl here ↦
      let rest = find_pair-second clients (c, u) (a, s) b t d.1 (rw here at e) in
      let found : lookup ((c, u) ∷ clients) c ≡ some u = rw (==_refl c) refl in
      let other = Seeker-behind clients c b u t d.0 rest.1 in
      (
        subst (λ x. Seeker ((c, u) ∷ clients) x.0 x.1) (sym rest.0) (found, here),
        other.0,
        subst (λ x. ¬ (x.0 ≡ b)) (sym rest.0) other.1,
      )
  | inr later ↦
      let rest = find_pair-Seeker clients a b s t d.1 (rw later at e) in
      (
        (Seeker-behind clients c a u s d.0 rest.0).0,
        (Seeker-behind clients c b u t d.0 rest.1).0,
        rest.2,
      )
]
