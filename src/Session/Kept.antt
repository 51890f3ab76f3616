-- ===== src/Session/Kept.antt =====
-- The set of clients of CardBluffServer/main.cpp as a map from addresses: what its operations do to
-- each address.
use card_bluff.Prelude.{
  ℕ, ◌≡◌, refl, ap, ◌∙◌, inl, inr, false, [], ◌∷◌, Option, none, some, ◌==◌, if◌then◌else◌,
  Bool-cases, ==→eq, arith,
}
use card_bluff.Session.{Session, Clients}
use card_bluff.Session.Server.{lookup, modify, erase}
use card_bluff.Session.Steps.{Distinct}

abbrev pub changed : (Session → Session) → Option Session → Option Session
changed f none = none
changed f (some s) = some (f s)

pub lookup-modify_same :
    (clients : Clients) (a : ℕ) (f : Session → Session)
    → lookup (modify clients a f) a ≡ changed f (lookup clients a)
unfolding lookup modify
lookup-modify_same [] a f = refl
lookup-modify_same ((b, s) ∷ clients) a f = elim (Bool-cases (b == a)) [
  | inl here ↦ rw here refl
  | inr there ↦ rw there (lookup-modify_same clients a f)
]

pub lookup-modify_other :
    (clients : Clients) (a c : ℕ) (f : Session → Session)
    → ¬ (a ≡ c)
    → lookup (modify clients a f) c ≡ lookup clients c
unfolding lookup modify
lookup-modify_other [] a c f h = refl
lookup-modify_other ((b, s) ∷ clients) a c f h =
    let rest = lookup-modify_other clients a c f h in
    elim (Bool-cases (b == c)) [
      | inl here ↦ let other : (b == a) ≡ false = ground arith in rw (here, other) refl
      | inr there ↦ rw there rest
    ]

pub lookup-erase_same : (clients : Clients) (a : ℕ) → lookup (erase clients a) a ≡ none
unfolding lookup erase
lookup-erase_same [] a = refl
lookup-erase_same ((b, s) ∷ clients) a = elim (Bool-cases (b == a)) [
  | inl here ↦ rw here (lookup-erase_same clients a)
  | inr there ↦ rw (there, there) (lookup-erase_same clients a)
]

pub lookup-erase_other :
    (clients : Clients) (a c : ℕ) → ¬ (a ≡ c) → lookup (erase clients a) c ≡ lookup clients c
unfolding lookup erase
lookup-erase_other [] a c h = refl
lookup-erase_other ((b, s) ∷ clients) a c h =
    let rest = lookup-erase_other clients a c h in
    elim (Bool-cases (b == a)) [
      | inl here ↦ let other : (b == c) ≡ false = ground arith in rw (here, other) rest
      | inr there ↦ rw there (ap (λ o. if b == c then some s else o) rest)
    ]

pub modify-Distinct :
    (clients : Clients) (a : ℕ) (f : Session → Session)
    → Distinct clients
    → Distinct (modify clients a f)
unfolding modify
modify-Distinct [] a f h = tt
modify-Distinct ((b, s) ∷ clients) a f h =
    let rest = modify-Distinct clients a f h.1 in
    elim (Bool-cases (a == b)) [
      | inl here ↦
          let same = ==→eq a b here in
          rw⁻¹ same
            (lookup-modify_same clients a f ∙ ap (changed f) (ap (lookup clients) same ∙ h.0), rest)
      | inr there ↦ (lookup-modify_other clients a b f (ground arith) ∙ h.0, rest)
    ]

pub erase-Distinct : (clients : Clients) (a : ℕ) → Distinct clients → Distinct (erase clients a)
unfolding erase
erase-Distinct [] a h = tt
erase-Distinct ((b, s) ∷ clients) a h =
    let rest = erase-Distinct clients a h.1 in
    elim (Bool-cases (b == a)) [
      | inl here ↦ rw here rest
      | inr there ↦ rw there (lookup-erase_other clients a b (ground arith) ∙ h.0, rest)
    ]
