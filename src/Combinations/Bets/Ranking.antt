-- ===== src/Combinations/Bets/Ranking.antt =====
-- When a bet is the best that the cards contain, in the order of `less_combination` of
-- CardBluffServer/combinations.cpp, and how the kinds are ranked.
use card_bluff.Prelude.{
  ℕ, suc, ◌≤◌, ◌<◌, ◌≡◌, refl, true, false, List, [], ◌∷◌, Option, none, some, ok, arith, Run, inl,
  inr, lt-cases, eq-cases,
}
use card_bluff.Prelude.Int.{ℤ, pos}
use card_bluff.Combinations.Check.{clever_asserts}
use card_bluff.Combinations.Order.{comparison_key, lexicographic, less_combination}
use card_bluff.Combinations.Bets.{Bet, kind_of, encode, IsProper, holds}

pub clever_asserts-encode : (b : Bet) → clever_asserts (encode b) ≡ ok tt
unfolding clever_asserts
clever_asserts-encode Bet.nothing = refl
clever_asserts-encode _ = refl

pub comparison_key-encode :
    (b : Bet) → (rest : List ℤ) × (comparison_key (encode b) ≡ ok (pos (kind_of b) ∷ rest))
unfolding comparison_key
comparison_key-encode Bet.nothing = ([], refl)
comparison_key-encode _ = (_, refl)

-- A combination of a higher kind is not below one of a lower kind.
pub less-lower :
    (b c : Bet) → kind_of c < kind_of b → less_combination (encode b) (encode c) ≡ ok false
unfolding less_combination
less-lower b c h =
    let (u, e) = comparison_key-encode b in
    let (v, f) = comparison_key-encode c in
    rw (clever_asserts-encode b, clever_asserts-encode c, e, f)
      (unfold lexicographic in ground arith)

-- The bet is one that the cards contain, and no other such bet beats it.
abbrev pub IsBest : List ℕ → Bet → Type 0
IsBest v b =
    IsProper b
    × (holds v b ≡ true)
    × ((c : Bet)
        → IsProper c
        → holds v c ≡ true
        → less_combination (encode b) (encode c) ≡ ok false)

-- No combination of the cards is of a kind above k.
abbrev pub UpTo : List ℕ → ℕ → Type 0
UpTo v k = (c : Bet) → IsProper c → holds v c ≡ true → kind_of c ≤ k

abbrev pub Absent : List ℕ → ℕ → Type 0
Absent v k = (c : Bet) → IsProper c → kind_of c ≡ k → holds v c ≡ false

-- The bet beats all others of its kind.
abbrev pub IsBestOfKind : List ℕ → Bet → Type 0
IsBestOfKind v b =
    IsProper b
    × (holds v b ≡ true)
    × ((c : Bet)
        → IsProper c
        → kind_of c ≡ kind_of b
        → holds v c ≡ true
        → less_combination (encode b) (encode c) ≡ ok false)

pub UpTo-down : (v : List ℕ) (k : ℕ) → Absent v (suc k) → UpTo v (suc k) → UpTo v k
UpTo-down v k absent upto c p h = elim (lt-cases k (kind_of c)) [
  | inr low ↦ low
  | inl high ↦
      let top : kind_of c ≡ suc k = omega (arith, upto c p h) in let no_bet = absent c p top in cc
]

pub IsBest-of-kind : (v : List ℕ) (b : Bet) → UpTo v (kind_of b) → IsBestOfKind v b → IsBest v b
IsBest-of-kind v b upto h = (
  h.0,
  h.1,
  λ c p here. elim (eq-cases (kind_of c) (kind_of b)) [
    | inl same ↦ h.2 c p same here
    | inr differ ↦ less-lower b c (omega (arith, upto c p here))
  ],
)

-- The search has found the best combination.
abbrev pub Finds : List ℕ → Run (List ℕ) → Type 0
Finds v m = (b : Bet) × (m ≡ ok (encode b)) × IsBest v b

-- What a search for the combinations of one kind tells.
abbrev pub Verdict {ℓ} : {A : Type ℓ} → List ℕ → ℕ → (A → Bet) → Option A → Type 0
Verdict v k bet none = Absent v k
Verdict v k bet (some a) = IsBestOfKind v (bet a)
