-- ===== src/Combinations/Bets/Tops.antt =====
-- The highest straight of a set of ranks: `find_best_straight` of CardBluffServer/combinations.cpp, and
-- what its search stands for.
use mathlib.Core.Path.{fun_ext}
use card_bluff.Prelude.{
  ℕ, zero, suc, ◌-◌, ◌≤◌, ◌<◌, ◌≡◌, ◌∙◌, sym, ◌⊎◌, Bool, true, false, List, [], Option, none, some,
  ltb, leb, ◌&&◌, if◌then◌else◌, ok, arith, Bool-cases, inl, inr, lt-cases, Option-cases,
}
use card_bluff.Combinations.Spec.{count, described}
use card_bluff.Combinations.Find.{find_best_straight}
use card_bluff.Combinations.Bets.{consecutive, five_in_a_row, present}
use card_bluff.Combinations.Bets.Checked.{check_straight_lem}
use card_bluff.Combinations.Bets.Rows.{top_run, straight_from-behind}

abbrev runs : (ℕ → Bool) → ℕ → Bool
runs p r = leb 4 r && consecutive p (r - 4) 5

abbrev TopRun : (ℕ → Bool) → ℕ → Option ℕ → Type 0
TopRun p n none = (r : ℕ) → r < n → runs p r ≡ false
TopRun p n (some t) = (t < n) × (runs p t ≡ true) × ((r : ℕ) → r < n → runs p r ≡ true → r ≤ t)

TopRun-suc :
    (p : ℕ → Bool) (n : ℕ) (o : Option ℕ) → runs p n ≡ false → TopRun p n o → TopRun p (suc n) o
TopRun-suc p n none skip h = λ r l. elim (lt-cases r n) [
  | inl below ↦ h r below
  | inr top ↦ let e : r ≡ n = omega arith in rw e skip
]
TopRun-suc p n (some t) skip h = (
  omega (arith, h.0),
  h.1,
  λ r l run. elim (lt-cases r n) [
    | inl below ↦ h.2 r below run
    | inr top ↦ let e : r ≡ n = omega arith in let run' : runs p n ≡ true = rw e at run in cc
  ],
)

top_run-TopRun : (p : ℕ → Bool) (n : ℕ) → TopRun p n (top_run p n)
unfolding top_run
top_run-TopRun p zero = λ r l. absurd (omega arith)
top_run-TopRun p (suc n) = elim (Bool-cases (runs p n)) [
  | inl run ↦ rw run (omega arith, run, λ r l _. omega arith)
  | inr none_here ↦ rw none_here (TopRun-suc p n (top_run p n) none_here (top_run-TopRun p n))
]

-- The highest straight, the one down to the ace included.
unfoldable pub or_wheel : (ℕ → Bool) → Option ℕ → Option ℕ
or_wheel p (some t) = some t
or_wheel p none = if five_in_a_row p 3 then some 3 else none

unfoldable pub best_top : (ℕ → Bool) → Option ℕ
unfolding or_wheel
best_top p = or_wheel p (top_run p 13)

abbrev pub IsTopRow : (ℕ → Bool) → Option ℕ → Type 0
IsTopRow p none = (r : ℕ) → 3 ≤ r → r < 13 → five_in_a_row p r ≡ false
IsTopRow p (some t) =
    (3 ≤ t)
    × (t < 13)
    × (five_in_a_row p t ≡ true)
    × ((r : ℕ) → 3 ≤ r → r < 13 → five_in_a_row p r ≡ true → r ≤ t)

five-runs : (p : ℕ → Bool) (r : ℕ) → 4 ≤ r → five_in_a_row p r ≡ runs p r
five-runs p r h = ground arith

-- With no run of five above, only the one down to the ace is left.
only_wheel :
    (p : ℕ → Bool) (r : ℕ)
    → ((r : ℕ) → r < 13 → runs p r ≡ false)
    → 3 ≤ r
    → r < 13
    → (five_in_a_row p r ≡ false) ⊎ (r ≡ 3)
only_wheel p r above l u = elim (lt-cases r 4) [
  | inl wheel ↦ inr (omega arith)
  | inr high ↦ inl (five-runs p r high ∙ above r u)
]

or_wheel-IsTopRow : (p : ℕ → Bool) (o : Option ℕ) → TopRun p 13 o → IsTopRow p (or_wheel p o)
unfolding or_wheel
or_wheel-IsTopRow p (some t) h =
    let high : 4 ≤ t = ground arith in
    (
      omega arith,
      h.0,
      five-runs p t high ∙ h.1,
      λ r l u five. elim (lt-cases r 4) [
        | inl wheel ↦ omega arith
        | inr above ↦ h.2 r u (sym (five-runs p r above) ∙ five)
      ],
    )
or_wheel-IsTopRow p none h = elim (Bool-cases (five_in_a_row p 3)) [
  | inl wheel ↦ rw wheel (
    omega arith,
    omega arith,
    wheel,
    λ r l u five. elim (only_wheel p r h l u) [ inl none_here ↦ cc | inr three ↦ omega arith ],
  )
  | inr no_wheel ↦ rw no_wheel (λ r l u. elim (only_wheel p r h l u) [
    | inl none_here ↦ none_here
    | inr three ↦ rw three no_wheel
  ])
]

pub best_top-IsTopRow : (p : ℕ → Bool) → IsTopRow p (best_top p)
unfolding best_top
best_top-IsTopRow p = or_wheel-IsTopRow p (top_run p 13) (top_run-TopRun p 13)

pub present-fun : (v : List ℕ) → (λ r. ltb 0 (count v r)) ≡ present v
present-fun v = fun_ext (λ r. ground arith)

-- `find_best_straight` returns the top of the highest straight among the cards, if there is one.
pub find_best_straight-best_top :
    (v : List ℕ) → find_best_straight (described v) ≡ ok (best_top (present v))
unfolding find_best_straight best_top
find_best_straight-best_top v =
    rw (present-fun v, straight_from-behind (present v) 13 [])
      (elim (Option-cases (top_run (present v) 13)) [
        | inr (t, e) ↦ rw e
        | inl e ↦ rw (e, check_straight_lem v 3 (omega arith) (omega arith))
      ])
