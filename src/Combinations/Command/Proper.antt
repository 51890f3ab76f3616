-- ===== src/Combinations/Command/Proper.antt =====
-- What `parse_m_command` of CardBluffServer/combinations.cpp accepts.
use card_bluff.Prelude.{
  ℕ, zero, suc, ◌+◌, ◌≤◌, ◌<◌, ◌≡◌, refl, sym, Bool, true, false, List, [], ◌∷◌, ◌++◌, ◌==◌, ltb,
  leb, ◌&&◌, if◌then◌else◌, drop, arith, Bool-cases, inl, inr, get_or,
}
use card_bluff.Combinations.Kind
use card_bluff.Combinations.Tables
use card_bluff.Combinations.Bets.{Bet, encode, IsProper}
use card_bluff.Combinations.Command.Parse.{
  Parsed, parsed, refused, ◌>>=◌, Transcript, lookup_or, parse_kind, parse_ranks, parse_suit,
  parse_end, check_ranks, sort_two, parse_m_command, bit,
}

-- The bets that a player can make: two pairs come with the lower rank first, a flush starts at a
-- seven, and the ranks of a full house may be the same.
abbrev pub IsAccepted : Bet → Type 0
IsAccepted Bet.nothing = ⊥
IsAccepted (Bet.two_pairs a b) = (a < b) × (b < 13)
IsAccepted (Bet.full_house a b) = (a < 13) × (b < 13)
IsAccepted (Bet.flush r s) = (5 ≤ r) × (r < 13) × (s < 4)
IsAccepted b = IsProper b

-- A call of the parser that succeeds has succeeded at each step.
module _ {ℓ κ} {A : Type ℓ} {B : Type κ} where
  bind-parsed :
      (m : Parsed A) (f : A → Parsed B) {b : B}
      → (m >>= f) ≡ parsed b
      → (a : A) × (m ≡ parsed a) × (f a ≡ parsed b)
  bind-parsed (parsed a) f h = (a, refl, h)
  bind-parsed (refused t) f h = cc

parsed_inj {ℓ} : {A : Type ℓ} {a b : A} → parsed a ≡ parsed b → a ≡ b
parsed_inj h = cc

-- Every value of a table satisfies p.
all_values : (ℕ → Bool) → List (ℕ × ℕ) → Bool
all_values p [] = true
all_values p ((k, v) ∷ m) = p v && all_values p m

lookup_or-all :
    (p : ℕ → Bool) (table : List (ℕ × ℕ)) (c : ℕ) (t : Transcript) {v : ℕ}
    → all_values p table ≡ true
    → lookup_or table c t ≡ parsed v
    → p v ≡ true
unfolding Tables.find all_values
lookup_or-all p [] c t {v = v} all h = cc
lookup_or-all p ((k, w) ∷ m) c t {v = v} all h = elim (Bool-cases (k == c)) [
  | inl hit ↦
      let here : parsed w ≡ parsed v = rw (hit, lookup_or) at h in
      let same : w ≡ v = parsed_inj here in let sat : p w ≡ true = ground arith in rw same at sat
  | inr miss ↦
      let later : lookup_or m c t ≡ parsed v = rw (miss, lookup_or) at h in
      let all' : all_values p m ≡ true = ground arith in lookup_or-all p m c t all' later
]

-- As many ranks as asked for.
abbrev Ranks : ℕ → List ℕ → Type 0
Ranks zero rs = rs ≡ []
Ranks (suc n) rs = (r : ℕ) × (rest : List ℕ) × (rs ≡ r ∷ rest) × (r < 13) × Ranks n rest

abbrev Suits : Bool → List ℕ → Type 0
Suits false ss = ss ≡ []
Suits true ss = (s : ℕ) × (ss ≡ s ∷ []) × (s < 4)

parse_kind-range : (text : List ℕ) {k : ℕ} → parse_kind text ≡ parsed k → (1 ≤ k) × (k ≤ 9)
unfolding parse_kind all_values
parse_kind-range [] h = cc
parse_kind-range (c ∷ text) h =
    ground (arith, lookup_or-all (λ k. leb 1 k && leb k 9) Tables.wchar_to_combination c _ refl h)

parse_ranks-Ranks :
    (n : ℕ) (text : List ℕ) {rs : List ℕ} → parse_ranks n text ≡ parsed rs → Ranks n rs
unfolding parse_ranks all_values
parse_ranks-Ranks zero text h = cc
parse_ranks-Ranks (suc n) [] h = cc
parse_ranks-Ranks (suc n) (c ∷ text) h =
    let (r, e, h') =
      bind-parsed (lookup_or Tables.wchar_to_rank c (Transcript.incorrect_rank c)) _ h in
    let (rest, e', h'') = bind-parsed (parse_ranks n text) _ h' in
    (
      r,
      rest,
      sym (parsed_inj h''),
      ground (arith, lookup_or-all (λ r. ltb r 13) Tables.wchar_to_rank c _ refl e),
      parse_ranks-Ranks n text e',
    )

parse_suit-Suits :
    (b : Bool) (text : List ℕ) {ss : List ℕ} → parse_suit b text ≡ parsed ss → Suits b ss
unfolding parse_suit all_values
parse_suit-Suits false text h = cc
parse_suit-Suits true [] h = cc
parse_suit-Suits true (c ∷ text) h =
    let (s, e, h') =
      bind-parsed (lookup_or Tables.wchar_to_suit c (Transcript.incorrect_suit c)) _ h in
    (
      s,
      sym (parsed_inj h'),
      ground (arith, lookup_or-all (λ s. ltb s 4) Tables.wchar_to_suit c _ refl e),
    )

-- The end of `parse_m_command`.
abbrev ordered : ℕ → List ℕ → List ℕ
ordered k comb = if k == Kind.two_pairs then sort_two comb else comb

abbrev Reads : List ℕ → Type 0
Reads comb = (b : Bet) × (comb ≡ encode b) × IsAccepted b

sorted_two : (a b : ℕ) → a < 13 → b < 13 → (a == b) ≡ false → Reads (sort_two (3 ∷ a ∷ b ∷ []))
sorted_two a b l m differ = elim (Bool-cases (ltb b a)) [
  | inl down ↦ (Bet.two_pairs b a, rw down refl, ground arith)
  | inr up ↦ (Bet.two_pairs a b, rw up refl, ground arith)
]

one_rank :
    {rs : List ℕ} {ss : List ℕ}
    → Ranks 1 rs
    → Suits false ss
    → (r : ℕ) × (rs ++ ss ≡ r ∷ []) × (r < 13)
one_rank h k = let (r, rest, e, l, e') = h in (r, rw (e, e', k) refl, l)

rank_suit :
    {rs : List ℕ} {ss : List ℕ}
    → Ranks 1 rs
    → Suits true ss
    → (r s : ℕ) × (rs ++ ss ≡ r ∷ s ∷ []) × (r < 13) × (s < 4)
rank_suit h k = let (r, rest, e, l, e') = h in let (s, f, m) = k in (r, s, rw (e, e', f) refl, l, m)

two-Ranks :
    {rs : List ℕ} {ss : List ℕ}
    → Ranks 2 rs
    → Suits false ss
    → (a b : ℕ) × (rs ++ ss ≡ a ∷ b ∷ []) × (a < 13) × (b < 13)
two-Ranks h k =
    let (a, rest, e, l, (b, rest', e', m, e'')) = h in (a, b, rw (e, e', e'', k) refl, l, m)

reads :
    (k symbol : ℕ) (rs ss : List ℕ)
    → 1 ≤ k
    → k ≤ 9
    → Ranks (get_or Tables.how_many_ranks k 0) rs
    → Suits (get_or Tables.has_suit k false) ss
    → check_ranks k symbol (get_or (k ∷ rs ++ ss) 1 0) (get_or (k ∷ rs ++ ss) 2 0) ≡ parsed tt
    → Reads (ordered k (k ∷ rs ++ ss))
unfolding check_ranks
reads (suc zero) symbol rs ss l u h j c =
    let (r, e, p) = one_rank h j in rw e (Bet.high_card r, refl, p)
reads (suc (suc zero)) symbol rs ss l u h j c =
    let (r, e, p) = one_rank h j in rw e (Bet.pair r, refl, p)
reads (suc (suc (suc zero))) symbol rs ss l u h j c =
    let (a, b, e, p, q) = two-Ranks h j in
    let c' = rw e at c in rw e (sorted_two a b p q (ground arith))
reads (suc (suc (suc (suc zero)))) symbol rs ss l u h j c =
    let (r, e, p) = one_rank h j in rw e (Bet.set r, refl, p)
reads (suc (suc (suc (suc (suc zero))))) symbol rs ss l u h j c =
    let (r, e, p) = one_rank h j in let c' = rw e at c in rw e (Bet.straight r, refl, ground arith)
reads (suc (suc (suc (suc (suc (suc zero)))))) symbol rs ss l u h j c =
    let (r, s, e, p, q) = rank_suit h j in
    let c' = rw e at c in rw e (Bet.flush r s, refl, ground arith)
reads (suc (suc (suc (suc (suc (suc (suc zero))))))) symbol rs ss l u h j c =
    let (a, b, e, p, q) = two-Ranks h j in rw e (Bet.full_house a b, refl, (p, q))
reads (suc (suc (suc (suc (suc (suc (suc (suc zero)))))))) symbol rs ss l u h j c =
    let (r, e, p) = one_rank h j in rw e (Bet.square r, refl, p)
reads (suc (suc (suc (suc (suc (suc (suc (suc (suc zero))))))))) symbol rs ss l u h j c =
    let (r, s, e, p, q) = rank_suit h j in
    let c' = rw e at c in rw e (Bet.straight_flush r s, refl, ground arith)
reads _ symbol rs ss l u h j c = absurd (omega arith)

-- When `parse_m_command` accepts a text, the combination that it reads stands for a bet of the game
-- other than nothing, with ranks and a suit that exist: a straight from a five on, a flush from a seven
-- on, and two pairs of different ranks, the lower one first.
pub parse_m_command-IsAccepted :
    (command : List ℕ) {comb : List ℕ}
    → parse_m_command command ≡ parsed comb
    → (b : Bet) × (comb ≡ encode b) × IsAccepted b
unfolding parse_m_command
parse_m_command-IsAccepted command {comb = comb} h =
    let (k, e, h₁) = bind-parsed (parse_kind command) _ h in
    let n = get_or Tables.how_many_ranks k 0 in
    let suited = get_or Tables.has_suit k false in
    let (rs, e₁, h₂) = bind-parsed (parse_ranks n (drop 1 command)) _ h₁ in
    let (ss, e₂, h₃) = bind-parsed (parse_suit suited (drop (1 + n) command)) _ h₂ in
    let (_, e₃, h₄) = bind-parsed (parse_end (drop (1 + n + bit suited) command)) _ h₃ in
    let text = k ∷ rs ++ ss in
    let (_, e₄, h₅) =
      bind-parsed (check_ranks k (get_or command 1 0) (get_or text 1 0) (get_or text 2 0)) _ h₄ in
    let range = parse_kind-range command e in
    let read =
      reads k (get_or command 1 0) rs ss range.0 range.1 (parse_ranks-Ranks n (drop 1 command) e₁)
        (parse_suit-Suits suited (drop (1 + n) command) e₂) e₄ in
    let same : ordered k text ≡ comb = parsed_inj h₅ in rw same at read
