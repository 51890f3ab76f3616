-- ===== src/Console/Editor.antt =====
-- The line editor `win_get_wstr` of CardBluffClient/text_io.cpp: what a key does to the buffer and the
-- cursor. A key that moves the output window, and any other key, changes neither.
use card_bluff.Prelude.{
  ℕ, zero, suc, ◌-◌, ◌≤◌, ◌<◌, ◌≡◌, refl, inl, inr, List, [], ◌∷◌, ◌++◌, Option, none, some,
  if◌then◌else◌, ltb, length, take, drop, length-append, length-take, length-drop, Bool-cases,
  Option-cases, ltb→lt, lt→ltb, arith, ap, ◌∙◌,
}

-- `input_buffer` and `cursor`.
pub record Editor : Type 0 where
  pub input_buffer : List ℕ
  pub cursor : ℕ

-- A key: a character for which `iswprint` holds, a key of the number pad that stands for one, or one of
-- the named keys, each with those that do the same.
pub data Key : Type 0 where
  printed pad : ℕ → Key
  key_left key_right key_home key_end key_backspace key_dc key_enter other_key : Key

unfoldable pub insert : ℕ → Editor → ℕ → Editor
insert max_input_length e c =
    if ltb (length e.input_buffer) max_input_length
    then record {
      input_buffer = take e.cursor e.input_buffer ++ c ∷ drop e.cursor e.input_buffer;
      cursor = suc e.cursor;
    }
    else e

unfoldable pub delete_at_cursor : Editor → Editor
delete_at_cursor e =
    if ltb e.cursor (length e.input_buffer)
    then record e {
      input_buffer = take e.cursor e.input_buffer ++ drop (suc e.cursor) e.input_buffer;
    }
    else e

unfoldable pub backspace : Editor → Editor
unfolding delete_at_cursor
backspace e = if ltb 0 e.cursor then delete_at_cursor (record e { cursor = e.cursor - 1 }) else e

-- The editor after a key, and the line if it is ready.
unfoldable pub press : ℕ → Editor → Key → Editor × Option (List ℕ)
unfolding insert delete_at_cursor backspace
press max_input_length e (printed c) = (insert max_input_length e c, none)
press max_input_length e (pad c) = (insert max_input_length e c, none)
press max_input_length e key_left =
    (if ltb 0 e.cursor then record e { cursor = e.cursor - 1 } else e, none)
press max_input_length e key_right =
    (if ltb e.cursor (length e.input_buffer) then record e { cursor = suc e.cursor } else e, none)
press max_input_length e key_home = (record e { cursor = 0 }, none)
press max_input_length e key_end = (record e { cursor = length e.input_buffer }, none)
press max_input_length e key_backspace = (backspace e, none)
press max_input_length e key_dc = (delete_at_cursor e, none)
press max_input_length e key_enter = (record { input_buffer = []; cursor = 0 }, some e.input_buffer)
press max_input_length e other_key = (e, none)

-- Keys one after the other, with the lines that become ready.
unfoldable pub press_all : ℕ → Editor → List Key → Editor × List (List ℕ)
unfolding press
press_all m e [] = (e, [])
press_all m e (k ∷ keys) =
    let rest = press_all m (press m e k).0 keys in
    elim (press m e k).1 [ none ↦ rest | some line ↦ (rest.0, line ∷ rest.1) ]

abbrev pub IsFit : ℕ → Editor → Type 0
IsFit m e = (e.cursor ≤ length e.input_buffer) × (length e.input_buffer ≤ m)

insert-IsFit : (m : ℕ) (e : Editor) (c : ℕ) → IsFit m e → IsFit m (insert m e c)
unfolding insert
insert-IsFit m e c h = elim (Bool-cases (ltb (length e.input_buffer) m)) [
  | inr full ↦ rw full h
  | inl room ↦
      let less = ltb→lt _ _ room in
      rw room (
        omega (
          arith,
          length-append (take e.cursor e.input_buffer) (c ∷ drop e.cursor e.input_buffer),
          length-take e.cursor e.input_buffer,
          length-drop e.cursor e.input_buffer,
        ))
]

delete-IsFit : (m : ℕ) (e : Editor) → IsFit m e → IsFit m (delete_at_cursor e)
unfolding delete_at_cursor
delete-IsFit m e h = elim (Bool-cases (ltb e.cursor (length e.input_buffer))) [
  | inr at_end ↦ rw at_end h
  | inl inside ↦
      let less = ltb→lt _ _ inside in
      rw inside (
        omega (
          arith,
          length-append (take e.cursor e.input_buffer) (drop (suc e.cursor) e.input_buffer),
          length-take e.cursor e.input_buffer,
          length-drop (suc e.cursor) e.input_buffer,
        ))
]

backspace-IsFit : (m : ℕ) (e : Editor) → IsFit m e → IsFit m (backspace e)
unfolding backspace
backspace-IsFit m e h = elim (Bool-cases (ltb 0 e.cursor)) [
  | inr at_start ↦ rw at_start h
  | inl inside ↦ rw inside (delete-IsFit m (record e { cursor = e.cursor - 1 }) (omega arith, h.1))
]

press-IsFit : (m : ℕ) (e : Editor) (k : Key) → IsFit m e → IsFit m (press m e k).0
unfolding press
press-IsFit m e (printed c) h = insert-IsFit m e c h
press-IsFit m e (pad c) h = insert-IsFit m e c h
press-IsFit m e key_left h = ground arith
press-IsFit m e key_right h = ground arith
press-IsFit m e key_home h = ground arith
press-IsFit m e key_end h = ground arith
press-IsFit m e key_backspace h = backspace-IsFit m e h
press-IsFit m e key_dc h = delete-IsFit m e h
press-IsFit m e key_enter h = ground arith
press-IsFit m e other_key h = h

press-line :
    (m : ℕ) (e : Editor) (k : Key) (line : List ℕ)
    → IsFit m e
    → (press m e k).1 ≡ some line
    → length line ≤ m
unfolding press
press-line m e key_enter line h ready = let same : e.input_buffer ≡ line = cc in rw⁻¹ same h.1
press-line m e (printed c) line h ready = cc
press-line m e (pad c) line h ready = cc
press-line m e key_left line h ready = cc
press-line m e key_right line h ready = cc
press-line m e key_home line h ready = cc
press-line m e key_end line h ready = cc
press-line m e key_backspace line h ready = cc
press-line m e key_dc line h ready = cc
press-line m e other_key line h ready = cc

abbrev pub AreShort : ℕ → List (List ℕ) → Type 0
AreShort m [] = Unit
AreShort m (line ∷ lines) = (length line ≤ m) × AreShort m lines

-- From a buffer that is not longer than max_input_length with the cursor in it or at its end, whatever
-- keys are pressed, the buffer and the cursor stay so, and the lines that become ready are not longer
-- than max_input_length.
pub press_all-IsFit :
    (m : ℕ) (e : Editor) (keys : List Key)
    → IsFit m e
    → IsFit m (press_all m e keys).0 × AreShort m (press_all m e keys).1
unfolding press_all
press_all-IsFit m e [] h = (h, tt)
press_all-IsFit m e (k ∷ keys) h =
    let rest = press_all-IsFit m (press m e k).0 keys (press-IsFit m e k h) in
    elim (Option-cases (press m e k).1) [
      | inl none_yet ↦ rw (press_all, none_yet) rest
      | inr (line, ready) ↦ rw (press_all, ready) (rest.0, (press-line m e k line h ready, rest.1))
    ]

take-insert :
    (k : ℕ) (b : List ℕ) (c : ℕ) (r : List ℕ) → k ≤ length b → take k (take k b ++ c ∷ r) ≡ take k b
take-insert zero b c r h = refl
take-insert (suc k) [] c r h = absurd (omega arith)
take-insert (suc k) (x ∷ b) c r h = ap (λ s. x ∷ s) (take-insert k b c r (omega arith))

take-suc-insert :
    (k : ℕ) (b : List ℕ) (c : ℕ) (r : List ℕ)
    → k ≤ length b
    → take (suc k) (take k b ++ c ∷ r) ≡ take k b ++ c ∷ []
take-suc-insert zero b c r h = refl
take-suc-insert (suc k) [] c r h = absurd (omega arith)
take-suc-insert (suc k) (x ∷ b) c r h = ap (λ s. x ∷ s) (take-suc-insert k b c r (omega arith))

drop-insert :
    (k : ℕ) (b : List ℕ) (c : ℕ) (r : List ℕ) → k ≤ length b → drop (suc k) (take k b ++ c ∷ r) ≡ r
drop-insert zero b c r h = refl
drop-insert (suc k) [] c r h = absurd (omega arith)
drop-insert (suc k) (x ∷ b) c r h = drop-insert k b c r (omega arith)

take-drop : (k : ℕ) (b : List ℕ) → take k b ++ drop k b ≡ b
take-drop zero b = refl
take-drop (suc k) [] = refl
take-drop (suc k) (x ∷ b) = ap (λ s. x ∷ s) (take-drop k b)

-- With the cursor in the buffer or at its end, and room for a character, the key of a character
-- lengthens the buffer by it, before the cursor, which moves behind it; backspace then gives back the
-- buffer and the cursor of before.
pub backspace-insert :
    (m : ℕ) (e : Editor) (c : ℕ)
    → e.cursor ≤ length e.input_buffer
    → length e.input_buffer < m
    → (take (suc e.cursor) (press m e (printed c)).0.input_buffer
        ≡ take e.cursor e.input_buffer ++ c ∷ [])
      × (drop (suc e.cursor) (press m e (printed c)).0.input_buffer ≡ drop e.cursor e.input_buffer)
      × (press m (press m e (printed c)).0 key_backspace ≡ (e, none))
unfolding press insert backspace delete_at_cursor
backspace-insert m e c inside room =
    let k = e.cursor in
    let b = e.input_buffer in
    let longer : Editor = record { input_buffer = take k b ++ c ∷ drop k b; cursor = suc k } in
    let inserted : insert m e c ≡ longer = rw (lt→ltb (length b) m room) refl in
    let size : k < length (take k b ++ c ∷ drop k b) =
      omega (arith, length-append (take k b) (c ∷ drop k b), length-take k b) in
    let back : suc k - 1 ≡ k = omega arith in
    let deleted : backspace longer ≡ e =
      rw
        (
          lt→ltb 0 (suc k) (omega arith),
          back,
          lt→ltb k (length (take k b ++ c ∷ drop k b)) size,
          take-insert k b c (drop k b) inside,
          drop-insert k b c (drop k b) inside,
          take-drop k b,
        )
        refl in
    (
      ap (λ x. take (suc k) x.input_buffer) inserted ∙ take-suc-insert k b c (drop k b) inside,
      ap (λ x. drop (suc k) x.input_buffer) inserted ∙ drop-insert k b c (drop k b) inside,
      ap (λ x. (backspace x, none)) inserted ∙ ap (λ x. (x, none)) deleted,
    )
