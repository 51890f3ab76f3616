-- ===== src/Client/Sending.antt =====
-- CardBluffServer/client.cpp: how the queue of a client is emptied, and CardBluffServer/util/strlcpy.cpp.
-- A C string is the list of its bytes, without the NUL that ends it.
use card_bluff.Prelude.{
  ℕ, zero, suc, false, ◌≤◌, ◌≡◌, refl, ap, ◌∙◌, List, [], ◌∷◌, ◌++◌, Option, none, some, length,
  take, drop, ◌==◌, if◌then◌else◌, arith, length-append, length-drop,
}
use mathlib.Core.List.{append-nil, append_assoc}
use card_bluff.Client.{Client, push_string}

-- The bytes that `strlcpy` writes into a buffer with a number of bytes left.
unfoldable pub copied : ℕ → List ℕ → List ℕ
copied zero src = []
copied (suc zero) src = 0 ∷ []
copied (suc (suc n)) [] = 0 ∷ []
copied (suc (suc n)) (c ∷ src) = c ∷ copied (suc n) src

-- The buffer after the call, and the result; what is not written stays.
unfoldable pub strlcpy : List ℕ → List ℕ → ℕ → List ℕ × ℕ
unfolding copied
strlcpy dst src dsize =
    let written = copied dsize src in (written ++ drop (length written) dst, length src)

-- The C string that starts at a buffer's first byte.
unfoldable pub c_string : List ℕ → List ℕ
c_string [] = []
c_string (c ∷ buffer) = let rest = c_string buffer in if c == 0 then [] else c ∷ rest

abbrev pub send_buffer_size : ℕ
send_buffer_size = 256

-- What one call of `send_from_queue` does: the client after it, the bytes given to the socket, and
-- the result, where `none` stands for `SOCKET_ERROR`.
pub data Sending : Type 0 where
  queue_empty : Sending
  sent : List ℕ → Option ℕ → Sending

-- What follows `send_data`: the front is popped unless the socket has failed.
unfoldable pub after_send : Client → List (List ℕ) → List ℕ → Option ℕ → Client × Sending
after_send c queue bytes none = (c, sent bytes none)
after_send c queue bytes (some n) = (record c { send_queue = queue }, sent bytes (some n))

-- With `_terminate == nullptr`. The buffer stands on the stack with any contents; the socket's answer
-- is a function of the bytes.
unfoldable pub send_from_queue :
    (List ℕ → List ℕ) → (List ℕ → Option ℕ) → List ℕ → Client → Client × Sending
unfolding strlcpy after_send
send_from_queue to_bytes send_data send_buffer c = elim c.send_queue [
  | [] ↦ (c, queue_empty)
  | front ∷ queue ↦
      let bytes = (strlcpy send_buffer (to_bytes front) send_buffer_size).0 in
      after_send c queue bytes (send_data bytes)
]

-- The loop of `copy_strings`: the front goes to the other client until the queue is empty.
unfoldable pub copy_queue : List (List ℕ) → Client → Client
unfolding push_string
copy_queue [] dest = dest
copy_queue (front ∷ queue) dest = copy_queue queue (push_string dest front)

unfoldable pub copy_strings : Client → Client → Client × Client
unfolding copy_queue
copy_strings c dest = (record c { send_queue = [] }, copy_queue c.send_queue dest)

length-copied : (n : ℕ) (src : List ℕ) → length (copied n src) ≤ n
unfolding copied
length-copied zero src = omega arith
length-copied (suc zero) src = omega arith
length-copied (suc (suc n)) [] = omega arith
length-copied (suc (suc n)) (c ∷ src) = omega (arith, length-copied (suc n) src)

abbrev pub HasNoNul : List ℕ → Type 0
HasNoNul [] = Unit
HasNoNul (c ∷ s) = (1 ≤ c) × HasNoNul s

c_string-copied :
    (n : ℕ) (src rest : List ℕ) → HasNoNul src → c_string (copied (suc n) src ++ rest) ≡ take n src
unfolding copied c_string
c_string-copied zero src rest h = refl
c_string-copied (suc n) [] rest h = refl
c_string-copied (suc n) (c ∷ src) rest h =
    let visible : (c == 0) ≡ false = ground arith in
    rw visible (ap (λ s. c ∷ s) (c_string-copied n src rest h.1))

strlcpy-fits :
    (dst src : List ℕ) (n : ℕ)
    → length dst ≡ suc n
    → HasNoNul src
    → (length (strlcpy dst src (suc n)).0 ≡ suc n)
      × (c_string (strlcpy dst src (suc n)).0 ≡ take n src)
unfolding strlcpy
strlcpy-fits dst src n size h =
    let written = copied (suc n) src in
    (
      omega (
        arith,
        length-append written (drop (length written) dst),
        length-drop (length written) dst,
        length-copied (suc n) src,
      ),
      c_string-copied n src (drop (length written) dst) h,
    )

abbrev answered_queue : Option ℕ → List ℕ → List (List ℕ) → List (List ℕ)
answered_queue none front queue = front ∷ queue
answered_queue (some n) front queue = queue

-- The bytes given to the socket for the front of a queue, and what is left of the queue.
abbrev pub Delivers :
    (List ℕ → List ℕ) → (List ℕ → Option ℕ) → Client × Sending → List ℕ → List (List ℕ) → Type 0
Delivers to_bytes send_data r front queue =
    (bytes : List ℕ) × (r.1 ≡ sent bytes (send_data bytes))
    × (length bytes ≡ send_buffer_size)
    × (c_string bytes ≡ take 255 (to_bytes front))
    × (r.0.send_queue ≡ answered_queue (send_data bytes) front queue)

after_send-queue :
    (c : Client) (queue : List (List ℕ)) (bytes front : List ℕ)
    → c.send_queue ≡ front ∷ queue
    → (o : Option ℕ)
    → ((after_send c queue bytes o).1 ≡ sent bytes o)
      × ((after_send c queue bytes o).0.send_queue ≡ answered_queue o front queue)
unfolding after_send
after_send-queue c queue bytes front e none = (refl, e)
after_send-queue c queue bytes front e (some n) = (refl, refl)

-- With a text in the queue that has no NUL in its bytes, and a buffer of 256 bytes, whatever they hold,
-- send_from_queue gives the socket 256 bytes that are, as a C string, the first 255 bytes of the text;
-- the text leaves the queue unless the socket fails.
pub send_from_queue-Delivers :
    (to_bytes : List ℕ → List ℕ) (send_data : List ℕ → Option ℕ) (buffer : List ℕ) (c : Client)
    (front : List ℕ) (queue : List (List ℕ))
    → c.send_queue ≡ front ∷ queue
    → length buffer ≡ send_buffer_size
    → HasNoNul (to_bytes front)
    → Delivers to_bytes send_data (send_from_queue to_bytes send_data buffer c) front queue
unfolding send_from_queue
send_from_queue-Delivers to_bytes send_data buffer c front queue e size h =
    let fits = strlcpy-fits buffer (to_bytes front) 255 size h in
    let bytes = (strlcpy buffer (to_bytes front) send_buffer_size).0 in
    let left = after_send-queue c queue bytes front e (send_data bytes) in
    let value : send_from_queue to_bytes send_data buffer c
        ≡ after_send c queue bytes (send_data bytes) =
      rw e refl in
    rw value (bytes, left.0, fits.0, fits.1, left.1)

pub copy_queue-appends :
    (queue : List (List ℕ)) (dest : Client)
    → copy_queue queue dest ≡ record dest { send_queue = dest.send_queue ++ queue }
unfolding copy_queue push_string
copy_queue-appends [] dest = rw (append-nil dest.send_queue) refl
copy_queue-appends (front ∷ queue) dest =
    copy_queue-appends queue (push_string dest front)
    ∙ rw (append_assoc dest.send_queue (front ∷ []) queue) refl

-- copy_strings empties the queue of the one client, and the other has, after its own texts, all of
-- them in their order; nothing else of the two clients changes.
pub copy_strings-appends :
    (c dest : Client)
    → copy_strings c dest
      ≡ (record c { send_queue = [] }, record dest { send_queue = dest.send_queue ++ c.send_queue })
unfolding copy_strings
copy_strings-appends c dest =
    ap (λ d. (record c { send_queue = [] }, d)) (copy_queue-appends c.send_queue dest)
