-- ===== src/Session/Settling.antt =====
-- What a step of CardBluffServer/main.cpp that changes no game keeps: the flags of the clients, their
-- addresses, and who plays with whom.
use card_bluff.Prelude.{
  ℕ, ◌≡◌, refl, sym, ap, ◌∙◌, inl, inr, false, List, some, After, Option-cases, eq-cases,
}
use card_bluff.Client.{Client, set_waiting_reconnect, push_string}
use card_bluff.Client.Sending.{copy_queue-appends}
use card_bluff.Session.{
  Session, Clients, Next, go_on, clean_up, hand_over, tell_opponent, game_command,
}
use card_bluff.Session.Server.{Server, lookup, modify, erase, closed, resumed, told, deliver}
use card_bluff.Session.Steps.{Distinct}
use card_bluff.Session.Sound.{IsSound, AreSound, modify-AreSound, erase-AreSound}
use card_bluff.Session.Kept.{
  changed, modify-Distinct, erase-Distinct, lookup-modify_other, lookup-modify_same,
}
use card_bluff.Session.Handled.{SamePlace, Settled}
use card_bluff.Session.Linked.{AreLinked, modify-AreLinked, put-AreLinked, erase-AreLinked}

abbrev pub IsSettled : Clients → Type 0
IsSettled clients = AreSound clients × Distinct clients × AreLinked clients

pub modify-IsSettled :
    (clients : Clients) (a : ℕ) (f : Session → Session)
    → ((s : Session) → SamePlace s (f s))
    → ((s : Session) → lookup clients a ≡ some s → IsSound s → IsSound (f s))
    → IsSettled clients
    → IsSettled (modify clients a f)
modify-IsSettled clients a f same sound h = (
  modify-AreSound clients a f (λ s here. sound s here (h.0 a s here)) h.0,
  modify-Distinct clients a f h.1,
  modify-AreLinked clients a f same h.2,
)

pub put-IsSettled :
    (clients : Clients) (a : ℕ) (s t : Session)
    → lookup clients a ≡ some s
    → SamePlace s t
    → IsSound t
    → IsSettled clients
    → IsSettled (modify clients a (λ _. t))
put-IsSettled clients a s t here same sound h = (
  modify-AreSound clients a (λ _. t) (λ u e. sound) h.0,
  modify-Distinct clients a (λ _. t) h.1,
  put-AreLinked clients a s t here same h.2,
)

pub erase-IsSettled :
    (clients : Clients) (a : ℕ) (s : Session)
    → lookup clients a ≡ some s
    → s.client.in_game ≡ false
    → IsSettled clients
    → IsSettled (erase clients a)
erase-IsSettled clients a s here idle h = (
  erase-AreSound clients a h.0,
  erase-Distinct clients a h.1,
  erase-AreLinked clients a s here idle h.2,
)

resumed-same :
    (c : Client) (s : Session) → SamePlace s (resumed c s) × (IsSound s → IsSound (resumed c s))
unfolding resumed set_waiting_reconnect
resumed-same c s = rw (copy_queue-appends c.send_queue s.client) ((refl, refl, refl), (λ h. h))

told-same :
    (text : List ℕ) (s : Session) → SamePlace s (told text s) × (IsSound s → IsSound (told text s))
unfolding push_string
told-same text s = ((refl, refl, refl), (λ h. h))

pub closed-IsSound : (s : Session) → IsSound s → IsSound (closed s)
closed-IsSound s h = (h.0, (λ e. inr refl), h.2, h.3)

-- What the session at an address becomes when another is changed that is not in a game.
idle_after :
    (clients : Clients) (a b : ℕ) (s : Session) (f : Session → Session)
    → ((u : Session) → SamePlace u (f u))
    → lookup clients a ≡ some s
    → s.client.in_game ≡ false
    → (t : Session) × (lookup (modify clients b f) a ≡ some t) × (t.client.in_game ≡ false)
idle_after clients a b s f same here idle = elim (eq-cases b a) [
  | inr differs ↦ (s, lookup-modify_other clients b a f differs ∙ here, idle)
  | inl e ↦ rw e (f s, lookup-modify_same clients a f ∙ ap (changed f) here, (same s).0 ∙ idle)
]

module _ {Db : Type 0} where
  pub deliver-IsSettled :
      (w : Server Db) (a : ℕ) (s t : Session) (next : Next)
      → IsSettled w.clients
      → lookup w.clients a ≡ some s
      → SamePlace s t
      → Settled t next
      → After (λ w'. IsSettled w'.clients) (deliver w a t next)
  unfolding deliver
  deliver-IsSettled w a s t go_on h here same sound =
      put-IsSettled w.clients a s t here same sound h
  deliver-IsSettled w a s t clean_up h here same sound =
      put-IsSettled w.clients a s (closed t) here same sound h
  deliver-IsSettled w a s t (hand_over old) h here same idle =
      let middle =
        modify-IsSettled w.clients old (resumed t.client) (λ u. (resumed-same t.client u).0)
          (λ u e. (resumed-same t.client u).1) h in
      let (u, there, rests) =
        idle_after w.clients a old s (resumed t.client) (λ u. (resumed-same t.client u).0) here
          (sym same.0 ∙ idle) in
      erase-IsSettled (modify w.clients old (resumed t.client)) a u there rests middle
  deliver-IsSettled w a s t (tell_opponent text) h here same sound =
      elim (Option-cases t.client.opponent) [
        | inl nobody ↦ rw (deliver, nobody) tt
        | inr (b, e) ↦
            rw (deliver, e)
              (modify-IsSettled (modify w.clients a (λ _. t)) b (told text)
                (λ u. (told-same text u).0) (λ u e. (told-same text u).1)
                (put-IsSettled w.clients a s t here same sound.0 h))
      ]
  deliver-IsSettled w a s t (game_command text) h here same sound =
      elim (Option-cases t.client.game) [
        | inl nothing ↦ rw (deliver, nothing) tt
        | inr (g, e) ↦ rw (deliver, e) (put-IsSettled w.clients a s t here same sound.0 h)
      ]
