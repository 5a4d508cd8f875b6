-- ===== src/Chat/Broadcast.antt =====
-- Who gets a text that a client has sent.
use mathlib.Core.List.{Memᴰ}
use mathlib.Core.List.Memᴰ.{head, tail}
use sherry.Base.{
  ℕ, zero, suc, ◌≡◌, refl, sym, ◌∙◌, ◌≢◌, Bool, true, false, ◌==◌, if◌then◌else◌, get_elem?, none,
  some, List, [], ◌∷◌, arith, Bool-cases, inl, inr,
}
use sherry.Queues.{Surely}
use sherry.Chat.{Action, send_text, print, MsgType, broadcast, Chat, ChatMsg, handle}

-- A client at some file descriptor, with its two actors, that is not the sender.
pub record Listener (sender : ℕ) (rs ws : List ℕ) (w : ℕ) : Type 0 where
  pub fd : ℕ
  pub reader : ℕ
  pub reads : get_elem? rs fd ≡ some reader
  pub writes : get_elem? ws fd ≡ some w
  pub in_use : w ≢ 0
  pub not_sender : reader ≢ sender

next-Listener :
    (sender r w' w : ℕ) (rs ws : List ℕ)
    → Listener sender rs ws w
    → Listener sender (r ∷ rs) (w' ∷ ws) w
next-Listener sender r w' w rs ws l = record {
  fd = suc l.fd;
  reader = l.reader;
  reads = l.reads;
  writes = l.writes;
  in_use = l.in_use;
  not_sender = l.not_sender;
}

none_some : {a : ℕ} → none ≡ some a → ⊥
none_some e = ground (arith, e)

module _ (sender : ℕ) (text : List ℕ) where
  later :
      (r w : ℕ) (rs ws : List ℕ) (a : Action)
      → (v : ℕ) × Listener sender rs ws v × (a ≡ send_text v MsgType.msg_write text)
      → (v : ℕ) × Listener sender (r ∷ rs) (w ∷ ws) v × (a ≡ send_text v MsgType.msg_write text)
  later r w rs ws a (v, l, e) = (v, next-Listener sender r w v rs ws l, e)

  broadcast-head :
      (r w : ℕ) (rs ws : List ℕ)
      → w ≢ 0
      → r ≢ sender
      → Memᴰ (send_text w MsgType.msg_write text) (broadcast sender text (r ∷ rs) (w ∷ ws))
  unfolding broadcast
  broadcast-head r w rs ws h k =
      let used : (w == 0) ≡ false = ground (arith, h) in
      let other : (r == sender) ≡ false = ground (arith, k) in rw (used, other) (head refl)

  broadcast-tail :
      (r w : ℕ) (rs ws : List ℕ) (a : Action)
      → Memᴰ a (broadcast sender text rs ws)
      → Memᴰ a (broadcast sender text (r ∷ rs) (w ∷ ws))
  unfolding broadcast
  broadcast-tail r w rs ws a m = elim (Bool-cases (w == 0)) [
    | inl e ↦ rw e m
    | inr e ↦ elim (Bool-cases (r == sender)) [ inl f ↦ rw (e, f) m | inr f ↦ rw (e, f) (tail m) ]
  ]

  broadcast-reaches :
      (fd r w : ℕ) (rs ws : List ℕ)
      → get_elem? rs fd ≡ some r
      → get_elem? ws fd ≡ some w
      → w ≢ 0
      → r ≢ sender
      → Memᴰ (send_text w MsgType.msg_write text) (broadcast sender text rs ws)
  broadcast-reaches fd r w [] ws e f h k = absurd (none_some e)
  broadcast-reaches fd r w (x ∷ rs) [] e f h k = absurd (none_some f)
  broadcast-reaches zero r w (x ∷ rs) (y ∷ ws) e f h k =
      let ex : x ≡ r = cc in
      let ey : y ≡ w = cc in
      rw (sym ey) (broadcast-head x y rs ws (λ z. h (sym ey ∙ z)) (λ z. k (sym ex ∙ z)))
  broadcast-reaches (suc fd) r w (x ∷ rs) (y ∷ ws) e f h k =
      broadcast-tail x y rs ws (send_text w MsgType.msg_write text)
        (broadcast-reaches fd r w rs ws e f h k)

  -- The first client of the rest is a listener, or the action is for a later one.
  broadcast-first :
      (r w : ℕ) (rs ws : List ℕ) (a : Action) (free self : Bool)
      → (w == 0) ≡ free
      → (r == sender) ≡ self
      → (Memᴰ a (broadcast sender text rs ws)
          → (v : ℕ) × Listener sender rs ws v × (a ≡ send_text v MsgType.msg_write text))
      → Memᴰ a (
          if free
          then broadcast sender text rs ws
          else if self
          then broadcast sender text rs ws
          else send_text w MsgType.msg_write text ∷ broadcast sender text rs ws)
      → (v : ℕ) × Listener sender (r ∷ rs) (w ∷ ws) v × (a ≡ send_text v MsgType.msg_write text)
  broadcast-first r w rs ws a true self e f rest m = later r w rs ws a (rest m)
  broadcast-first r w rs ws a false true e f rest m = later r w rs ws a (rest m)
  broadcast-first r w rs ws a false false e f rest (head eq) = (
    w,
    record {
      fd = 0;
      reader = r;
      reads = refl;
      writes = refl;
      in_use = ground (arith, e);
      not_sender = ground (arith, f);
    },
    eq,
  )
  broadcast-first r w rs ws a false false e f rest (tail m) = later r w rs ws a (rest m)

  broadcast-only :
      (rs ws : List ℕ) (a : Action)
      → Memᴰ a (broadcast sender text rs ws)
      → (w : ℕ) × Listener sender rs ws w × (a ≡ send_text w MsgType.msg_write text)
  unfolding broadcast
  broadcast-only [] ws a m = elim m [ ]
  broadcast-only (r ∷ rs) [] a m = elim m [ ]
  broadcast-only (r ∷ rs) (w ∷ ws) a m =
      broadcast-first r w rs ws a (w == 0) (r == sender) refl refl (broadcast-only rs ws a) m

-- What the server does with a text: it prints it first, and then sends it to each listener and to
-- no one else.
pub record Relayed (m : ChatMsg) (c : Chat) (acts : List Action) : Type 0 where
  pub sends : List Action
  pub order : acts ≡ print m.text ∷ sends
  pub reaches :
      (w : ℕ)
      → Listener m.senderid c.clireader c.cliwriter w
      → Memᴰ (send_text w MsgType.msg_write m.text) sends
  pub only :
      (a : Action)
      → Memᴰ a sends
      → (w : ℕ) × Listener m.senderid c.clireader c.cliwriter w
        × (a ≡ send_text w MsgType.msg_write m.text)

-- A text that a client has sent makes the server print it first, and then send it to the writer of
-- every other client in the arrays, to nobody else and not back to its sender; the arrays stay as
-- they are.
pub handle-Relayed :
    (welcome : List ℕ) (reader writer : ℕ) (m : ChatMsg) (c : Chat)
    → m.msgtype ≡ MsgType.msg_read
    → Surely (λ r. (r.0 ≡ c) × Relayed m c r.1) (handle welcome reader writer m c)
unfolding handle
handle-Relayed welcome reader writer m c e = rw e (
  refl,
  record {
    sends = broadcast m.senderid m.text c.clireader c.cliwriter;
    order = refl;
    reaches = λ w l.
        broadcast-reaches m.senderid m.text l.fd l.reader w c.clireader c.cliwriter l.reads l.writes
          l.in_use l.not_sender;
    only = broadcast-only m.senderid m.text c.clireader c.cliwriter;
  },
)
