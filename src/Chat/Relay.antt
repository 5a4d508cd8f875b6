-- ===== src/Chat/Relay.antt =====
-- The way of a line from one client to the others: its reader, the server, and their writers.
use mathlib.Core.List.{Memᴰ}
use mathlib.Core.List.Memᴰ.{tail}
use sherry.Base.{ℕ, ◌≡◌, refl, ap, ◌∙◌, sym, List, [], ◌∷◌, ◌++◌}
use sherry.Queues.{Surely, Surely-map}
use sherry.Chat.{Action, send_text, MsgType, Chat, ChatMsg, handle}
use sherry.Chat.Broadcast.{Listener, Relayed, handle-Relayed}
use sherry.Chat.Text.{c_string, string_payload, c_string-c_string}
use sherry.Chat.Actors.{Event, serverid, send_msg, write, send_string_msg, client_writer}

-- A payload that is sent on as a string is the same payload.
string_payload_twice : (line : List ℕ) → string_payload (string_payload line) ≡ string_payload line
unfolding string_payload
string_payload_twice line = ap (λ bytes. bytes ++ 0 ∷ []) (c_string-c_string line [])

-- What becomes of a line behind the server: each listener is sent a text, and its writer, when it
-- receives what was sent, writes to its client the line up to the first NUL, and one NUL.
pub record Carried (m : ChatMsg) (c : Chat) (line : List ℕ) (acts : List Action) : Type 0 where
  pub carries :
      (w : ℕ)
      → Listener m.senderid c.clireader c.cliwriter w
      → (text : List ℕ) × Memᴰ (send_text w MsgType.msg_write text) acts
        × ((fd : ℕ) (n : ChatMsg)
            → n.msgtype ≡ MsgType.msg_write
            → send_string_msg w MsgType.msg_write text ≡ send_msg w MsgType.msg_write n.text
            → client_writer fd (n ∷ []) ≡ write fd (c_string line ++ 0 ∷ []) ∷ [])

payload_of : Event → List ℕ
payload_of (send_msg w t bytes) = bytes
payload_of _ = []

writer_writes :
    (w fd : ℕ) (line : List ℕ) (n : ChatMsg)
    → n.msgtype ≡ MsgType.msg_write
    → send_string_msg w MsgType.msg_write (string_payload line)
      ≡ send_msg w MsgType.msg_write n.text
    → client_writer fd (n ∷ []) ≡ write fd (c_string line ++ 0 ∷ []) ∷ []
unfolding client_writer send_string_msg payload_of string_payload
writer_writes w fd line n t e =
    let same : string_payload (string_payload line) ≡ n.text = ap payload_of e in
    rw (t, sym same, string_payload_twice line) refl

sent_payload :
    (line : List ℕ) (m : ChatMsg)
    → send_string_msg serverid MsgType.msg_read line ≡ send_msg serverid MsgType.msg_read m.text
    → m.text ≡ string_payload line
unfolding send_string_msg payload_of
sent_payload line m e = sym (ap payload_of e)

-- The server receives, as a text, what the message of a reader that sends `line` as a string holds.
-- Then it sends a text to the writer of every other client in the arrays, and a writer that
-- receives the message which this makes writes to its client the line up to its first NUL, and one
-- NUL.
pub handle-Carried :
    (welcome : List ℕ) (reader writer : ℕ) (m : ChatMsg) (c : Chat) (line : List ℕ)
    → m.msgtype ≡ MsgType.msg_read
    → send_string_msg serverid MsgType.msg_read line ≡ send_msg serverid MsgType.msg_read m.text
    → Surely (λ r. Carried m c line r.1) (handle welcome reader writer m c)
handle-Carried welcome reader writer m c line t sent =
    Surely-map (λ r. (r.0 ≡ c) × Relayed m c r.1) (λ r. Carried m c line r.1)
      (handle welcome reader writer m c) (handle-Relayed welcome reader writer m c t)
      (λ r (s, k). record {
        carries = λ w l. (
          m.text,
          rw k.order (tail (k.reaches w l)),
          λ fd n u f. writer_writes w fd line n u (
              ap (λ text. send_string_msg w MsgType.msg_write text) (sym (sent_payload line m sent))
              ∙ f),
        );
      })
