-- ===== src/Chat/Actors.antt =====
-- The actors around the server of examples/sherry-chat.c, lines 67 to 128. What their calls answer
-- is a list of arguments, and what they do is the list of actions that results.
use sherry.Base.{ℕ, ◌+◌, Option, none, some, List, [], ◌∷◌, ◌++◌, and_then}
use sherry.Actor.{main_id}
use sherry.Chat.{MsgType, msg_read, msg_write, msg_create, msg_exit, ChatMsg}
use sherry.Chat.Text.{codes, c_string, sprintf, string_payload}

-- `serverid`
abbrev pub serverid : ℕ
serverid = main_id

-- What the actors do on the outside.
pub data Event : Type 0 where
  send_msg : (recver : ℕ) → MsgType → List ℕ → Event  -- `sherrySendMsg` of a payload of bytes
  send_fd : (recver : ℕ) → MsgType → ℕ → Event  -- `sherrySendMsg` of a file descriptor
  write : ℕ → List ℕ → Event  -- `sherryWrite`
  set_non_block : ℕ → Event  -- `socketSetNonBlockNoDelay`
  connected disconnected : ℕ → Event  -- `printf`

-- `sendStringMsg`
unfoldable pub send_string_msg : ℕ → MsgType → List ℕ → Event
send_string_msg recver type text = send_msg recver type (string_payload text)

abbrev pub username_size : ℕ
username_size = 20

abbrev pub readbuf_size : ℕ
readbuf_size = 256

abbrev pub msg_size : ℕ
msg_size = username_size + readbuf_size

-- One `sprintf` of the loop in `clientReader`, into `msg`
unfoldable pub reader_text : List ℕ → List ℕ → Option (List ℕ)
reader_text username bytes = sprintf msg_size (username ++ codes "> " ++ c_string bytes)

-- The loop of `clientReader`: `reads` are the answers of `sherryRead`, empty where `nread` is not
-- positive. Without an answer it waits.
unfoldable pub read_loop : ℕ → List ℕ → List (List ℕ) → Option (List Event)
read_loop fd username [] = some []
read_loop fd username ([] ∷ reads) =
    some (disconnected fd ∷ send_fd serverid MsgType.msg_exit fd ∷ [])
read_loop fd username ((b ∷ bytes) ∷ reads) = and_then (reader_text username (b ∷ bytes)) λ text.
    and_then (read_loop fd username reads)
      λ rest. some (send_string_msg serverid MsgType.msg_read text ∷ rest)

-- `clientReader`; `show_int` is what `%d` writes.
unfoldable pub client_reader : (ℕ → List ℕ) → ℕ → List (List ℕ) → Option (List Event)
client_reader show_int fd reads =
    and_then (sprintf username_size (codes "user:" ++ show_int fd))
      λ username. read_loop fd username reads

-- `clientWriter`, on the messages that it receives
unfoldable pub client_writer : ℕ → List ChatMsg → List Event
client_writer fd [] = []
client_writer fd (m ∷ ms) = elim m.msgtype [
  | msg_exit ↦ []
  | msg_write ↦ write fd m.text ∷ client_writer fd ms
  | msg_read ↦ client_writer fd ms
  | msg_create ↦ client_writer fd ms
]

-- The loop of `clientAccpetor`, on the answers of `sherryAccept`: -1 is `none`, which the
-- assertion refuses.
unfoldable pub accept_loop : List (Option ℕ) → Option (List Event)
accept_loop [] = some []
accept_loop (none ∷ fds) = none
accept_loop (some fd ∷ fds) =
    and_then (accept_loop fds)
      λ rest. some (set_non_block fd ∷ connected fd ∷ send_fd serverid MsgType.msg_create fd ∷ rest)

unfoldable pub client_acceptor : ℕ → List (Option ℕ) → Option (List Event)
client_acceptor sockfd fds =
    and_then (accept_loop fds) λ events. some (set_non_block sockfd ∷ events)
