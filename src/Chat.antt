-- ===== src/Chat.antt =====
-- The server of examples/sherry-chat.c, lines 51 to 179: the loop of `main` that handles one message
-- after another. The calls that it makes (`sherrySpawn`, `sherrySendMsg`) belong to an earlier
-- interface; here they are the list of what a message makes the server do, and the ids that
-- `sherrySpawn` returns are arguments. An id of 0 marks a free place, as in the source.
pub mod Broadcast
pub mod Clients
pub mod Socket
pub mod Text
pub mod Actors
pub mod Reader
pub mod Relay
pub mod Serve
mod Tests
mod Checks
use sherry.Base.{
  ℕ, zero, suc, ◌+◌, ◌-◌, ◌==◌, List, [], ◌∷◌, ◌++◌, if◌then◌else◌, get_elem?, set, Option, none,
  some, replicate,
}

-- MSG_READ, MSG_WRITE, MSG_CREATE and MSG_EXIT
pub data MsgType : Type 0 where
  msg_read msg_write msg_create msg_exit : MsgType

-- `struct message`: the payload is a file descriptor or a text.
pub record ChatMsg : Type 0 where
  pub senderid : ℕ
  pub msgtype : MsgType
  pub fd : ℕ
  pub text : List ℕ

-- What the server does on the outside.
pub data Action : Type 0 where
  spawn_acceptor : ℕ → Action  -- `sherrySpawn(clientAccpetor, sockfd)`
  spawn_reader spawn_writer : ℕ → Action  -- `sherrySpawn(clientReader, fd)`, `(clientWriter, fd)`
  send_text : (recver : ℕ) → MsgType → List ℕ → Action  -- `sendStringMsg`
  send_exit : (recver : ℕ) → Action  -- `sherrySendMsg(recver, MSG_EXIT, NULL, 0)`
  close : ℕ → Action
  print : List ℕ → Action

-- The two arrays of ids, by file descriptor.
pub record Chat : Type 0 where
  pub clireader : List ℕ
  pub cliwriter : List ℕ

abbrev pub sc_maxcli : ℕ
sc_maxcli = 1000

pub init_chat : Chat
init_chat = record { clireader = replicate sc_maxcli 0; cliwriter = replicate sc_maxcli 0 }

-- The loop over the clients, on the rest of both arrays.
unfoldable pub broadcast : ℕ → List ℕ → List ℕ → List ℕ → List Action
broadcast sender text (r ∷ rs) (w ∷ ws) =
    let rest = broadcast sender text rs ws in
    if w == 0 then rest else if r == sender then rest else send_text w MsgType.msg_write text ∷ rest
broadcast sender text _ _ = []

-- The id of a client's writer; an index out of range is a fault.
abbrev pub writer_of : ℕ → Chat → Option ℕ
writer_of fd c = get_elem? c.cliwriter fd

unfoldable pub on_create : List ℕ → ℕ → ℕ → ℕ → Option ℕ → Chat → Option (Chat × List Action)
on_create welcome fd reader writer none c = none
on_create welcome fd reader writer (some old) c = some (
  record { clireader = set c.clireader fd reader; cliwriter = set c.cliwriter fd writer },
  spawn_reader fd ∷ spawn_writer fd ∷ send_text writer MsgType.msg_write welcome ∷ [],
)

unfoldable pub on_exit : ℕ → Option ℕ → Chat → Option (Chat × List Action)
on_exit fd none c = none
on_exit fd (some writer) c = some (
  record { clireader = set c.clireader fd 0; cliwriter = set c.cliwriter fd 0 },
  send_exit writer ∷ close fd ∷ [],
)

-- One round of the loop in `main`; `reader` and `writer` are the ids that the two spawns return.
unfoldable pub handle : List ℕ → ℕ → ℕ → ChatMsg → Chat → Option (Chat × List Action)
handle welcome reader writer m c = elim m.msgtype [
  | msg_create ↦ on_create welcome m.fd reader writer (writer_of m.fd c) c
  | msg_exit ↦ on_exit m.fd (writer_of m.fd c) c
  | msg_read ↦ some (c, print m.text ∷ broadcast m.senderid m.text c.clireader c.cliwriter)
  | msg_write ↦ some (c, [])
]
