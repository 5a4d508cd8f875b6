-- ===== src/Chat/Checks.antt =====
-- The sockets, the actors and the main loop of the chat server at concrete inputs.
use sherry.Base.{
  ℕ, zero, suc, ◌+◌, ◌/◌, ◌%◌, ◌^◌, ◌≤◌, ◌<◌, ◌≡◌, refl, Bool, true, false, not, ◌&&◌, ◌||◌, none,
  some, List, [], ◌∷◌, ◌++◌, ◌==◌, if◌then◌else◌, length, get_elem?, arith,
}
use sherry.Queues.{Surely}
use sherry.Chat.{Chat, ChatMsg, MsgType, handle}
use sherry.Chat.Text.{codes, c_string, string_payload}
use sherry.Chat.Socket.{
  Posix, OpensAndCloses, Created, create_tcp_server, create_on, set_non_block_no_delay,
  set_non_block_with, create_tcp_server-Created,
}
use sherry.Chat.Actors.{client_reader, serverid, send_string_msg, send_msg, send_fd, disconnected}
use sherry.Chat.Reader.{messages, client_reader-messages}
use sherry.Chat.Relay.{Carried, handle-Carried}
use sherry.Chat.Serve.{Round, InRange, Paired, sc_port, chat_main, chat_main-Paired}

-- A system with one socket to give, on which `bind` fails.
abbrev busy_port : Posix (ℕ → Bool)
busy_port = record {
  socket = λ k. if k 3 then (none, k) else (some 3, λ fd. fd == 3 || k fd);
  setsockopt = λ s o k. k;
  bind = λ s port k. (false, k);
  listen = λ s n k. (true, k);
  get_flags = λ s k. (some 2, k);
  set_flags = λ s f k. (true, k);
  close = λ s k fd. not (fd == s) && k fd;
  o_nonblock = 2048;
  tcp_nodelay = 1;
  so_reuseaddr = 2;
}

busy_port-laws : OpensAndCloses busy_port (λ k fd. k fd)
busy_port-laws = record {
  socket_opens = λ k s fd e. ground arith;
  socket_new = λ k s e. ground arith;
  socket_fails = λ k fd e. ground arith;
  closes = λ s k fd. refl;
  option_keeps = λ s o k fd. refl;
  bind_keeps = λ s port k fd. refl;
  listen_keeps = λ s n k fd. refl;
  get_keeps = λ s k fd. refl;
  set_keeps = λ s f k fd. refl;
}

create_tcp_server-Created_example :
    Created busy_port (λ k fd. k fd) (λ fd. false) (create_tcp_server busy_port 6324 (λ fd. false))
create_tcp_server-Created_example =
    create_tcp_server-Created busy_port (λ k fd. k fd) busy_port-laws 6324 (λ fd. false)

-- `%d` for a number of at most ten digits
strip : List ℕ → List ℕ
strip [] = []
strip (d ∷ []) = d ∷ []
strip (d ∷ e ∷ ds) = if d == b'0' then strip (e ∷ ds) else d ∷ e ∷ ds

digit : ℕ → ℕ
digit n = b'0' + n % 10

ten_digits : ℕ → List ℕ
unfolding digit
ten_digits n =
    digit (n / 10 ^ 9)
    ∷ digit (n / 10 ^ 8)
    ∷ digit (n / 10 ^ 7)
    ∷ digit (n / 10 ^ 6)
    ∷ digit (n / 10 ^ 5)
    ∷ digit (n / 10 ^ 4)
    ∷ digit (n / 1000)
    ∷ digit (n / 100)
    ∷ digit (n / 10)
    ∷ digit n
    ∷ []

show_int : ℕ → List ℕ
unfolding strip ten_digits
show_int n = strip (ten_digits n)

length-strip-le : (ds : List ℕ) → length (strip ds) ≤ length ds
unfolding strip
length-strip-le [] = omega arith
length-strip-le (d ∷ []) = omega arith
length-strip-le (d ∷ e ∷ ds) = ground (arith, length-strip-le (e ∷ ds))

show_int-short : (n : ℕ) → n < 2 ^ 31 → length (show_int n) ≤ 10
unfolding show_int ten_digits
show_int-short n h = length-strip-le (ten_digits n)

show_int_of_104 : show_int 104 ≡ codes "104"
unfolding show_int
show_int_of_104 = refl

-- The client at 7 says "hi", and goes.
client_reader-messages_example :
    client_reader show_int 7 (codes "hi" ∷ [] ∷ [])
    ≡ some (messages 7 (codes "user:" ++ show_int 7) (codes "hi" ∷ [] ∷ []))
client_reader-messages_example =
    client_reader-messages show_int 7 (codes "hi" ∷ [] ∷ []) show_int-short (omega arith)
      (omega arith)

messages_of_hi :
    messages 7 (codes "user:7") (codes "hi" ∷ [] ∷ [])
    ≡ send_msg serverid MsgType.msg_read (codes "user:7> hi" ++ 0 ∷ [])
      ∷ disconnected 7
      ∷ send_fd serverid MsgType.msg_exit 7
      ∷ []
unfolding messages c_string
messages_of_hi = refl

abbrev two_clients : Chat
two_clients = record { clireader = 11 ∷ 21 ∷ 0 ∷ []; cliwriter = 12 ∷ 22 ∷ 0 ∷ [] }

abbrev hi : ChatMsg
hi = record { senderid = 11; msgtype = MsgType.msg_read; fd = 0; text = codes "hi" ++ 0 ∷ [] }

handle-Carried_example :
    Surely (λ r. Carried hi two_clients (codes "hi") r.1) (handle [] 31 32 hi two_clients)
unfolding send_string_msg string_payload c_string
handle-Carried_example = handle-Carried [] 31 32 hi two_clients (codes "hi") refl refl

abbrev comes : Round
comes = record {
  message = record { senderid = 1; msgtype = MsgType.msg_create; fd = 5; text = [] };
  reader = 2;
  writer = 3;
}

one-InRange : InRange comes
one-InRange = record { in_arrays = omega arith; has_reader = omega arith; has_writer = omega arith }

comes-InRange : (i : ℕ) (r : Round) → get_elem? (comes ∷ []) i ≡ some r → InRange r
comes-InRange zero r e = let same : comes ≡ r = cc in rw (← same) one-InRange
comes-InRange (suc i) r e = cc

-- The system above with a port that is free.
abbrev free_port : Posix (ℕ → Bool)
free_port = record busy_port { bind = λ s port k. (true, k) }

free_port-serves : (create_tcp_server free_port sc_port (λ fd. fd == 0)).0 ≡ some 3
unfolding create_tcp_server create_on set_non_block_no_delay set_non_block_with
free_port-serves = refl

chat_main-Paired_example :
    Surely (λ s. Paired s.0) (chat_main free_port (λ fd. fd == 0) (comes ∷ []))
chat_main-Paired_example =
    chat_main-Paired free_port (λ fd. fd == 0) 3 (comes ∷ []) free_port-serves comes-InRange
