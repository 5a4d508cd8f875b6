-- ===== src/Chat/Tests.antt =====
-- A server with room for three clients, two of them connected.
use sherry.Base.{◌≡◌, refl, some, [], ◌∷◌}
use sherry.Queues.{Surely}
use sherry.Chat.{Chat, ChatMsg, MsgType, send_text, print, send_exit, close, handle, broadcast}
use sherry.Chat.Broadcast.{Relayed, handle-Relayed}
use sherry.Chat.Clients.{handle_create_exit}

-- The clients at 0 and 1; the place 2 is free.
abbrev two_clients : Chat
two_clients = record { clireader = 11 ∷ 21 ∷ 0 ∷ []; cliwriter = 12 ∷ 22 ∷ 0 ∷ [] }

abbrev hello : ChatMsg
hello = record { senderid = 11; msgtype = MsgType.msg_read; fd = 0; text = 104 ∷ 105 ∷ [] }

abbrev comes : ChatMsg
comes = record { senderid = 5; msgtype = MsgType.msg_create; fd = 2; text = [] }

abbrev goes : ChatMsg
goes = record { senderid = 31; msgtype = MsgType.msg_exit; fd = 2; text = [] }

hello_goes_to_the_other :
    handle [] 31 32 hello two_clients
    ≡ some
        (two_clients, print (104 ∷ 105 ∷ []) ∷ send_text 22 MsgType.msg_write (104 ∷ 105 ∷ []) ∷ [])
unfolding handle broadcast
hello_goes_to_the_other = refl

handle-Relayed_example :
    Surely
      (λ r. (r.0 ≡ two_clients) × Relayed hello two_clients r.1)
      (handle [] 31 32 hello two_clients)
handle-Relayed_example = handle-Relayed [] 31 32 hello two_clients refl

handle_create_exit_example :
    Surely
      (λ s.
        Surely
          (λ t. (t.0 ≡ two_clients) × (t.1 ≡ send_exit 32 ∷ close 2 ∷ []))
          (handle [] 0 0 goes s.0))
      (handle [] 31 32 comes two_clients)
handle_create_exit_example =
    handle_create_exit [] 31 32 0 0 comes goes two_clients refl refl refl refl refl
