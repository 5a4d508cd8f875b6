-- ===== src/Memory/Tests.antt =====
-- Sends, receives and frees at concrete addresses: a mailbox with the messages in the blocks 100 and 200,
-- whose payloads are the strings 7 and 8, of an actor in the block 500.
use sherry.Base.{
  Option, ℕ, suc, ◌+◌, ◌≤◌, ◌<◌, pos, ltb, negsuc, ◌≡◌, refl, none, some, List, [], ◌∷◌, ◌==◌,
  if◌then◌else◌, to_nat, count, erase, count-cons, count-nil, arith,
}
use sherry.Queues.{Surely}
use sherry.Actor.{Sds, Msg}
use sherry.Dll.{Ptr, DList, Nodes}
use sherry.Dll.Rep.{Rep}
use sherry.Memory.{Heap, Blocks, SdsFree, send_at, recv_at, free_actor, stack_size}
use sherry.Memory.Counted.{owned}
use sherry.Memory.Buffers.{Arrival, fd_life, fd_life-Balanced}
use sherry.Memory.Life.{Growth, spawned, larger, actors_at, whole_life, whole_life-Left}
use sherry.Memory.Valgrind.{
  Valgrind, KeepsStacks, whole_stks, stack_of, actors_of, whole_stks-known,
}
use sherry.Memory.Mailbox.{MailRep, Sent, send_at-Sent, Received, recv_at-Received}
use sherry.Memory.Release.{Released}
use sherry.Memory.Drain.{free_actor-Released}

abbrev first_msg : Msg
first_msg = record { sender = pos 1; recver = pos 0; msgtype = pos 1; payload = 7 }

abbrev second_msg : Msg
second_msg = record { sender = pos 2; recver = pos 0; msgtype = pos 1; payload = 8 }

abbrev third_msg : Msg
third_msg = record { sender = pos 3; recver = pos 0; msgtype = pos 2; payload = 9 }

abbrev mail_nodes : Nodes
mail_nodes a =
    if a == 124
    then record { prev = 0; next = 224 }
    else if a == 224
    then record { prev = 124; next = 0 }
    else record { prev = 0; next = 0 }

abbrev two_mails : Heap
two_mails = record {
  blocks = 100 ∷ 200 ∷ 500 ∷ [];
  strings = 7 ∷ 8 ∷ 9 ∷ [];
  nodes = mail_nodes;
  msg = λ a. if a == 100 then first_msg else second_msg;
}

abbrev two_queue : DList
two_queue = record { head = 124; tail = 224 }

count_two : (a x y : Ptr) → count a (x ∷ y ∷ []) ≡ to_nat (x == a) + to_nat (y == a)
count_two a x y = omega (arith, count-cons a x (y ∷ []), count-cons a y [], count-nil a)

count_three :
    (a x y z : Ptr)
    → count a (x ∷ y ∷ z ∷ []) ≡ to_nat (x == a) + (to_nat (y == a) + to_nat (z == a))
count_three a x y z = omega (arith, count-cons a x (y ∷ z ∷ []), count_two a y z)

two_mails-Rep : Rep mail_nodes two_queue (124 ∷ 224 ∷ [])
two_mails-Rep = ground arith

two_mails-live : (q : Ptr) → count q (100 ∷ 200 ∷ []) ≤ count q (100 ∷ 200 ∷ 500 ∷ [])
two_mails-live q = omega (arith, count_two q 100 200, count_three q 100 200 500)

two_mails-MailRep : MailRep two_queue (100 ∷ 200 ∷ []) (first_msg ∷ second_msg ∷ []) two_mails
two_mails-MailRep = record {
  linked = two_mails-Rep;
  held = refl;
  live = two_mails-live;
  real = count_two 0 100 200;
}

send_at-Sent_example :
    Surely {A = DList × Heap}
      (λ r. Sent 300 third_msg (100 ∷ 200 ∷ []) (first_msg ∷ second_msg ∷ []) two_mails r.0 r.1)
      (send_at 300 third_msg two_queue two_mails)
send_at-Sent_example =
    send_at-Sent 300 third_msg (100 ∷ 200 ∷ []) (first_msg ∷ second_msg ∷ []) two_mails two_queue
      two_mails-MailRep (omega arith) (count_three 300 100 200 500)

recv_at-Received_example :
    Surely
      (Received two_mails two_queue (100 ∷ 200 ∷ []) (first_msg ∷ second_msg ∷ []))
      (recv_at two_queue two_mails)
recv_at-Received_example =
    recv_at-Received two_mails two_queue (100 ∷ 200 ∷ []) (first_msg ∷ second_msg ∷ [])
      two_mails-MailRep

-- A free of strings that keeps count.
abbrev free_live : SdsFree
free_live s ss = if count s ss == 0 then none else some (erase s ss)

free_live-live : (s : Sds) (ss : List Sds) → 0 < count s ss → free_live s ss ≡ some (erase s ss)
free_live-live s ss h = ground (arith, h)

free_actor-Released_example :
    Surely
      (Released (500 ∷ 100 ∷ 200 ∷ []) (7 ∷ 8 ∷ []) two_mails)
      (free_actor free_live 3 (500 + stack_size) two_queue two_mails)
free_actor-Released_example =
    free_actor-Released free_live free_live-live 3 500 two_queue (100 ∷ 200 ∷ [])
      (first_msg ∷ second_msg ∷ []) two_mails two_mails-MailRep (omega arith)
      (λ a. omega (arith, count_three a 500 100 200, count_three a 100 200 500))
      (λ s. omega (arith, count_two s 7 8, count_three s 7 8 9)) (omega arith)

-- Two buffers and the end of the stream, at a file descriptor in the block 700.
abbrev some_arrivals : List Arrival
some_arrivals =
    record { place = 800; size = 64; nread = pos 10 }
    ∷ record { place = 900; size = 64; nread = pos 5 }
    ∷ record { place = 600; size = 64; nread = negsuc 3 }
    ∷ []

fd_life-Balanced_example :
    Surely
      (λ g. (a : Ptr) → count a g.blocks ≡ count a two_mails.blocks)
      (fd_life 700 some_arrivals two_mails)
fd_life-Balanced_example = fd_life-Balanced 700 some_arrivals two_mails

-- A life with two spawned actors and a larger array between them.
abbrev some_blocks : Blocks
some_blocks = record { sche = 700; actors = 800; main = 900; tmpstack = 1000 }

abbrev some_growths : List Growth
some_growths = spawned 1100 ∷ larger 1200 ∷ spawned 1300 ∷ []

whole_life-Left_example :
    Surely
      (λ g.
        (a : Ptr)
        → count a g.blocks ≡ count a two_mails.blocks + owned 900 a + actors_at some_growths a)
      (whole_life some_blocks some_growths two_mails)
whole_life-Left_example =
    whole_life-Left some_blocks some_growths two_mails
      (omega arith, omega arith, omega arith, omega arith)
      (omega arith, (omega arith, (omega arith, tt)))

-- A valgrind that gives the ids 0, 1, 2 and so on.
abbrev some_valgrind : Valgrind (ℕ × (ℕ → Option (ℕ × ℕ)))
some_valgrind = record {
  register = λ s e (n, k). (n, (suc n, λ i. if n == i then some (s, e) else k i));
  deregister = λ i (n, k). (n, λ j. if i == j then none else k j);
}

some_valgrind-KeepsStacks : KeepsStacks some_valgrind
some_valgrind-KeepsStacks = record {
  known = λ (n, k) i. if ltb i n then k i else none;
  fresh = λ s e (n, k). ground arith;
  adds = λ s e (n, k) i. ground arith;
  drops = λ i (n, k) j. ground arith;
}

whole_stks-known_example :
    let r = whole_stks (some some_valgrind) 900 1000 (1100 ∷ 1300 ∷ []) (0, λ i. none) in
    (actors_of r.0 ≡ 900 ∷ 1100 ∷ 1300 ∷ [])
    × (some_valgrind-KeepsStacks.known r.1 2
        ≡ stack_of r.0 2 (some_valgrind-KeepsStacks.known (0, λ i. none) 2))
whole_stks-known_example =
    whole_stks-known some_valgrind some_valgrind-KeepsStacks 900 1000 (1100 ∷ 1300 ∷ [])
      (0, λ i. none) 2
