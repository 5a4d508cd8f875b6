-- ===== src/Links/Tests.antt =====
-- The queues of five actors in memory: 0 runs, 1 waits for a message, 2 is ready, 3 and 4 wait at a file descriptor.
use sherry.Base.{
  ◌+◌, ◌*◌, ◌≤◌, pos, ◌≡◌, refl, none, some, List, [], ◌∷◌, ◌==◌, if◌then◌else◌, to_nat, count,
  count-cons, count-nil, arith,
}
use sherry.Actor.{Ptr, Status, Prog, Point, new_actor}
use sherry.Sched.{Fd, Sched, unblock_all}
use sherry.Message.{wake}
use sherry.Net.{block_fd}
use sherry.Queues.{At, Surely, Queued, waits}
use sherry.Dll.{DList, Nodes}
use sherry.Links.{Links, wake_at, block_at, unblock_all_at, next_at}
use sherry.Links.Places.{Places}
use sherry.Links.Refine.{Implements}
use sherry.Links.Wake.{wake_at-Implements}
use sherry.Links.Block.{block_at-Implements}
use sherry.Links.Unblock.{Next, unblock_all_at-Implements, next_at-Next}

abbrev some_place : Ptr → Ptr
some_place p = 1000 * p + 1000

some_place-Places : Places some_place
some_place-Places = record { apart = λ p q e. omega (arith, e); real = λ p e. omega (arith, e) }

abbrev some_status : Ptr → Status
some_status p =
    if p == 0
    then Status.running
    else if p == 1
    then Status.wait_msg
    else if p == 2
    then Status.ready
    else if p == 3
    then Status.wait_ev
    else if p == 4
    then Status.wait_ev
    else Status.none

abbrev some_fd : List Ptr → Fd
some_fd ws = record {
  type = 1;
  rbuf = none;
  roffset = 0;
  rerror = pos 0;
  wait_read = ws;
  wait_write = [];
}

abbrev five : List Ptr → Sched Unit
five ws = record {
  actor = λ p. record (new_actor Prog.done) { status = some_status p };
  next_actor = 5;
  actors = some 0 ∷ some 1 ∷ some 2 ∷ some 3 ∷ some 4 ∷ [];
  curractors = 5;
  main = 0;
  running = 0;
  readyq = 2 ∷ [];
  waitingmsg = 1 ∷ [];
  fds = some (some_fd ws) ∷ [];
  requests = [];
  loop = tt;
  printed = [];
}

abbrev some_nodes : Nodes
some_nodes a =
    if a == 4104
    then record { prev = 0; next = 5104 }
    else if a == 5104
    then record { prev = 4104; next = 0 }
    else record { prev = 0; next = 0 }

abbrev some_links : Links
some_links = record {
  nodes = some_nodes;
  running = 1000;
  status = λ a.
      if a == 1000
      then Status.running
      else if a == 2000
      then Status.wait_msg
      else if a == 3000
      then Status.ready
      else if a == 4000
      then Status.wait_ev
      else if a == 5000
      then Status.wait_ev
      else Status.none;
  readyq = record { head = 3104; tail = 3104 };
  waitingmsg = record { head = 2104; tail = 2104 };
}

abbrev some_queue : DList
some_queue = record { head = 4104; tail = 5104 }

five-Implements :
    (ws : List Ptr) → Implements some_place (3 ∷ 4 ∷ []) (five ws) some_queue some_links
five-Implements ws = record {
  ready = ground arith;
  waiting = ground arith;
  event = ground arith;
  running = refl;
  status = λ p. ground arith;
}

count_one : (a x : Ptr) → count a (x ∷ []) ≡ to_nat (x == a)
count_one a x = omega (arith, count-cons a x [], count-nil a)

count_two : (a x y : Ptr) → count a (x ∷ y ∷ []) ≡ to_nat (x == a) + to_nat (y == a)
count_two a x y = omega (arith, count-cons a x (y ∷ []), count_one a y)

five-At : (a : Ptr) → At [] (five (3 ∷ 4 ∷ [])) a
unfolding waits
five-At a = record {
  ready = ground (arith, count_one a 2);
  waiting = ground (arith, count_one a 1);
  event = ground (arith, count_two a 3 4, count-nil a);
}

five-waits : (a : Ptr) → count a (3 ∷ 4 ∷ []) ≤ waits a (five (3 ∷ 4 ∷ [])).fds
unfolding waits
five-waits a = omega arith

five-Queued : Queued (3 ∷ 4 ∷ []) (five [])
unfolding waits
five-Queued = record {
  place = λ a. record {
    ready = ground (arith, count_one a 2);
    waiting = ground (arith, count_one a 1);
    event = ground (arith, count_two a 3 4, count-nil a);
  };
  unused = λ p h. ground (arith, h);
}

wake_at-Implements_example :
    Surely
      (Implements some_place (3 ∷ 4 ∷ []) (wake 1 (five (3 ∷ 4 ∷ []))) some_queue)
      (wake_at (some_place 1) some_links)
wake_at-Implements_example =
    wake_at-Implements some_place some_place-Places 1 (3 ∷ 4 ∷ []) (five (3 ∷ 4 ∷ [])) some_queue
      some_links (five-Implements (3 ∷ 4 ∷ [])) five-At five-waits

unblock_all_at-Implements_example :
    Surely
      (λ r. Implements some_place [] (unblock_all (3 ∷ 4 ∷ []) (five [])) r.0 r.1)
      (unblock_all_at 3 some_queue some_links)
unblock_all_at-Implements_example =
    unblock_all_at-Implements some_place some_place-Places 3 (3 ∷ 4 ∷ []) (five []) some_queue
      some_links (five-Implements []) five-Queued (omega arith)

next_at-Next_example :
    Surely
      (Next some_place some_place-Places
        (3 ∷ 4 ∷ [])
        (five (3 ∷ 4 ∷ []))
        some_queue
        some_links
        (2 ∷ []))
      (next_at some_links)
next_at-Next_example =
    next_at-Next some_place some_place-Places (3 ∷ 4 ∷ []) (five (3 ∷ 4 ∷ [])) some_queue some_links
      (five-Implements (3 ∷ 4 ∷ [])) five-At five-waits

block_at-Implements_example :
    Surely
      (λ r.
        Implements some_place
          (3 ∷ 4 ∷ 0 ∷ [])
          (block_fd 0 (some_fd (3 ∷ 4 ∷ [])) Point.entry (five (3 ∷ 4 ∷ []))).sche
          r.0
          r.1)
      (block_at some_queue some_links)
block_at-Implements_example =
    block_at-Implements some_place some_place-Places 0 (some_fd (3 ∷ 4 ∷ [])) Point.entry
      (five (3 ∷ 4 ∷ [])) some_queue some_links (five-Implements (3 ∷ 4 ∷ [])) refl five-At
      five-waits
