-- ===== src/Memory/Mailbox.antt =====
-- A mailbox in memory holds a list of messages, oldest first.
use sherry.Base.{
  ℕ, ◌+◌, ◌≤◌, ◌≡◌, refl, ap, ◌∙◌, ◌≢◌, false, Option, none, some, List, [], ◌∷◌, ◌++◌, ◌==◌,
  if◌then◌else◌, to_nat, count, count-cons, count-snoc, and_then, arith,
}
use sherry.Queues.{Surely}
use sherry.Actor.{Msg}
use sherry.Dll.{Ptr, null, DList, ListNode, Nodes, update, list_enqueue, list_dequeue}
use sherry.Dll.Chain.{has, Chain-frame}
use sherry.Dll.Rep.{Rep}
use sherry.Dll.Linked.{Ensures}
use sherry.Dll.Unlinked.{Returns}
use sherry.Dll.Queue.{Enqueued, list_enqueue-Enqueued, Dequeued, list_dequeue-Dequeued}
use sherry.Memory.{Heap, get_cont, node_offset, send_at, recv_at}
use sherry.Memory.Counted.{written_malloc-some, get_cont-member, get_cont-null}

-- The nodes inside the messages at some addresses, and the messages themselves.
abbrev pub nodes_of : List Ptr → List Ptr
nodes_of [] = []
nodes_of (m ∷ ms) = (m + node_offset) ∷ nodes_of ms

abbrev pub contents : (Ptr → Msg) → List Ptr → List Msg
contents msg [] = []
contents msg (m ∷ ms) = msg m ∷ contents msg ms

-- The mailbox links the messages at `ms`, which are blocks of their own and hold `msgs`.
pub record MailRep (mailbox : DList) (ms : List Ptr) (msgs : List Msg) (h : Heap) : Type 0 where
  pub linked : Rep h.nodes mailbox (nodes_of ms)
  pub held : contents h.msg ms ≡ msgs
  pub live : (q : Ptr) → count q ms ≤ count q h.blocks
  pub real : count null ms ≡ 0

has-nodes_of :
    (m : Ptr) (ms : List Ptr) → count m ms ≡ 0 → has (m + node_offset) (nodes_of ms) ≡ false
has-nodes_of m [] e = refl
has-nodes_of m (x ∷ ms) e = ground (arith, e, count-cons m x ms, has-nodes_of m ms)

nodes_of-snoc :
    (ms : List Ptr) (m : Ptr) → nodes_of (ms ++ m ∷ []) ≡ nodes_of ms ++ (m + node_offset) ∷ []
nodes_of-snoc [] m = refl
nodes_of-snoc (x ∷ ms) m = ap (λ ps. (x + node_offset) ∷ ps) (nodes_of-snoc ms m)

contents-snoc :
    (ms : List Ptr) (m : Ptr) (x : Msg) (msg : Ptr → Msg)
    → count m ms ≡ 0
    → contents (λ a. if a == m then x else msg a) (ms ++ m ∷ []) ≡ contents msg ms ++ x ∷ []
contents-snoc [] m x msg e = ground arith
contents-snoc (y ∷ ms) m x msg e = ground (arith, e, count-cons m y ms, contents-snoc ms m x msg)

-- Nodes outside a list may change.
Rep-update :
    (h : Nodes) (q : DList) (xs : List Ptr) (a : Ptr) (n : ListNode)
    → has a xs ≡ false
    → Rep h q xs
    → Rep (update h a n) q xs
Rep-update h q xs a n out r = record {
  head = r.head;
  tail = r.tail;
  chain = Chain-frame null xs null r.chain (λ b i. ground (arith, i, out));
  distinct = r.distinct;
}

-- What a send leaves: the message stands last in the mailbox, in one block more.
pub record Sent (m : Ptr) (x : Msg) (ms : List Ptr) (msgs : List Msg) (h : Heap) (q : DList)
    (g : Heap) : Type 0 where
  pub mail : MailRep q (ms ++ m ∷ []) (msgs ++ x ∷ []) g
  pub taken : (a : Ptr) → count a g.blocks ≡ count a h.blocks + to_nat (m == a)
  pub strings : g.strings ≡ h.strings

module _ (m : Ptr) (x : Msg) (ms : List Ptr) (msgs : List Msg) (h : Heap) where
  with_message : Nodes → Heap
  with_message g = record h {
    blocks = m ∷ h.blocks;
    nodes = g;
    msg = λ a. if a == m then x else h.msg a;
  }

  enqueued-Sent :
      (q0 q : DList) (g : Nodes)
      → MailRep q0 ms msgs h
      → m ≢ null
      → count m h.blocks ≡ 0
      → Rep g q (nodes_of ms ++ (m + node_offset) ∷ [])
      → Sent m x ms msgs h q (with_message g)
  unfolding with_message
  enqueued-Sent q0 q g rep ne fresh r =
      let none_there : count m ms ≡ 0 = omega (arith, rep.live m, fresh) in
      record {
        mail = record {
          linked = rw (nodes_of-snoc ms m) r;
          held = contents-snoc ms m x h.msg none_there ∙ ap (λ xs. xs ++ x ∷ []) rep.held;
          live = λ a. omega (arith, count-snoc a ms m, count-cons a m h.blocks, rep.live a);
          real = ground (arith, count-snoc null ms m, rep.real, ne);
        };
        taken = λ a. omega (arith, count-cons a m h.blocks);
        strings = refl;
      }

  and_then-Sent :
      (q0 : DList) (n : Nodes) (o : Option (DList × Nodes))
      → MailRep q0 ms msgs h
      → m ≢ null
      → count m h.blocks ≡ 0
      → Ensures (Enqueued n (nodes_of ms) (m + node_offset)) o
      → Surely {A = DList × Heap}
          (λ r. Sent m x ms msgs h r.0 r.1)
          (and_then o λ (q, g). some (q, with_message g))
  and_then-Sent q0 n none rep ne fresh e = e
  and_then-Sent q0 n (some (q, g)) rep ne fresh e = enqueued-Sent q0 q g rep ne fresh e.0

  -- A mailbox in memory links the messages at `ms`, live blocks that hold `msgs`, oldest first.
  -- Where malloc gives an address that is not NULL and not live, a send ends without a fault, and
  -- the mailbox links the old messages and the new one behind them; one block more is live, the
  -- others stay, and no string is freed or copied.
  pub send_at-Sent :
      (q : DList)
      → MailRep q ms msgs h
      → m ≢ null
      → count m h.blocks ≡ 0
      → Surely {A = DList × Heap} (λ r. Sent m x ms msgs h r.0 r.1) (send_at m x q h)
  unfolding send_at with_message
  send_at-Sent q rep ne fresh =
      let nodes = update h.nodes (m + node_offset) (record { prev = null; next = null }) in
      let out = has-nodes_of m ms (omega (arith, rep.live m, fresh)) in
      rw (written_malloc-some m h ne) (
        and_then-Sent q nodes (list_enqueue q (m + node_offset) nodes) rep ne fresh (
          list_enqueue-Enqueued nodes q (nodes_of ms) (m + node_offset)
            (Rep-update h.nodes q (nodes_of ms) (m + node_offset)
              (record { prev = null; next = null }) out rep.linked)
            out (omega arith)))

-- What a receive returns and leaves: the oldest message, or NULL.
pub record Taken (h : Heap) (m : Ptr) (x : Msg) (ms : List Ptr) (msgs : List Msg) (r : Ptr)
    (q : DList) (g : Heap) : Type 0 where
  pub address : r ≡ m
  pub message : g.msg r ≡ x
  pub mail : MailRep q ms msgs g
  pub blocks : g.blocks ≡ h.blocks
  pub strings : g.strings ≡ h.strings
  pub contents : g.msg ≡ h.msg

abbrev pub Received : Heap → DList → List Ptr → List Msg → Ptr × DList × Heap → Type 0
Received h q0 (m ∷ ms) (x ∷ msgs) (r, q, g) = Taken h m x ms msgs r q g
Received h q0 _ _ (r, q, g) = (r ≡ null) × (q ≡ q0) × (g ≡ h)

cons_nil : {x : Msg} {xs : List Msg} → x ∷ xs ≡ [] → ⊥
cons_nil e = cc

head_held : {x y : Msg} {xs ys : List Msg} → x ∷ xs ≡ y ∷ ys → x ≡ y
head_held e = cc

tail_held : {x y : Msg} {xs ys : List Msg} → x ∷ xs ≡ y ∷ ys → xs ≡ ys
tail_held e = cc

self_count : (a b : ℕ) → a ≡ b → to_nat (a == b) ≡ 1
self_count a b e = ground (arith, e)

and_then-Received :
    (h : Heap) (q0 : DList) (ms : List Ptr) (msgs : List Msg) (o : Option (Ptr × DList × Nodes))
    → MailRep q0 ms msgs h
    → Returns (Dequeued h.nodes q0 (nodes_of ms)) o
    → Surely
        (Received h q0 ms msgs)
        (and_then o λ (node, q, g). some (get_cont node node_offset, q, record h { nodes = g }))
and_then-Received h q0 ms msgs none rep e = e
and_then-Received h q0 [] msgs (some (node, q, g)) rep e = (
  ap (λ a. get_cont a node_offset) e.0 ∙ get_cont-null node_offset,
  e.1,
  ap (λ n. record h { nodes = n }) e.2,
)
and_then-Received h q0 (m ∷ ms) [] (some (node, q, g)) rep e = absurd (cons_nil rep.held)
and_then-Received h q0 (m ∷ ms) (x ∷ msgs) (some (node, q, g)) rep e =
    let real : m ≢ null = λ z. omega (arith, rep.real, count-cons null m ms, self_count m null z) in
    let address = ap (λ a. get_cont a node_offset) e.0 ∙ get_cont-member m node_offset real in
    let first_held = head_held rep.held in
    record {
      address = address;
      message = ap h.msg address ∙ first_held;
      mail = record {
        linked = e.1;
        held = tail_held rep.held;
        live = λ a. omega (arith, rep.live a, count-cons a m ms);
        real = omega (arith, rep.real, count-cons null m ms);
      };
      blocks = refl;
      strings = refl;
      contents = refl;
    }

-- On a mailbox in memory that links the messages at `ms`, which hold `msgs`, a receive ends without
-- a fault. It returns the address of the oldest message, which still holds it, and the mailbox
-- links the others; or NULL where there is none, and then nothing changes. It frees nothing: the
-- block and the string are the receiver's.
pub recv_at-Received :
    (h : Heap) (q : DList) (ms : List Ptr) (msgs : List Msg)
    → MailRep q ms msgs h
    → Surely (Received h q ms msgs) (recv_at q h)
unfolding recv_at
recv_at-Received h q ms msgs rep =
    and_then-Received h q ms msgs (list_dequeue q h.nodes) rep
      (list_dequeue-Dequeued h.nodes q (nodes_of ms) rep.linked)
