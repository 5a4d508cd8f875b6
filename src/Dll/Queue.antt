-- ===== src/Dll/Queue.antt =====
-- `list_enqueue` and `list_dequeue` are a first-in first-out queue.
use sherry.Base.{
  ◌≡◌, refl, ◌≢◌, false, List, [], ◌∷◌, ◌++◌, Option, none, some, arith, append-nil, ◌==◌,
}
use sherry.Dll.{
  Ptr, null, DList, Nodes, list_insert, list_erase, return_node, list_enqueue, list_dequeue,
}
use sherry.Dll.Chain.{has}
use sherry.Dll.Rep.{Rep, SameOutside}
use sherry.Dll.Linked.{Ensures}
use sherry.Dll.Unlinked.{Returns, Returns-mono}
use sherry.Dll.Insert.{Ensures-mono, list_insert-Inserted}
use sherry.Dll.Erase.{list_erase-Erased}

-- What `list_enqueue` leaves: the node stands last, and other nodes are as they were.
abbrev pub Enqueued : Nodes → List Ptr → Ptr → DList → Nodes → Type 0
Enqueued h xs node l g = Rep g l (xs ++ node ∷ []) × SameOutside xs node h g

-- A node that is not in the queue is put last; no node outside the queue changes.
pub list_enqueue-Enqueued :
    (h : Nodes) (q : DList) (xs : List Ptr) (node : Ptr)
    → Rep h q xs
    → has node xs ≡ false
    → node ≢ null
    → Ensures (Enqueued h xs node) (list_enqueue q node h)
unfolding list_enqueue
list_enqueue-Enqueued h q xs node rep out ne =
    Ensures-mono (list_insert q node null h) (λ l g (r, s). (r, rw (append-nil xs) at s))
      (list_insert-Inserted h q xs node [] (rw (append-nil xs) rep) (rw (append-nil xs) out) ne)

-- What `list_dequeue` returns and leaves: NULL and an unchanged list on the empty queue; else the
-- first node, unlinked, with the rest in its order.
abbrev pub Dequeued : Nodes → DList → List Ptr → Ptr → DList → Nodes → Type 0
Dequeued h q [] r l g = (r ≡ null) × (l ≡ q) × (g ≡ h)
Dequeued h q (x ∷ xs) r l g =
    (r ≡ x) × Rep g l xs × (g x ≡ record { prev = null; next = null }) × SameOutside (x ∷ xs) x h g

-- `list_dequeue` returns the node in place of what `list_erase` returns.
Returns-node :
    (P : Ptr → DList → Nodes → Type 0) (x : Ptr) (r : Option (Ptr × DList × Nodes))
    → Returns (λ _. P x) r
    → Returns P (return_node x r)
Returns-node P x none p = p
Returns-node P x (some (a, l, g)) p = p

first_taken :
    (h : Nodes) (q : DList) (x : Ptr) (xs : List Ptr) (y : Ptr)
    → Rep h q (x ∷ xs)
    → y ≡ x
    → Returns (Dequeued h q (x ∷ xs)) (return_node y (list_erase q y h))
first_taken h q x xs y rep e = rw e (
    Returns-node (Dequeued h q (x ∷ xs)) x (list_erase q x h) (
      Returns-mono (list_erase q x h) (λ r l g k. (refl, k.rep, k.reset, k.same))
        (list_erase-Erased h q [] x xs rep)))

-- On a queue that holds `xs`, `list_dequeue` ends without a fault and takes the oldest node, or
-- returns NULL where there is none.
pub list_dequeue-Dequeued :
    (h : Nodes) (q : DList) (xs : List Ptr)
    → Rep h q xs
    → Returns (Dequeued h q xs) (list_dequeue q h)
unfolding list_dequeue
list_dequeue-Dequeued h q [] rep = rw rep.head (refl, refl, refl)
list_dequeue-Dequeued h q (x ∷ xs) rep =
    let real : (q.head == null) ≡ false = ground (arith, rep) in
    rw real (first_taken h q x xs q.head rep rep.head)
