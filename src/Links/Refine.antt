-- ===== src/Links/Refine.antt =====
-- Memory that holds the queues of a scheduler, and `setready` on it.
use sherry.Base.{
  ℕ, ◌+◌, ◌≤◌, ◌≡◌, refl, false, Option, none, some, List, [], ◌∷◌, ◌++◌, to_nat, count, and_then,
  arith, Bool-cases, inl, inr,
}
use sherry.Actor.{Ptr, Status, Actor, is_ready, is_wait_msg, is_wait_ev}
use sherry.Sched.{Sched, put_actor, setready}
use sherry.Queues.{At, Surely, waits}
use sherry.Dll.{DList, Nodes, list_enqueue}
use sherry.Dll.Rep.{Rep}
use sherry.Dll.Linked.{Ensures}
use sherry.Dll.Unlinked.{Returns}
use sherry.Dll.Queue.{Enqueued, list_enqueue-Enqueued}
use sherry.Links.{Links, put_status, setready_at}
use sherry.Links.Places.{
  Places, place-==, node_of, nodes_of, nodes_of-append, has-nodes_of, Rep-Apart,
}

pub Ensures-then :
    {B : Type 0} (P : DList → Nodes → Type 0) (Q : B → Type 0) (o : Option (DList × Nodes))
    (f : DList × Nodes → Option B)
    → Ensures P o
    → ((q : DList) (g : Nodes) → P q g → Surely Q (f (q, g)))
    → Surely Q (and_then o f)
Ensures-then P Q none f h k = h
Ensures-then P Q (some (q, g)) f h k = k q g h

pub Returns-then :
    {B : Type 0} (P : Ptr → DList → Nodes → Type 0) (Q : B → Type 0)
    (o : Option (Ptr × DList × Nodes)) (f : Ptr × DList × Nodes → Option B)
    → Returns P o
    → ((r : Ptr) (q : DList) (g : Nodes) → P r q g → Surely Q (f (r, q, g)))
    → Surely Q (and_then o f)
Returns-then P Q none f h k = h
Returns-then P Q (some (r, q, g)) f h k = k r q g h

one_queue :
    (t : Status) (a b c d e f : ℕ)
    → a ≡ to_nat (is_ready t)
    → b ≡ to_nat (is_wait_msg t)
    → d + e + f ≤ to_nat (is_wait_ev t)
    → c ≤ d + f
    → a + b + c ≤ 1
one_queue t a b c d e f x y z u = ground (arith, x, y, z, u)

module _ {Loop : Type 0} (place : Ptr → Ptr) where
  -- The nodes in memory are linked as the queues of `s` say, those of the wait queue `w` as the list `ws` says,
  -- and every actor has its status.
  pub record Implements (ws : List Ptr) (s : Sched Loop) (w : DList) (l : Links) : Type 0 where
    pub ready : Rep l.nodes l.readyq (nodes_of place s.readyq)
    pub waiting : Rep l.nodes l.waitingmsg (nodes_of place s.waitingmsg)
    pub event : Rep l.nodes w (nodes_of place ws)
    pub running : l.running ≡ place s.running
    pub status : (p : Ptr) → l.status (place p) ≡ (s.actor p).status

  -- No actor hangs in two of these queues, or twice in one.
  abbrev pub Separate : List Ptr → Sched Loop → Type 0
  Separate ws s = (p : Ptr) → count p s.readyq + count p s.waitingmsg + count p ws ≤ 1

  -- What Queues shows of every state of a run; `ws` is a wait queue of a file descriptor, or was just taken out of it.
  pub Separate-At :
      (ws ps : List Ptr) (s : Sched Loop)
      → ((p : Ptr) → At ps s p)
      → ((p : Ptr) → count p ws ≤ waits p s.fds + count p ps)
      → Separate ws s
  Separate-At ws ps s at sub p =
      one_queue (s.actor p).status (count p s.readyq) (count p s.waitingmsg) (count p ws)
        (waits p s.fds) (count p s.requests) (count p ps) (at p).ready (at p).waiting (at p).event
        (sub p)

  module _ (ok : Places place) where
    pub put_status-status :
        (p : Ptr) (t : Status) (a : Actor) (s : Sched Loop) (l : Links)
        → a.status ≡ t
        → ((q : Ptr) → l.status (place q) ≡ (s.actor q).status)
        → (q : Ptr)
        → (put_status (place p) t l).status (place q) ≡ ((put_actor p a s).actor q).status
    put_status-status p t a s l e same q = ground (arith, place-== place ok p q, e, same q)

    pub setready_at-Implements :
        (p : Ptr) (ws : List Ptr) (s : Sched Loop) (w : DList) (l : Links)
        → Implements ws s w l
        → Separate ws s
        → (is_ready (s.actor p).status ≡ false
            → count p s.readyq + count p s.waitingmsg + count p ws ≡ 0)
        → Surely (Implements ws (setready p s) w) (setready_at (place p) l)
    unfolding setready_at setready
    setready_at-Implements p ws s w l i sep free =
        elim (Bool-cases (is_ready (s.actor p).status))
          as (λ _. Surely (Implements ws (setready p s) w) (setready_at (place p) l)) [
            | inl h ↦ rw (i.status p, h) i
            | inr h ↦
                let out = free h in
                rw (i.status p, h)
                  (Ensures-then (Enqueued l.nodes (nodes_of place s.readyq) (node_of place p))
                    (Implements ws
                      (record (put_actor p (record (s.actor p) { status = Status.ready }) s) {
                        readyq = s.readyq ++ p ∷ [];
                      })
                      w)
                    (list_enqueue l.readyq (node_of place p) l.nodes)
                    (λ (q, g).
                      some (record (put_status (place p) Status.ready l) { readyq = q; nodes = g }))
                    (list_enqueue-Enqueued l.nodes l.readyq (nodes_of place s.readyq)
                      (node_of place p) i.ready
                      (has-nodes_of place ok p s.readyq (omega (arith, out))) (omega arith))
                    (λ q g (r, same). record {
                      ready = rw (nodes_of-append place s.readyq (p ∷ [])) r;
                      waiting =
                          Rep-Apart place ok l.nodes g l.waitingmsg s.waitingmsg s.readyq p
                            i.waiting same (λ a. omega (arith, sep a)) (omega (arith, out));
                      event =
                          Rep-Apart place ok l.nodes g w ws s.readyq p i.event same
                            (λ a. omega (arith, sep a)) (omega (arith, out));
                      running = i.running;
                      status =
                          put_status-status p Status.ready
                            (record (s.actor p) { status = Status.ready }) s l refl i.status;
                    }))
          ]
