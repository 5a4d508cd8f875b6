-- ===== src/Links/Unblock.antt =====
-- `unblock_all` takes the actors of a wait queue out one by one, and `schdule` the next ready one.
use sherry.Base.{
  ℕ, zero, suc, ◌+◌, ◌≤◌, ◌<◌, ◌≡◌, refl, true, false, some, List, [], ◌∷◌, ◌==◌, count, count-cons,
  and_then, arith, length,
}
use sherry.Actor.{Ptr, Status}
use sherry.Sched.{Sched, setready, setrunning, unblock_all}
use sherry.Queues.{At, Surely, Surely-then, Queued, waits}
use sherry.Queues.Ready.{unblocked}
use sherry.Dll.{null, DList, Nodes, list_dequeue}
use sherry.Dll.Rep.{Rep, SameOutside}
use sherry.Dll.Queue.{Dequeued, list_dequeue-Dequeued}
use sherry.Memory.{get_cont}
use sherry.Memory.Counted.{get_cont-member, get_cont-null}
use sherry.Links.{Links, actor_node, setready_at, unblock_all_at, run_next, next_at}
use sherry.Links.Places.{Places, node_of, nodes_of, Rep-Apart}
use sherry.Links.Refine.{
  Returns-then, Implements, Separate, Separate-At, put_status-status, setready_at-Implements,
}

module _ {Loop : Type 0} (place : Ptr → Ptr) (ok : Places place) where
  -- The wait queue without its first actor.
  dequeued-Implements :
      (p : Ptr) (ps : List Ptr) (s : Sched Loop) (w q : DList) (l : Links) (g : Nodes)
      → Implements place (p ∷ ps) s w l
      → Separate place (p ∷ ps) s
      → Rep g q (nodes_of place ps)
      → SameOutside (nodes_of place (p ∷ ps)) (node_of place p) l.nodes g
      → Implements place ps s q (record l { nodes = g })
  dequeued-Implements p ps s w q l g i sep r same =
      let self : 1 ≤ count p (p ∷ ps) = ground (arith, count-cons p p ps) in
      record {
        ready =
            Rep-Apart place ok l.nodes g l.readyq s.readyq (p ∷ ps) p i.ready same
              (λ a. omega (arith, sep a)) (omega (arith, sep p, self));
        waiting =
            Rep-Apart place ok l.nodes g l.waitingmsg s.waitingmsg (p ∷ ps) p i.waiting same
              (λ a. omega (arith, sep a)) (omega (arith, sep p, self));
        event = r;
        running = i.running;
        status = i.status;
      }

  unblock_one :
      (fuel : ℕ) (p : Ptr) (ps : List Ptr) (s : Sched Loop) (w : DList) (l : Links)
      → Implements place (p ∷ ps) s w l
      → Separate place (p ∷ ps) s
      → ((q : DList) (l' : Links)
          → Implements place ps (setready p s) q l'
          → Surely
              (λ r. Implements place [] (unblock_all ps (setready p s)) r.0 r.1)
              (unblock_all_at fuel q l'))
      → Surely
          (λ r. Implements place [] (unblock_all ps (setready p s)) r.0 r.1)
          (and_then (list_dequeue w l.nodes) λ (node, q', g).
            and_then
              (setready_at (get_cont node actor_node) (record l { nodes = g }))
              λ l'. unblock_all_at fuel q' l')
  unblock_one fuel p ps s w l i sep rest =
      let whole =
        λ (r : DList × Links). Implements place [] (unblock_all ps (setready p s)) r.0 r.1 in
      let self : 1 + count p ps ≤ count p (p ∷ ps) = ground (arith, count-cons p p ps) in
      Returns-then (Dequeued l.nodes w (nodes_of place (p ∷ ps))) whole (list_dequeue w l.nodes)
        (λ (node, q', g).
          and_then (setready_at (get_cont node actor_node) (record l { nodes = g }))
            λ l'. unblock_all_at fuel q' l')
        (list_dequeue-Dequeued l.nodes w (nodes_of place (p ∷ ps)) i.event)
        (λ r q g (e, rep, reset, same).
          let l' = record l { nodes = g } in
          rw (e, get_cont-member (place p) actor_node (ok.real p))
            (Surely-then (Implements place ps (setready p s) q) whole (setready_at (place p) l')
              (unblock_all_at fuel q)
              (setready_at-Implements place ok p ps s q l'
                (dequeued-Implements p ps s w q l g i sep rep same)
                (λ a. omega (arith, sep a, count-cons a p ps)) (λ _. omega (arith, sep p, self)))
              (rest q)))

  -- The loop of `unblock_all` over the nodes of a wait queue, with more fuel than the queue has
  -- actors, ends without a fault on memory that holds the queues of a scheduler, empties the wait
  -- queue and leaves the queues that the recursion over the list of actors gives; `get_cont` leads
  -- from every node back to its actor.
  pub unblock_all_at-Implements :
      (fuel : ℕ) (ps : List Ptr) (s : Sched Loop) (w : DList) (l : Links)
      → Implements place ps s w l
      → Queued ps s
      → length ps < fuel
      → Surely (λ r. Implements place [] (unblock_all ps s) r.0 r.1) (unblock_all_at fuel w l)
  unfolding unblock_all_at unblock_all
  unblock_all_at-Implements zero ps s w l i v lt = absurd (omega arith)
  unblock_all_at-Implements (suc fuel) [] s w l i v lt =
      let empty : (w.head == null) ≡ true = ground (arith, i.event.head) in rw empty i
  unblock_all_at-Implements (suc fuel) (p ∷ ps) s w l i v lt =
      let full : (w.head == null) ≡ false = ground (arith, i.event.head) in
      let sep = Separate-At place (p ∷ ps) (p ∷ ps) s v.place (λ a. omega arith) in
      rw full (
        unblock_one fuel p ps s w l i sep (λ q l' i'.
          unblock_all_at-Implements fuel ps (setready p s) q l' i' (unblocked p ps s v)
            (omega (arith, lt))))

  -- The head of the ready queue, which runs; NULL and an unchanged memory where it is empty.
  abbrev pub Next : List Ptr → Sched Loop → DList → Links → List Ptr → Ptr × Links → Type 0
  Next ws s w l [] (a, l') = (a ≡ null) × (l' ≡ l)
  Next ws s w l (p ∷ ps) (a, l') =
      (a ≡ place p) × Implements place ws (setrunning p (record s { readyq = ps })) w l'

  and_then-Next :
      (ws : List Ptr) (s : Sched Loop) (w : DList) (l : Links) (rs : List Ptr)
      → s.readyq ≡ rs
      → Implements place ws s w l
      → Separate place ws s
      → Surely (Next ws s w l rs) (next_at l)
  unfolding next_at setrunning
  and_then-Next ws s w l [] e i sep =
      let rep : Rep l.nodes l.readyq [] = rw e at i.ready in
      Returns-then (Dequeued l.nodes l.readyq []) (Next ws s w l []) (list_dequeue l.readyq l.nodes)
        (λ r. some (run_next l r)) (list_dequeue-Dequeued l.nodes l.readyq [] rep)
        (λ r q g (r0, q0, g0). rw (r0, q0, g0, get_cont-null actor_node) (refl, refl))
  and_then-Next ws s w l (p ∷ ps) e i sep =
      let rep : Rep l.nodes l.readyq (nodes_of place (p ∷ ps)) = rw e at i.ready in
      let apart : (a : Ptr) → count a (p ∷ ps) + count a s.waitingmsg + count a ws ≤ 1 =
        λ a. rw e at (sep a) in
      let self : 1 ≤ count p (p ∷ ps) = ground (arith, count-cons p p ps) in
      let real : (place p == null) ≡ false = ground (arith, ok.real p) in
      Returns-then (Dequeued l.nodes l.readyq (nodes_of place (p ∷ ps))) (Next ws s w l (p ∷ ps))
        (list_dequeue l.readyq l.nodes) (λ r. some (run_next l r))
        (list_dequeue-Dequeued l.nodes l.readyq (nodes_of place (p ∷ ps)) rep)
        (λ r q g (r0, left, reset, same).
          rw (r0, get_cont-member (place p) actor_node (ok.real p), real)
            (
              refl,
              record {
                ready = left;
                waiting =
                    Rep-Apart place ok l.nodes g l.waitingmsg s.waitingmsg (p ∷ ps) p i.waiting same
                      (λ a. omega (arith, apart a)) (omega (arith, apart p, self));
                event =
                    Rep-Apart place ok l.nodes g w ws (p ∷ ps) p i.event same
                      (λ a. omega (arith, apart a)) (omega (arith, apart p, self));
                running = refl;
                status =
                    put_status-status place ok p Status.running
                      (record (s.actor p) { status = Status.running }) s l refl i.status;
              },
            ))

  -- On memory that holds the queues of a scheduler, the head of the loop of `schdule` returns the
  -- structure of the first ready actor, which is taken out of the queue and runs, or NULL where
  -- none is ready, and then nothing changes.
  pub next_at-Next :
      (ws : List Ptr) (s : Sched Loop) (w : DList) (l : Links)
      → Implements place ws s w l
      → ((a : Ptr) → At [] s a)
      → ((a : Ptr) → count a ws ≤ waits a s.fds)
      → Surely (Next ws s w l s.readyq) (next_at l)
  next_at-Next ws s w l i at sub =
      and_then-Next ws s w l s.readyq refl i
        (Separate-At place ws [] s at (λ a. omega (arith, sub a)))
