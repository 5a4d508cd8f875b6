-- ===== src/Links/Wake.antt =====
-- The queue of the actors that wait for a message: who joins it, and who is woken.
use sherry.Base.{
  ◌≤◌, ◌≡◌, ap, ◌∙◌, List, [], ◌∷◌, ◌++◌, ◌==◌, to_nat, count, arith, Bool-cases, inl, inr, erase,
  count-erase,
}
use sherry.Actor.{Ptr, is_wait_msg}
use sherry.Sched.{Sched, setready}
use sherry.Message.{wake}
use sherry.Queues.{At, Surely, waits}
use sherry.Dll.{DList, Nodes, list_erase}
use sherry.Dll.Rep.{Rep, SameOutside}
use sherry.Dll.Erase.{Erased, list_erase-Erased}
use sherry.Links.{Links, setready_at, wake_at}
use sherry.Links.Places.{Places, node_of, nodes_of, nodes_of-append, Rep-Apart, Split, split}
use sherry.Links.Refine.{Returns-then, Implements, Separate, Separate-At, setready_at-Implements}

module _ {Loop : Type 0} (place : Ptr → Ptr) (ok : Places place) where
  -- The queue without the actor.
  erased-Implements :
      (p : Ptr) (ws : List Ptr) (s : Sched Loop) (w : DList) (l : Links) (at : Split p s.waitingmsg)
      (q : DList) (g : Nodes)
      → Implements place ws s w l
      → Separate place ws s
      → count p s.readyq ≡ 0
      → count p ws ≡ 0
      → Rep g q (nodes_of place at.before ++ nodes_of place at.behind)
      → SameOutside (nodes_of place s.waitingmsg) (node_of place p) l.nodes g
      → Implements place ws
          (record s { waitingmsg = erase p s.waitingmsg })
          w
          (record l { waitingmsg = q; nodes = g })
  erased-Implements p ws s w l at q g i sep r0 w0 r same = record {
    ready =
        Rep-Apart place ok l.nodes g l.readyq s.readyq s.waitingmsg p i.ready same
          (λ a. omega (arith, sep a)) r0;
    waiting = rw (at.erased, nodes_of-append place at.before at.behind) r;
    event =
        Rep-Apart place ok l.nodes g w ws s.waitingmsg p i.event same (λ a. omega (arith, sep a))
          w0;
    running = i.running;
    status = i.status;
  }

  -- Memory whose nodes are linked as the queues of a scheduler say, where every actor hangs in the
  -- queue that its status names: waking an actor on it, as `sherry_msg_send` does, by `list_erase`
  -- and `setready`, ends without a fault and leaves memory that is linked as the scheduler's queues
  -- say after `wake`.
  pub wake_at-Implements :
      (p : Ptr) (ws : List Ptr) (s : Sched Loop) (w : DList) (l : Links)
      → Implements place ws s w l
      → ((a : Ptr) → At [] s a)
      → ((a : Ptr) → count a ws ≤ waits a s.fds)
      → Surely (Implements place ws (wake p s) w) (wake_at (place p) l)
  unfolding wake_at wake
  wake_at-Implements p ws s w l i at sub =
      let sep = Separate-At place ws [] s at (λ a. omega (arith, sub a)) in
      elim (Bool-cases (is_wait_msg (s.actor p).status))
        as (λ _. Surely (Implements place ws (wake p s) w) (wake_at (place p) l)) [
          | inr h ↦ rw (i.status p, h) i
          | inl h ↦
              let one : count p s.waitingmsg ≡ 1 = ground (arith, h, (at p).waiting) in
              let cut = split p s.waitingmsg (ground (arith, one)) in
              let whole =
                ap (nodes_of place) cut.whole ∙ nodes_of-append place cut.before (p ∷ cut.behind) in
              let self : to_nat (p == p) ≡ 1 = ground arith in
              let s' = record s { waitingmsg = erase p s.waitingmsg } in
              rw (i.status p, h)
                (Returns-then
                  (Erased l.nodes (nodes_of place cut.before) (node_of place p)
                    (nodes_of place cut.behind))
                  (Implements place ws (setready p s') w)
                  (list_erase l.waitingmsg (node_of place p) l.nodes)
                  (λ (next, q, g). setready_at (place p) (record l { waitingmsg = q; nodes = g }))
                  (list_erase-Erased l.nodes l.waitingmsg (nodes_of place cut.before)
                    (node_of place p) (nodes_of place cut.behind) (rw (← whole) i.waiting))
                  (λ r q g e.
                    setready_at-Implements place ok p ws s' w
                      (record l { waitingmsg = q; nodes = g })
                      (erased-Implements p ws s w l cut q g i sep (omega (arith, sep p, one))
                        (omega (arith, sep p, one)) e.rep (rw whole e.same))
                      (λ a. omega (arith, sep a, count-erase a p s.waitingmsg))
                      (λ _. omega (arith, sep p, one, count-erase p p s.waitingmsg, self))))
        ]
