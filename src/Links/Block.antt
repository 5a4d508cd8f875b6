-- ===== src/Links/Block.antt =====
-- The running actor joins a queue: in `sherry_msg_recv` with an empty mailbox, and in `block_fd`.
use sherry.Base.{refl, ◌+◌, ◌≤◌, ◌≡◌, Option, some, List, [], ◌∷◌, ◌++◌, count, arith}
use sherry.Actor.{Ptr, Status, Prog, Point, Msg}
use sherry.Sched.{Fd, Sched}
use sherry.Switch.{current}
use sherry.Message.{recv_begin}
use sherry.Net.{block_fd}
use sherry.Queues.{At, Surely, waits}
use sherry.Dll.{DList, list_enqueue}
use sherry.Dll.Queue.{Enqueued, list_enqueue-Enqueued}
use sherry.Links.{Links, put_status, wait_msg_at, block_at}
use sherry.Links.Places.{
  Places, place-==, node_of, nodes_of, nodes_of-append, has-nodes_of, Rep-Apart,
}
use sherry.Links.Refine.{Ensures-then, Implements, Separate-At}

module _ {Loop : Type 0} (place : Ptr → Ptr) (ok : Places place) where
  out_of_queues :
      (p : Ptr) (ws : List Ptr) (s : Sched Loop)
      → (s.actor p).status ≡ Status.running
      → At [] s p
      → count p ws ≤ waits p s.fds
      → count p s.readyq + count p s.waitingmsg + count p ws ≡ 0
  out_of_queues p ws s run at sub = ground (arith, run, at, sub)

  -- On memory that holds the queues of a scheduler, the running actor, whose mailbox is empty,
  -- joins the end of `waitingmsg` in `sherry_msg_recv` without a fault, and the other queues stay
  -- as they are.
  pub wait_msg_at-Implements :
      (k : Option Msg → Prog) (ws : List Ptr) (s : Sched Loop) (w : DList) (l : Links)
      → Implements place ws s w l
      → (current s).status ≡ Status.running
      → ((a : Ptr) → At [] s a)
      → ((a : Ptr) → count a ws ≤ waits a s.fds)
      → Surely (Implements place ws (recv_begin [] k s).sche w) (wait_msg_at l)
  unfolding wait_msg_at recv_begin
  wait_msg_at-Implements k ws s w l i run at sub =
      let p = s.running in
      let sep = Separate-At place ws [] s at (λ a. omega (arith, sub a)) in
      let out = out_of_queues p ws s run (at p) (sub p) in
      rw i.running (
        Ensures-then (Enqueued l.nodes (nodes_of place s.waitingmsg) (node_of place p))
          (Implements place ws (recv_begin [] k s).sche w)
          (list_enqueue l.waitingmsg (node_of place p) l.nodes)
          (λ (q, g). some (record (put_status (place p) Status.wait_msg l) {
            running = place p;
            waitingmsg = q;
            nodes = g;
          }))
          (list_enqueue-Enqueued l.nodes l.waitingmsg (nodes_of place s.waitingmsg)
            (node_of place p) i.waiting (has-nodes_of place ok p s.waitingmsg (omega (arith, out)))
            (omega arith))
          (λ q g (r, same). record {
            ready =
                Rep-Apart place ok l.nodes g l.readyq s.readyq s.waitingmsg p i.ready same
                  (λ a. omega (arith, sep a)) (omega (arith, out));
            waiting = rw (nodes_of-append place s.waitingmsg (p ∷ [])) r;
            event =
                Rep-Apart place ok l.nodes g w ws s.waitingmsg p i.event same
                  (λ a. omega (arith, sep a)) (omega (arith, out));
            running = refl;
            status = λ a. ground (arith, place-== place ok p a, i.status a);
          }))

  -- On memory that holds the queues of a scheduler, the running actor joins the end of a wait queue
  -- by `block_fd` without a fault, and the other queues stay as they are.
  pub block_at-Implements :
      (fd : Ptr) (f : Fd) (pt : Point) (s : Sched Loop) (w : DList) (l : Links)
      → Implements place f.wait_read s w l
      → (current s).status ≡ Status.running
      → ((a : Ptr) → At [] s a)
      → ((a : Ptr) → count a f.wait_read ≤ waits a s.fds)
      → Surely
          (λ r. Implements place (f.wait_read ++ s.running ∷ []) (block_fd fd f pt s).sche r.0 r.1)
          (block_at w l)
  unfolding block_at block_fd
  block_at-Implements fd f pt s w l i run at sub =
      let p = s.running in
      let ws = f.wait_read in
      let sep = Separate-At place ws [] s at (λ a. omega (arith, sub a)) in
      let out = out_of_queues p ws s run (at p) (sub p) in
      rw i.running (
        Ensures-then (Enqueued l.nodes (nodes_of place ws) (node_of place p))
          (λ (r : DList × Links). Implements place (ws ++ p ∷ []) (block_fd fd f pt s).sche r.0 r.1)
          (list_enqueue w (node_of place p) l.nodes)
          (λ (q, g).
            some
              (q, record (put_status (place p) Status.wait_ev l) { running = place p; nodes = g }))
          (list_enqueue-Enqueued l.nodes w (nodes_of place ws) (node_of place p) i.event
            (has-nodes_of place ok p ws (omega (arith, out))) (omega arith))
          (λ q g (r, same). record {
            ready =
                Rep-Apart place ok l.nodes g l.readyq s.readyq ws p i.ready same
                  (λ a. omega (arith, sep a)) (omega (arith, out));
            waiting =
                Rep-Apart place ok l.nodes g l.waitingmsg s.waitingmsg ws p i.waiting same
                  (λ a. omega (arith, sep a)) (omega (arith, out));
            event = rw (nodes_of-append place ws (p ∷ [])) r;
            running = refl;
            status = λ a. ground (arith, place-== place ok p a, i.status a);
          }))
