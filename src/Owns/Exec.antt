-- ===== src/Owns/Exec.antt =====
-- Every step of an actor keeps the discipline.
use sherry.Base.{◌<◌, ◌≡◌, none, some, List, ◌++◌, arith}
use sherry.Actor.{
  Ptr, Prog, Point, unset, entry, in_fn, after_recv, in_accept, in_read, after_write, in_exit,
  after_main,
}
use sherry.Uv.{Uv}
use sherry.Sched.{Sched}
use sherry.Switch.{in_actor, current, goes_on}
use sherry.Net.{
  get_fd, sherry_tcp_bind, sherry_tcp_peername, sherry_listen, sherry_read, sherry_write,
  sherry_accept, read_loop,
}
use sherry.Step.{call, exec}
use sherry.Queues.{Holds}
use sherry.Owns.{Uses, UsesAt, place, Owned, Keeps, closed_at}
use sherry.Owns.Lands.{
  sherry_yield-Lands, live_call-Lands, listen_fd-Lands, accept_fd-Lands, read_fd-Lands,
  read_begin-Lands, write_begin-Lands, recv_begin-Lands, recv_end-Lands, finish-Lands,
  exit_round-Lands,
}
use sherry.Owns.Step.{stay-Keeps, close-Keeps}
use sherry.Owns.Make.{make-Keeps, hand-Keeps}

module _ {Loop : Type 0} (uv : Uv Loop) (own : Ptr → List Ptr) (closed : List Ptr) where
  call-Keeps :
      (pr : Prog) (s : Sched Loop)
      → Owned own closed (goes_on (in_fn pr) s)
      → s.running < s.next_actor
      → Uses (own s.running) pr
      → Holds (Keeps (closed_at (in_actor (in_fn pr)) ++ closed)) (exec uv (in_fn pr) s)
  unfolding exec call closed_at sherry_tcp_bind sherry_tcp_peername sherry_listen sherry_read
      sherry_write
  call-Keeps Prog.done s v lt u =
      stay-Keeps uv own closed (in_fn Prog.done) s v (λ f j. cc)
        (finish-Lands (own s.running) (current s).fn s)
  call-Keeps (Prog.printf n i k) s v lt u =
      stay-Keeps uv own closed (in_fn (Prog.printf n i k)) s v (λ f j. cc) u
  call-Keeps (Prog.spawn f k) s v lt u = hand-Keeps uv own closed f k s v lt u
  call-Keeps (Prog.sched_yield k) s v lt u =
      stay-Keeps uv own closed (in_fn (Prog.sched_yield k)) s v (λ f j. cc)
        (sherry_yield-Lands (own s.running) (current s).fn (in_fn k) s u)
  call-Keeps (Prog.msg_send dst t x k) s v lt u = absurd u
  call-Keeps (Prog.msg_recv k) s v lt u =
      stay-Keeps uv own closed (in_fn (Prog.msg_recv k)) s v (λ f j. cc)
        (recv_begin-Lands (own s.running) (current s).fn (current s).mailbox k s u)
  call-Keeps (Prog.fd_tcp k) s v lt u = make-Keeps uv own closed k s v lt u
  call-Keeps (Prog.tcp_bind p ip port k) s v lt (has, u) =
      let r = uv.tcp_bind p ip port s.loop in
      stay-Keeps uv own closed (in_fn (Prog.tcp_bind p ip port k)) s v (λ f j. cc)
        (live_call-Lands (own s.running) (current s).fn s.running k (get_fd p s)
          (r.0, record s { loop = r.1 }) u)
  call-Keeps (Prog.tcp_peername p n k) s v lt (has, u) =
      let r = uv.getpeername p n s.loop in
      stay-Keeps uv own closed (in_fn (Prog.tcp_peername p n k)) s v (λ f j. cc)
        (live_call-Lands (own s.running) (current s).fn s.running (λ err. k err r.1) (get_fd p s)
          (r.0, s) (λ err. u err r.1))
  call-Keeps (Prog.listen none n k) s v lt u =
      stay-Keeps uv own closed (in_fn (Prog.listen none n k)) s v (λ f j. cc) (u _)
  call-Keeps (Prog.listen (some p) n k) s v lt (has, u) =
      stay-Keeps uv own closed (in_fn (Prog.listen (some p) n k)) s v (λ f j. cc)
        (listen_fd-Lands (own s.running) (current s).fn uv s.running k p n (get_fd p s) s u)
  call-Keeps (Prog.accept srv cli k) s v lt u =
      stay-Keeps uv own closed (in_fn (Prog.accept srv cli k)) s v (λ f j. cc) u
  call-Keeps (Prog.read p n k) s v lt u =
      stay-Keeps uv own closed (in_fn (Prog.read p n k)) s v (λ f j. cc)
        (read_begin-Lands (own s.running) (current s).fn uv s.running p n k (get_fd p s) s u)
  call-Keeps (Prog.write p bs k) s v lt (has, u) =
      stay-Keeps uv own closed (in_fn (Prog.write p bs k)) s v (λ f j. cc)
        (write_begin-Lands (own s.running) (current s).fn uv p bs k (get_fd p s) s u)
  call-Keeps (Prog.fd_close p k) s v lt u = close-Keeps uv own closed p k s v u
  call-Keeps Prog.exit s v lt u = stay-Keeps uv own closed (in_fn Prog.exit) s v (λ f j. cc) tt

  pub exec-Keeps :
      (pt : Point) (s : Sched Loop)
      → Owned own closed (goes_on pt s)
      → s.running < s.next_actor
      → UsesAt (own s.running) (current s).fn pt
      → Holds (Keeps (closed_at (in_actor pt) ++ closed)) (exec uv pt s)
  unfolding exec closed_at sherry_accept read_loop
  exec-Keeps unset s v lt u = tt
  exec-Keeps entry s v lt u = stay-Keeps uv own closed entry s v (λ f j. cc) u
  exec-Keeps (in_fn pr) s v lt u = call-Keeps pr s v lt u
  exec-Keeps (after_recv k) s v lt u =
      stay-Keeps uv own closed (after_recv k) s v (λ f j. cc)
        (recv_end-Lands (own s.running) (current s).fn s.running (current s).mailbox k s u)
  exec-Keeps (in_accept srv cli k) s v lt u =
      stay-Keeps uv own closed (in_accept srv cli k) s v (λ f j. cc)
        (accept_fd-Lands (own s.running) (current s).fn uv srv cli k (get_fd srv s) (get_fd cli s) s
          u)
  exec-Keeps (in_read p n k) s v lt u =
      stay-Keeps uv own closed (in_read p n k) s v (λ f j. cc)
        (read_fd-Lands (own s.running) (current s).fn uv p n k (get_fd p s) s u)
  exec-Keeps (after_write n k) s v lt u =
      stay-Keeps uv own closed (after_write n k) s v (λ f j. cc) u
  exec-Keeps in_exit s v lt u =
      stay-Keeps uv own closed in_exit s v (λ f j. cc)
        (exit_round-Lands (own s.running) (current s).fn s)
  exec-Keeps after_main s v lt u = tt

  here_place : (pt : Point) (s : Sched Loop) → place (in_actor pt) s s.running ≡ pt
  here_place pt s = ground arith

  -- The running actor goes on in code that uses only what it owns.
  pub running-UsesAt :
      (pt : Point) (s : Sched Loop)
      → Owned own closed (goes_on pt s)
      → s.running < s.next_actor
      → UsesAt (own s.running) (current s).fn pt
  running-UsesAt pt s v lt = rw (← here_place pt s) (v.uses s.running lt)
