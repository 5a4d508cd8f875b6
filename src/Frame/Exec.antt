-- ===== src/Frame/Exec.antt =====
-- Every step of an actor, made of the writes of a `FullFrame` and of `sherry_spawn`.
use sherry.Base.{ℤ, ◌≡◌, refl, ap, pos, ◌∷◌, ◌++◌, length, Option, none, some, []}
use sherry.Actor.{
  Prog, Point, unset, entry, in_fn, after_recv, in_accept, in_read, after_write, in_exit,
  after_main,
}
use sherry.Uv.{Uv}
use sherry.Sched.{Sched, slot, deref}
use sherry.Switch.{current, sherry_spawn}
use sherry.Message.{deliver, sherry_msg_send}
use sherry.Net.{
  get_fd, sherry_fd_tcp, sherry_tcp_bind, sherry_tcp_peername, sherry_listen, sherry_accept,
  read_loop, sherry_read, sherry_write, sherry_fd_close, read_begin, write_begin, fdnew,
  fd_tcp_type,
}
use sherry.Step.{then_go, call, exec}
use sherry.Queues.{Holds}
use sherry.Frame.{FdFrame, FullFrame}
use sherry.Frame.Writes.{
  loop-Frame, sherry_yield-Frame, finish-Frame, exit_round-Frame, recv_begin-Frame, recv_end-Frame,
  deliver-Frame, write_begin-Frame, read_begin-Frame,
}
use sherry.Frame.Calls.{
  live_call-Frame, live_go-Frame, listen_fd-Frame, accept_fd-Frame, read_fd-Frame,
}

module _ {Loop : Type 0} (R : Sched Loop → Sched Loop → Type 0) (h : FullFrame R) (w : FdFrame R)
    (uv : Uv Loop) where
  then_go-Frame :
      (k : Prog) (o : Option (Sched Loop)) (s : Sched Loop)
      → Holds (R s) o
      → Holds (λ m. R s m.sche) (then_go k o)
  then_go-Frame k none s r = tt
  then_go-Frame k (some t) s r = r

  call-Frame :
      (pr : Prog) (s : Sched Loop)
      → ((f : Prog) (k : ℤ → Prog) → pr ≡ Prog.spawn f k → R s (sherry_spawn f s).1)
      → Holds (λ m. R s m.sche) (call uv pr s)
  unfolding call sherry_msg_send sherry_fd_tcp sherry_tcp_bind sherry_tcp_peername sherry_listen
      sherry_read sherry_write sherry_fd_close
  call-Frame Prog.done s sp = finish-Frame R h.table s
  call-Frame (Prog.printf n i k) s sp =
      h.table.frame.outside s.requests s.waitingmsg s.loop (s.printed ++ (n, i) ∷ []) s
  call-Frame (Prog.spawn f k) s sp = sp f k refl
  call-Frame (Prog.sched_yield k) s sp = sherry_yield-Frame R h.table.frame (in_fn k) s
  call-Frame (Prog.msg_send dst t payload k) s sp =
      then_go-Frame k (deliver t payload (deref (slot dst s)) s) s
        (deliver-Frame R h t payload (deref (slot dst s)) s)
  call-Frame (Prog.msg_recv k) s sp = recv_begin-Frame R h.table.frame (current s).mailbox k s
  call-Frame (Prog.fd_tcp k) s sp =
      let fds = s.fds ++ some (fdnew fd_tcp_type) ∷ [] in
      let t = record s { fds = fds } in
      h.table.frame.after s t (sherry_fd_tcp uv s).1 (w.fds fds s)
        (loop-Frame R h.table.frame (uv.tcp_init (length s.fds) s.loop) t)
  call-Frame (Prog.tcp_bind q ip port k) s sp =
      live_call-Frame R uv h.table.frame k (get_fd q s)
        ((uv.tcp_bind q ip port s.loop).0, record s { loop = (uv.tcp_bind q ip port s.loop).1 }) s
        (loop-Frame R h.table.frame (uv.tcp_bind q ip port s.loop).1 s)
  call-Frame (Prog.tcp_peername q n k) s sp =
      live_call-Frame R uv h.table.frame (λ err. k err (uv.getpeername q n s.loop).1) (get_fd q s)
        ((uv.getpeername q n s.loop).0, s) s (h.table.frame.same s)
  call-Frame (Prog.listen none n k) s sp = h.table.frame.same s
  call-Frame (Prog.listen (some q) n k) s sp =
      listen_fd-Frame R uv h.table.frame k q n (get_fd q s) s
  call-Frame (Prog.accept srv cli k) s sp = h.table.frame.same s
  call-Frame (Prog.read q n k) s sp =
      live_go-Frame R uv h.table.frame (get_fd q s) (read_begin uv q n k s) s
        (read_begin-Frame R h.table.frame uv q n k s)
  call-Frame (Prog.write q bs k) s sp =
      live_go-Frame R uv h.table.frame (get_fd q s) (write_begin uv q bs k s) s
        (write_begin-Frame R h.table.frame uv q bs k s)
  call-Frame (Prog.fd_close q k) s sp =
      live_call-Frame R uv h.table.frame k (get_fd q s)
        (pos 0, record s { loop = uv.close q s.loop }) s
        (loop-Frame R h.table.frame (uv.close q s.loop) s)
  call-Frame Prog.exit s sp = h.table.frame.same s

  pub exec-Frame :
      (pt : Point) (s : Sched Loop)
      → ((f : Prog) (k : ℤ → Prog) → pt ≡ in_fn (Prog.spawn f k) → R s (sherry_spawn f s).1)
      → Holds (λ m. R s m.sche) (exec uv pt s)
  unfolding exec sherry_accept read_loop
  exec-Frame unset s sp = tt
  exec-Frame entry s sp = h.table.frame.same s
  exec-Frame (in_fn pr) s sp = call-Frame pr s (λ f k e. sp f k (ap in_fn e))
  exec-Frame (after_recv k) s sp = recv_end-Frame R h (current s).mailbox k s
  exec-Frame (in_accept srv cli k) s sp =
      accept_fd-Frame R uv w srv cli k (get_fd srv s) (get_fd cli s) s
  exec-Frame (in_read q n k) s sp = read_fd-Frame R uv w q n k (get_fd q s) s
  exec-Frame (after_write n k) s sp = h.table.frame.same s
  exec-Frame in_exit s sp = exit_round-Frame R h.table s
  exec-Frame after_main s sp = tt
