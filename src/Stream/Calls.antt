-- ===== src/Stream/Calls.antt =====
-- What the calls of an actor do to a stream: only a read takes bytes from it.
use sherry.Base.{
  ℕ, zero, suc, ◌≡◌, refl, pos, ℤ, not, ◌||◌, is_neg, int_eq, Option, none, some, List, [], ◌∷◌,
  ◌++◌, get_elem?, Bool-cases, inl, inr,
}
use sherry.Actor.{
  Ptr, Prog, Point, unset, entry, in_fn, after_recv, in_accept, in_read, after_write, in_exit,
  after_main,
}
use sherry.Uv.{Uv}
use sherry.Sched.{Fd, Sched, slot, deref}
use sherry.Switch.{in_actor, Machine, current}
use sherry.Message.{deliver, sherry_msg_send}
use sherry.Net.{
  flat, get_fd, sherry_fd_tcp, sherry_tcp_bind, sherry_tcp_peername, sherry_listen, sherry_accept,
  accept_fd, read_loop, sherry_read, sherry_write, sherry_fd_close, read_begin, write_begin, fdnew,
  fd_tcp_type, block_fd,
}
use sherry.Step.{then_go, call, exec}
use sherry.Queues.{Holds}
use sherry.Frame.Writes.{
  sherry_yield-Frame, finish-Frame, exit_round-Frame, recv_begin-Frame, recv_end-Frame,
  deliver-Frame, write_begin-Frame, read_begin-Frame,
}
use sherry.Frame.Calls.{live_call-Frame, live_go-Frame, listen_fd-Frame}
use sherry.Stream.{unread_of, given_at, stream}
use sherry.Stream.Fds.{
  FdsKept, FdsKept-stream, FdsKept-Frame, FdsKept-FullFrame, sherry_spawn-fds, block_fd-stream,
}
use sherry.Stream.Callbacks.{Flow, Flow-kept}
use sherry.Stream.Read.{read_fd-Flow}

unread-snoc :
    (xs : List (Option Fd)) (p : ℕ)
    → unread_of (flat (get_elem? (xs ++ some (fdnew fd_tcp_type) ∷ []) p))
      ≡ unread_of (flat (get_elem? xs p))
unread-snoc [] zero = refl
unread-snoc [] (suc p) = refl
unread-snoc (x ∷ xs) zero = refl
unread-snoc (x ∷ xs) (suc p) = unread-snoc xs p

module _ {Loop : Type 0} (p : Ptr) where
  kept-run :
      (s : Sched Loop) (o : Option (Machine Loop))
      → Holds (λ m. FdsKept s m.sche) o
      → Holds (λ m. Flow p [] [] 0 s m.sche) o
  kept-run s none h = tt
  kept-run s (some m) h = Flow-kept p s m.sche (FdsKept-stream p s m.sche h)

  then_go-kept :
      (k : Prog) (s : Sched Loop) (o : Option (Sched Loop))
      → Holds (FdsKept s) o
      → Holds (λ m. FdsKept s m.sche) (then_go k o)
  then_go-kept k s none h = tt
  then_go-kept k s (some t) h = h

  -- A new file descriptor has nothing to read.
  sherry_fd_tcp-stream :
      (uv : Uv Loop) (s : Sched Loop) → stream p (sherry_fd_tcp uv s).1 ≡ stream p s
  unfolding sherry_fd_tcp
  sherry_fd_tcp-stream uv s = unread-snoc s.fds p

  accept_fd-Flow :
      (uv : Uv Loop) (srv cli : Ptr) (k : ℤ → Prog) (o c : Option Fd) (s : Sched Loop)
      → get_fd srv s ≡ o
      → Holds (λ m. Flow p [] [] 0 s m.sche) (accept_fd uv srv cli k o c s)
  unfolding accept_fd
  accept_fd-Flow uv srv cli k none c s e = tt
  accept_fd-Flow uv srv cli k (some f) none s e = tt
  accept_fd-Flow uv srv cli k (some f) (some c) s e =
      let r = uv.accept srv cli s.loop in
      let t = record s { loop = r.1 } in
      elim (Bool-cases (not (is_neg r.0) || not (int_eq r.0 uv.eagain))) [
        | inl b ↦ rw b (Flow-kept p s t refl)
        | inr b ↦ rw b (
            Flow-kept p s (block_fd srv f (in_accept srv cli k) t).sche
              (block_fd-stream p srv f (in_accept srv cli k) t e))
      ]

  call-Flow :
      (uv : Uv Loop) (pr : Prog) (s : Sched Loop)
      → Holds (λ m. Flow p [] [] 0 s m.sche) (call uv pr s)
  unfolding call sherry_msg_send sherry_tcp_bind sherry_tcp_peername sherry_listen sherry_read
      sherry_write sherry_fd_close
  call-Flow uv Prog.done s =
      kept-run s (call uv Prog.done s) (finish-Frame FdsKept FdsKept-FullFrame.table s)
  call-Flow uv (Prog.printf n i k) s = Flow-kept p s s refl
  call-Flow uv (Prog.spawn f k) s = kept-run s (call uv (Prog.spawn f k) s) (sherry_spawn-fds f s)
  call-Flow uv (Prog.sched_yield k) s =
      kept-run s (call uv (Prog.sched_yield k) s)
        (sherry_yield-Frame FdsKept FdsKept-Frame (in_fn k) s)
  call-Flow uv (Prog.msg_send dst t payload k) s =
      kept-run s (call uv (Prog.msg_send dst t payload k) s) (
        then_go-kept k s (deliver t payload (deref (slot dst s)) s)
          (deliver-Frame FdsKept FdsKept-FullFrame t payload (deref (slot dst s)) s))
  call-Flow uv (Prog.msg_recv k) s =
      kept-run s (call uv (Prog.msg_recv k) s)
        (recv_begin-Frame FdsKept FdsKept-Frame (current s).mailbox k s)
  call-Flow uv (Prog.fd_tcp k) s = Flow-kept p s (sherry_fd_tcp uv s).1 (sherry_fd_tcp-stream uv s)
  call-Flow uv (Prog.tcp_bind q ip port k) s =
      let r = uv.tcp_bind q ip port s.loop in
      kept-run s (call uv (Prog.tcp_bind q ip port k) s) (
        live_call-Frame FdsKept uv FdsKept-Frame k (get_fd q s) (r.0, record s { loop = r.1 }) s
          refl)
  call-Flow uv (Prog.tcp_peername q n k) s =
      let r = uv.getpeername q n s.loop in
      kept-run s (call uv (Prog.tcp_peername q n k) s)
        (live_call-Frame FdsKept uv FdsKept-Frame (λ err. k err r.1) (get_fd q s) (r.0, s) s refl)
  call-Flow uv (Prog.listen none n k) s = Flow-kept p s s refl
  call-Flow uv (Prog.listen (some q) n k) s =
      kept-run s (call uv (Prog.listen (some q) n k) s)
        (listen_fd-Frame FdsKept uv FdsKept-Frame k q n (get_fd q s) s)
  call-Flow uv (Prog.accept srv cli k) s = Flow-kept p s s refl
  call-Flow uv (Prog.read q n k) s = kept-run s (call uv (Prog.read q n k) s) (
      live_go-Frame FdsKept uv FdsKept-Frame (get_fd q s) (read_begin uv q n k s) s
        (read_begin-Frame FdsKept FdsKept-Frame uv q n k s))
  call-Flow uv (Prog.write q bs k) s = kept-run s (call uv (Prog.write q bs k) s) (
      live_go-Frame FdsKept uv FdsKept-Frame (get_fd q s) (write_begin uv q bs k s) s
        (write_begin-Frame FdsKept FdsKept-Frame uv q bs k s))
  call-Flow uv (Prog.fd_close q k) s = kept-run s (call uv (Prog.fd_close q k) s) (
      live_call-Frame FdsKept uv FdsKept-Frame k (get_fd q s)
        (pos 0, record s { loop = uv.close q s.loop }) s refl)
  call-Flow uv Prog.exit s = Flow-kept p s s refl

  pub exec-Flow :
      (uv : Uv Loop) (pt : Point) (s : Sched Loop)
      → Holds (λ m. Flow p (given_at p (in_actor pt) s) [] 0 s m.sche) (exec uv pt s)
  unfolding exec given_at sherry_accept read_loop
  exec-Flow uv unset s = tt
  exec-Flow uv entry s = Flow-kept p s s refl
  exec-Flow uv (in_fn pr) s = call-Flow uv pr s
  exec-Flow uv (after_recv k) s =
      kept-run s (exec uv (after_recv k) s)
        (recv_end-Frame FdsKept FdsKept-FullFrame (current s).mailbox k s)
  exec-Flow uv (in_accept srv cli k) s =
      accept_fd-Flow uv srv cli k (get_fd srv s) (get_fd cli s) s refl
  exec-Flow uv (in_read q n k) s = read_fd-Flow p uv q n k (get_fd q s) s refl
  exec-Flow uv (after_write n k) s = Flow-kept p s s refl
  exec-Flow uv in_exit s =
      kept-run s (exec uv in_exit s) (exit_round-Frame FdsKept FdsKept-FullFrame.table s)
  exec-Flow uv after_main s = tt
