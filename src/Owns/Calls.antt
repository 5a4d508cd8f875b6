-- ===== src/Owns/Calls.antt =====
-- The calls of an actor free no file descriptor.
use sherry.Base.{
  ℕ, zero, suc, ◌+◌, ◌≡◌, refl, pos, ℤ, not, true, ◌||◌, is_neg, is_zero, int_eq, Option, none,
  some, List, [], ◌∷◌, ◌++◌, length, length-append, ltb, get_elem?, arith, Bool-cases, inl, inr,
}
use sherry.Actor.{
  Ptr, Prog, Point, unset, entry, in_fn, after_recv, in_accept, in_read, after_write, in_exit,
  after_main,
}
use sherry.Uv.{Uv}
use sherry.Sched.{Fd, Sched, slot, deref}
use sherry.Switch.{Machine, current}
use sherry.Message.{deliver, sherry_msg_send}
use sherry.Net.{
  flat, get_fd, buffered, sherry_fd_tcp, sherry_tcp_bind, sherry_tcp_peername, sherry_listen,
  sherry_accept, accept_fd, read_loop, read_fd, sherry_read, sherry_write, sherry_fd_close,
  read_begin, write_begin, fdnew, fd_tcp_type, block_fd, read_size,
}
use sherry.Step.{then_go, call, exec}
use sherry.Queues.{Holds}
use sherry.Frame.Writes.{
  sherry_yield-Frame, finish-Frame, exit_round-Frame, recv_begin-Frame, recv_end-Frame,
  deliver-Frame, write_begin-Frame, read_begin-Frame,
}
use sherry.Frame.Calls.{live_call-Frame, live_go-Frame, listen_fd-Frame}
use sherry.Progress.{is_some}
use sherry.Stream.Fds.{FdsKept, FdsKept-Frame, FdsKept-FullFrame, sherry_spawn-fds}
use sherry.Owns.Lives.{LivesKept, fds-LivesKept, put_fd-LivesKept}

pub live-snoc :
    (xs : List (Option Fd)) (o : Option Fd) (p : ℕ)
    → is_some (flat (get_elem? xs p)) ≡ true
    → is_some (flat (get_elem? (xs ++ o ∷ []) p)) ≡ true
live-snoc [] o p h = ground (arith, h)
live-snoc (x ∷ xs) o zero h = h
live-snoc (x ∷ xs) o (suc p) h = live-snoc xs o p h

module _ {Loop : Type 0} where
  kept-run :
      (s : Sched Loop) (o : Option (Machine Loop))
      → Holds (λ m. FdsKept s m.sche) o
      → Holds (λ m. LivesKept [] s m.sche) o
  kept-run s none h = tt
  kept-run s (some m) h = fds-LivesKept [] s m.sche h

  then_go-kept :
      (k : Prog) (s : Sched Loop) (o : Option (Sched Loop))
      → Holds (FdsKept s) o
      → Holds (λ m. FdsKept s m.sche) (then_go k o)
  then_go-kept k s none h = tt
  then_go-kept k s (some t) h = h

  sherry_fd_tcp-LivesKept : (uv : Uv Loop) (s : Sched Loop) → LivesKept [] s (sherry_fd_tcp uv s).1
  unfolding sherry_fd_tcp
  sherry_fd_tcp-LivesKept uv s = record {
    kept = λ p ne h. live-snoc s.fds (some (fdnew fd_tcp_type)) p h;
    longer = omega (arith, length-append s.fds (some (fdnew fd_tcp_type) ∷ []));
  }

  block_fd-LivesKept :
      (q : Ptr) (f : Fd) (pt : Point) (s : Sched Loop)
      → get_fd q s ≡ some f
      → LivesKept [] s (block_fd q f pt s).sche
  unfolding block_fd
  block_fd-LivesKept q f pt s e =
      let k =
        put_fd-LivesKept [] q f (record f { wait_read = f.wait_read ++ s.running ∷ [] }) s e in
      record { kept = k.kept; longer = k.longer }

  read_fd-LivesKept :
      (uv : Uv Loop) (q n : ℕ) (k : ℤ → List ℕ → Prog) (o : Option Fd) (s : Sched Loop)
      → get_fd q s ≡ o
      → Holds (λ m. LivesKept [] s m.sche) (read_fd uv q n k o s)
  unfolding read_fd
  read_fd-LivesKept uv q n k none s e = tt
  read_fd-LivesKept uv q n k (some f) s e = elim (Bool-cases (not (is_zero f.rerror))) [
    | inl err ↦ rw err (fds-LivesKept [] s s refl)
    | inr ok ↦ elim (Bool-cases (ltb f.roffset (length (buffered f.rbuf)))) [
      | inl more ↦
          rw (ok, more)
            (put_fd-LivesKept [] q f (record f { roffset = f.roffset + read_size n f }) s e)
      | inr empty ↦ rw (ok, empty) (block_fd-LivesKept q f (in_read q n k) s e)
    ]
  ]

  accept_fd-LivesKept :
      (uv : Uv Loop) (srv cli : Ptr) (k : ℤ → Prog) (o c : Option Fd) (s : Sched Loop)
      → get_fd srv s ≡ o
      → Holds (λ m. LivesKept [] s m.sche) (accept_fd uv srv cli k o c s)
  unfolding accept_fd
  accept_fd-LivesKept uv srv cli k none c s e = tt
  accept_fd-LivesKept uv srv cli k (some f) none s e = tt
  accept_fd-LivesKept uv srv cli k (some f) (some c) s e =
      let r = uv.accept srv cli s.loop in
      let t = record s { loop = r.1 } in
      elim (Bool-cases (not (is_neg r.0) || not (int_eq r.0 uv.eagain))) [
        | inl b ↦ rw b (fds-LivesKept [] s t refl)
        | inr b ↦
            let l = block_fd-LivesKept srv f (in_accept srv cli k) t e in
            rw b (record { kept = l.kept; longer = l.longer })
      ]

  call-LivesKept :
      (uv : Uv Loop) (pr : Prog) (s : Sched Loop)
      → Holds (λ m. LivesKept [] s m.sche) (call uv pr s)
  unfolding call sherry_msg_send sherry_tcp_bind sherry_tcp_peername sherry_listen sherry_read
      sherry_write sherry_fd_close
  call-LivesKept uv Prog.done s =
      kept-run s (call uv Prog.done s) (finish-Frame FdsKept FdsKept-FullFrame.table s)
  call-LivesKept uv (Prog.printf n i k) s =
      fds-LivesKept [] s (record s { printed = s.printed ++ (n, i) ∷ [] }) refl
  call-LivesKept uv (Prog.spawn f k) s =
      kept-run s (call uv (Prog.spawn f k) s) (sherry_spawn-fds f s)
  call-LivesKept uv (Prog.sched_yield k) s =
      kept-run s (call uv (Prog.sched_yield k) s)
        (sherry_yield-Frame FdsKept FdsKept-Frame (in_fn k) s)
  call-LivesKept uv (Prog.msg_send dst t payload k) s =
      kept-run s (call uv (Prog.msg_send dst t payload k) s) (
        then_go-kept k s (deliver t payload (deref (slot dst s)) s)
          (deliver-Frame FdsKept FdsKept-FullFrame t payload (deref (slot dst s)) s))
  call-LivesKept uv (Prog.msg_recv k) s =
      kept-run s (call uv (Prog.msg_recv k) s)
        (recv_begin-Frame FdsKept FdsKept-Frame (current s).mailbox k s)
  call-LivesKept uv (Prog.fd_tcp k) s = sherry_fd_tcp-LivesKept uv s
  call-LivesKept uv (Prog.tcp_bind q ip port k) s =
      let r = uv.tcp_bind q ip port s.loop in
      kept-run s (call uv (Prog.tcp_bind q ip port k) s) (
        live_call-Frame FdsKept uv FdsKept-Frame k (get_fd q s) (r.0, record s { loop = r.1 }) s
          refl)
  call-LivesKept uv (Prog.tcp_peername q n k) s =
      let r = uv.getpeername q n s.loop in
      kept-run s (call uv (Prog.tcp_peername q n k) s)
        (live_call-Frame FdsKept uv FdsKept-Frame (λ err. k err r.1) (get_fd q s) (r.0, s) s refl)
  call-LivesKept uv (Prog.listen none n k) s = fds-LivesKept [] s s refl
  call-LivesKept uv (Prog.listen (some q) n k) s =
      kept-run s (call uv (Prog.listen (some q) n k) s)
        (listen_fd-Frame FdsKept uv FdsKept-Frame k q n (get_fd q s) s)
  call-LivesKept uv (Prog.accept srv cli k) s = fds-LivesKept [] s s refl
  call-LivesKept uv (Prog.read q n k) s = kept-run s (call uv (Prog.read q n k) s) (
      live_go-Frame FdsKept uv FdsKept-Frame (get_fd q s) (read_begin uv q n k s) s
        (read_begin-Frame FdsKept FdsKept-Frame uv q n k s))
  call-LivesKept uv (Prog.write q bs k) s = kept-run s (call uv (Prog.write q bs k) s) (
      live_go-Frame FdsKept uv FdsKept-Frame (get_fd q s) (write_begin uv q bs k s) s
        (write_begin-Frame FdsKept FdsKept-Frame uv q bs k s))
  call-LivesKept uv (Prog.fd_close q k) s = kept-run s (call uv (Prog.fd_close q k) s) (
      live_call-Frame FdsKept uv FdsKept-Frame k (get_fd q s)
        (pos 0, record s { loop = uv.close q s.loop }) s refl)
  call-LivesKept uv Prog.exit s = fds-LivesKept [] s s refl

  pub exec-LivesKept :
      (uv : Uv Loop) (pt : Point) (s : Sched Loop)
      → Holds (λ m. LivesKept [] s m.sche) (exec uv pt s)
  unfolding exec sherry_accept read_loop
  exec-LivesKept uv unset s = tt
  exec-LivesKept uv entry s = fds-LivesKept [] s s refl
  exec-LivesKept uv (in_fn pr) s = call-LivesKept uv pr s
  exec-LivesKept uv (after_recv k) s =
      kept-run s (exec uv (after_recv k) s)
        (recv_end-Frame FdsKept FdsKept-FullFrame (current s).mailbox k s)
  exec-LivesKept uv (in_accept srv cli k) s =
      accept_fd-LivesKept uv srv cli k (get_fd srv s) (get_fd cli s) s refl
  exec-LivesKept uv (in_read q n k) s = read_fd-LivesKept uv q n k (get_fd q s) s refl
  exec-LivesKept uv (after_write n k) s = fds-LivesKept [] s s refl
  exec-LivesKept uv in_exit s =
      kept-run s (exec uv in_exit s) (exit_round-Frame FdsKept FdsKept-FullFrame.table s)
  exec-LivesKept uv after_main s = tt
