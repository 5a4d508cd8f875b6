-- ===== src/Waits/Exec.antt =====
-- A step of the running actor leaves every actor in a queue that waits for an event, but for the
-- writer of a write that libuv does not take.
use sherry.Base.{
  ℕ, ℤ, ◌+◌, ◌≡◌, refl, Option, none, some, List, [], ◌∷◌, ◌++◌, arith, count-cons, count-snoc,
  Bool-cases, inl, inr, length, is_neg, is_zero, ◌||◌, not, int_eq, ltb, ◌==◌, if◌then◌else◌,
}
use sherry.Actor.{
  Ptr, Prog, Point, unset, entry, in_fn, after_recv, in_accept, in_read, after_write, in_exit,
  after_main,
}
use sherry.Uv.{Uv}
use sherry.Sched.{Fd, Sched, slot, deref}
use sherry.Switch.{in_actor, current}
use sherry.Message.{sherry_msg_send}
use sherry.Net.{
  get_fd, fd_tcp_type, buffered, read_size, sherry_fd_close, sherry_tcp_bind, sherry_tcp_peername,
  listen_fd, sherry_listen, accept_fd, sherry_accept, read_fd, read_loop, read_begin, sherry_read,
  write_begin, sherry_write,
}
use sherry.Step.{call, exec, then_run}
use sherry.Queues.{Holds}
use sherry.Queues.Net.{waits-set}
use sherry.Queues.Calls.{live-Holds}
use sherry.Waits.{Waiting, deserted_at}
use sherry.Waits.Calls.{
  finish-Waiting, exit_round-Waiting, sherry_spawn-Waiting, deliver-Waiting, recv_begin-Waiting,
  recv_end-Waiting, sherry_fd_tcp-Waiting, block_fd-Waiting, sherry_yield-Waiting,
}

module _ {Loop : Type 0} (uv : Uv Loop) (ls : List Ptr) where
  then_run-Waiting :
      (k : ℤ → Prog) (o : Option (ℤ × Sched Loop))
      → Holds (λ r. Waiting ls r.1) o
      → Holds (λ t. Waiting ls t.sche) (then_run k o)
  then_run-Waiting k none h = tt
  then_run-Waiting k (some (r, s)) h = h

  listen_fd-Waiting :
      (p : Ptr) (backlog : ℕ) (o : Option Fd) (s : Sched Loop)
      → Waiting ls s
      → Holds (λ r. Waiting ls r.1) (listen_fd uv p backlog o s)
  unfolding listen_fd
  listen_fd-Waiting p backlog none s v = tt
  listen_fd-Waiting p backlog (some f) s v = elim (Bool-cases (f.type == fd_tcp_type)) [
    | inl e ↦ rw e v
    | inr e ↦ rw e v
  ]

  sherry_listen-Waiting :
      (o : Option Ptr) (backlog : ℕ) (s : Sched Loop)
      → Waiting ls s
      → Holds (λ r. Waiting ls r.1) (sherry_listen uv o backlog s)
  unfolding sherry_listen
  sherry_listen-Waiting none backlog s v = v
  sherry_listen-Waiting (some p) backlog s v = listen_fd-Waiting p backlog (get_fd p s) s v

  accept_fd-Waiting :
      (srv cli : Ptr) (k : ℤ → Prog) (o c : Option Fd) (s : Sched Loop)
      → get_fd srv s ≡ o
      → Waiting ls s
      → Holds (λ t. Waiting ls t.sche) (accept_fd uv srv cli k o c s)
  unfolding accept_fd
  accept_fd-Waiting srv cli k none c s e v = tt
  accept_fd-Waiting srv cli k (some f) none s e v = tt
  accept_fd-Waiting srv cli k (some f) (some c) s e v =
      let r = uv.accept srv cli s.loop in
      elim (Bool-cases (not (is_neg r.0) || not (int_eq r.0 uv.eagain))) [
        | inl done ↦ rw done v
        | inr blocks ↦
            rw blocks
              (block_fd-Waiting ls srv f (in_accept srv cli k) (record s { loop = r.1 }) e v)
      ]

  read_fd-Waiting :
      (p n : ℕ) (k : ℤ → List ℕ → Prog) (o : Option Fd) (s : Sched Loop)
      → get_fd p s ≡ o
      → Waiting ls s
      → Holds (λ t. Waiting ls t.sche) (read_fd uv p n k o s)
  unfolding read_fd
  read_fd-Waiting p n k none s e v = tt
  read_fd-Waiting p n k (some f) s e v = elim (Bool-cases (not (is_zero f.rerror))) [
    | inl err ↦ rw err v
    | inr ok ↦ elim (Bool-cases (ltb f.roffset (length (buffered f.rbuf)))) [
      | inl more ↦
          let g = record f { roffset = f.roffset + read_size n f } in
          rw (ok, more) (λ q. ground (arith, v q, waits-set q s.fds p f (some g) e))
      | inr empty ↦ rw (ok, empty) (block_fd-Waiting ls p f (in_read p n k) s e v)
    ]
  ]

  read_begin-Waiting :
      (p n : ℕ) (k : ℤ → List ℕ → Prog) (s : Sched Loop)
      → Waiting ls s
      → Waiting ls (read_begin uv p n k s).sche
  unfolding read_begin
  read_begin-Waiting p n k s v = elim (Bool-cases (not (is_zero (uv.read_start p s.loop).0))) [
    | inl e ↦ rw e v
    | inr e ↦ rw e v
  ]

  -- The writer is in the request, or libuv does not take the write.
  write_begin-Waiting :
      (p : Ptr) (bytes : List ℕ) (k : ℕ → Prog) (s : Sched Loop)
      → Waiting ls s
      → Waiting
          ((if is_neg (uv.write p bytes s.loop).0 then s.running ∷ [] else []) ++ ls)
          (write_begin uv p bytes k s).sche
  unfolding write_begin
  write_begin-Waiting p bytes k s v = elim (Bool-cases (is_neg (uv.write p bytes s.loop).0)) [
    | inl e ↦ rw e (λ q. ground (arith, v q, count-cons q s.running ls))
    | inr e ↦ rw e (λ q. ground (arith, v q, count-snoc q s.requests s.running))
  ]

  call-Waiting :
      (pr : Prog) (s : Sched Loop)
      → Waiting ls s
      → Holds (λ t. Waiting (deserted_at uv (in_actor (in_fn pr)) s ++ ls) t.sche) (call uv pr s)
  unfolding call sherry_msg_send sherry_tcp_bind sherry_tcp_peername sherry_read sherry_write
      sherry_fd_close
  call-Waiting Prog.done s v = finish-Waiting ls s v
  call-Waiting (Prog.printf n i k) s v = v
  call-Waiting (Prog.spawn f k) s v = sherry_spawn-Waiting ls f s v
  call-Waiting (Prog.sched_yield k) s v = sherry_yield-Waiting ls (in_fn k) s v
  call-Waiting (Prog.msg_send dst t payload k) s v =
      deliver-Waiting ls k t payload (deref (slot dst s)) s v
  call-Waiting (Prog.msg_recv k) s v = recv_begin-Waiting ls (current s).mailbox k s v
  call-Waiting (Prog.fd_tcp k) s v = sherry_fd_tcp-Waiting ls uv s v
  call-Waiting (Prog.tcp_bind p ip port k) s v =
      then_run-Waiting k _ (live-Holds (λ r. Waiting ls r.1) (get_fd p s) v)
  call-Waiting (Prog.tcp_peername p n k) s v =
      then_run-Waiting (λ err. k err (uv.getpeername p n s.loop).1) _
        (live-Holds (λ r. Waiting ls r.1) (get_fd p s) v)
  call-Waiting (Prog.listen o backlog k) s v =
      then_run-Waiting k _ (sherry_listen-Waiting o backlog s v)
  call-Waiting (Prog.accept srv cli k) s v = v
  call-Waiting (Prog.read p n k) s v =
      live-Holds (λ t. Waiting ls t.sche) (get_fd p s) (read_begin-Waiting p n k s v)
  call-Waiting (Prog.write p bytes k) s v =
      live-Holds _ (get_fd p s) (write_begin-Waiting p bytes k s v)
  call-Waiting (Prog.fd_close p k) s v =
      then_run-Waiting k _ (live-Holds (λ r. Waiting ls r.1) (get_fd p s) v)
  call-Waiting Prog.exit s v = v

  pub exec-Waiting :
      (pt : Point) (s : Sched Loop)
      → Waiting ls s
      → Holds (λ t. Waiting (deserted_at uv (in_actor pt) s ++ ls) t.sche) (exec uv pt s)
  unfolding exec sherry_accept read_loop
  exec-Waiting unset s v = tt
  exec-Waiting entry s v = v
  exec-Waiting (in_fn pr) s v = call-Waiting pr s v
  exec-Waiting (after_recv k) s v = recv_end-Waiting ls (current s).mailbox k s v
  exec-Waiting (in_accept srv cli k) s v =
      accept_fd-Waiting srv cli k (get_fd srv s) (get_fd cli s) s refl v
  exec-Waiting (in_read p n k) s v = read_fd-Waiting p n k (get_fd p s) s refl v
  exec-Waiting (after_write n k) s v = v
  exec-Waiting in_exit s v = exit_round-Waiting ls s v
  exec-Waiting after_main s v = tt
