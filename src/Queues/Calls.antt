-- ===== src/Queues/Calls.antt =====
-- The network calls of an actor keep every actor where its status says.
use sherry.Base.{
  ℕ, ℤ, ◌+◌, ◌≡◌, refl, Option, none, some, List, [], ◌∷◌, ◌++◌, arith, ◌==◌, count, count-snoc,
  count-nil, Bool-cases, inl, inr, length, is_neg, is_zero, ◌||◌, not, int_eq, ltb,
}
use sherry.Actor.{Ptr, Status, Prog, Point, in_accept, in_read}
use sherry.Uv.{Uv}
use sherry.Sched.{Fd, Sched}
use sherry.Switch.{current}
use sherry.Net.{
  get_fd, put_fd, fdnew, fd_tcp_type, if_live, buffered, read_size, sherry_fd_tcp, sherry_fd_close,
  block_fd, sherry_tcp_bind, sherry_tcp_peername, listen_fd, sherry_listen, accept_fd,
  sherry_accept, read_fd, read_loop, read_begin, sherry_read, write_begin, sherry_write,
}
use sherry.Queues.{Holds, Queued}
use sherry.Queues.Switch.{Placed}
use sherry.Queues.Net.{waits-set, waits-append, put_fd-Queued}

pub live-Holds {ℓ} :
    {A : Type 0} (P : A → Type ℓ) (o : Option Fd) {a : A} → P a → Holds P (if_live o a)
live-Holds P none h = tt
live-Holds P (some f) h = h

module _ {Loop : Type 0} where
  -- What a call may do that leaves the queues and the actors alone.
  abbrev pub Runs : Sched Loop → Type 0
  Runs s = Queued [] s × ((current s).status ≡ Status.running)

  loop-Runs : (s : Sched Loop) (l : Loop) → Runs s → Runs (record s { loop = l })
  loop-Runs s l (v, run) =
      (record { place = λ q. ground (arith, v.place q); unused = v.unused }, run)

  pub sherry_fd_tcp-Runs : (uv : Uv Loop) (s : Sched Loop) → Runs s → Runs (sherry_fd_tcp uv s).1
  unfolding sherry_fd_tcp
  sherry_fd_tcp-Runs uv s (v, run) = (
    record {
      place = λ q. ground (arith, v.place q, waits-append q s.fds (fdnew fd_tcp_type), count-nil q);
      unused = v.unused;
    },
    run,
  )

  pub sherry_fd_close-Runs :
      (uv : Uv Loop) (p : Ptr) (s : Sched Loop)
      → Runs s
      → Holds (λ r. Runs r.1) (sherry_fd_close uv p s)
  unfolding sherry_fd_close
  sherry_fd_close-Runs uv p s v = live-Holds (λ r. Runs r.1) (get_fd p s) (loop-Runs s _ v)

  pub sherry_tcp_bind-Runs :
      (uv : Uv Loop) (p : Ptr) (ip port : ℕ) (s : Sched Loop)
      → Runs s
      → Holds (λ r. Runs r.1) (sherry_tcp_bind uv p ip port s)
  unfolding sherry_tcp_bind
  sherry_tcp_bind-Runs uv p ip port s v = live-Holds (λ r. Runs r.1) (get_fd p s) (loop-Runs s _ v)

  pub sherry_tcp_peername-Runs :
      (uv : Uv Loop) (p : Ptr) (n : ℕ) (s : Sched Loop)
      → Runs s
      → Holds (λ r. Runs r.1) (sherry_tcp_peername uv p n s)
  unfolding sherry_tcp_peername
  sherry_tcp_peername-Runs uv p n s v = live-Holds (λ r. Runs r.1) (get_fd p s) v

  listen_fd-Runs :
      (uv : Uv Loop) (p : Ptr) (backlog : ℕ) (o : Option Fd) (s : Sched Loop)
      → Runs s
      → Holds (λ r. Runs r.1) (listen_fd uv p backlog o s)
  unfolding listen_fd
  listen_fd-Runs uv p backlog none s v = tt
  listen_fd-Runs uv p backlog (some f) s v = elim (Bool-cases (f.type == fd_tcp_type)) [
    | inl tcp ↦ rw tcp (loop-Runs s _ v)
    | inr other ↦ rw other v
  ]

  pub sherry_listen-Runs :
      (uv : Uv Loop) (o : Option Ptr) (backlog : ℕ) (s : Sched Loop)
      → Runs s
      → Holds (λ r. Runs r.1) (sherry_listen uv o backlog s)
  unfolding sherry_listen
  sherry_listen-Runs uv none backlog s v = v
  sherry_listen-Runs uv (some p) backlog s v = listen_fd-Runs uv p backlog (get_fd p s) s v

  pub block_fd-Placed :
      (p : Ptr) (f : Fd) (pt : Point) (s : Sched Loop)
      → get_fd p s ≡ some f
      → Runs s
      → Placed (block_fd p f pt s)
  unfolding block_fd
  block_fd-Placed p f pt s e (v, run) =
      let g = record f { wait_read = f.wait_read ++ s.running ∷ [] } in
      record {
        queued = record {
          place = λ q. ground (
            arith,
            v.place q,
            v.place s.running,
            waits-set q s.fds p f (some g) e,
            count-snoc q f.wait_read s.running,
          );
          unused = λ q h. ground (arith, v.unused q, v.unused s.running);
        };
        active = tt;
      }

  accept_fd-Placed :
      (uv : Uv Loop) (srv cli : Ptr) (k : ℤ → Prog) (o c : Option Fd) (s : Sched Loop)
      → get_fd srv s ≡ o
      → Runs s
      → Holds Placed (accept_fd uv srv cli k o c s)
  unfolding accept_fd
  accept_fd-Placed uv srv cli k none c s e v = tt
  accept_fd-Placed uv srv cli k (some f) none s e v = tt
  accept_fd-Placed uv srv cli k (some f) (some c) s e v =
      let r = uv.accept srv cli s.loop in
      let v' = loop-Runs s r.1 v in
      elim (Bool-cases (not (is_neg r.0) || not (int_eq r.0 uv.eagain))) [
        | inl done ↦ rw done (record { queued = v'.0; active = v'.1 })
        | inr again ↦
            rw again (block_fd-Placed srv f (in_accept srv cli k) (record s { loop = r.1 }) e v')
      ]

  pub sherry_accept-Placed :
      (uv : Uv Loop) (srv cli : Ptr) (k : ℤ → Prog) (s : Sched Loop)
      → Runs s
      → Holds Placed (sherry_accept uv srv cli k s)
  unfolding sherry_accept
  sherry_accept-Placed uv srv cli k s =
      accept_fd-Placed uv srv cli k (get_fd srv s) (get_fd cli s) s refl

  put_fd-Runs :
      (p : Ptr) (f g : Fd) (s : Sched Loop)
      → get_fd p s ≡ some f
      → g.wait_read ≡ f.wait_read
      → g.wait_write ≡ f.wait_write
      → Runs s
      → Runs (put_fd p g s)
  put_fd-Runs p f g s e r w (v, run) = (put_fd-Queued p g s (f, e, r, w) v, run)

  read_fd-Placed :
      (uv : Uv Loop) (p : Ptr) (count : ℕ) (k : ℤ → List ℕ → Prog) (o : Option Fd) (s : Sched Loop)
      → get_fd p s ≡ o
      → Runs s
      → Holds Placed (read_fd uv p count k o s)
  unfolding read_fd
  read_fd-Placed uv p count k none s e v = tt
  read_fd-Placed uv p count k (some f) s e v = elim (Bool-cases (not (is_zero f.rerror))) [
    | inl err ↦ rw err (record { queued = v.0; active = v.1 })
    | inr fine ↦ rw fine (elim (Bool-cases (ltb f.roffset (length (buffered f.rbuf)))) [
      | inl some_left ↦
          let v' =
            put_fd-Runs p f (record f { roffset = f.roffset + read_size count f }) s e refl refl
              v in
          rw some_left (record { queued = v'.0; active = v'.1 })
      | inr empty ↦ rw empty (block_fd-Placed p f (in_read p count k) s e v)
    ])
  ]

  pub read_loop-Placed :
      (uv : Uv Loop) (p : Ptr) (count : ℕ) (k : ℤ → List ℕ → Prog) (s : Sched Loop)
      → Runs s
      → Holds Placed (read_loop uv p count k s)
  unfolding read_loop
  read_loop-Placed uv p count k s = read_fd-Placed uv p count k (get_fd p s) s refl

  read_begin-Placed :
      (uv : Uv Loop) (p : Ptr) (count : ℕ) (k : ℤ → List ℕ → Prog) (s : Sched Loop)
      → Runs s
      → Placed (read_begin uv p count k s)
  unfolding read_begin
  read_begin-Placed uv p count k s v =
      let r = uv.read_start p s.loop in
      let v' = loop-Runs s r.1 v in
      elim (Bool-cases (not (is_zero r.0))) [
        | inl err ↦ rw err (record { queued = v'.0; active = v'.1 })
        | inr fine ↦ rw fine (record { queued = v'.0; active = v'.1 })
      ]

  pub sherry_read-Placed :
      (uv : Uv Loop) (p : Ptr) (count : ℕ) (k : ℤ → List ℕ → Prog) (s : Sched Loop)
      → Runs s
      → Holds Placed (sherry_read uv p count k s)
  unfolding sherry_read
  sherry_read-Placed uv p count k s v =
      live-Holds Placed (get_fd p s) (read_begin-Placed uv p count k s v)

  write_begin-Placed :
      (uv : Uv Loop) (p : Ptr) (bytes : List ℕ) (k : ℕ → Prog) (s : Sched Loop)
      → Runs s
      → Placed (write_begin uv p bytes k s)
  unfolding write_begin
  write_begin-Placed uv p bytes k s (v, run) = record {
    queued = record {
      place = λ q. ground (arith, v.place q, v.place s.running, count-snoc q s.requests s.running);
      unused = λ q h. ground (arith, v.unused q, v.unused s.running);
    };
    active = tt;
  }

  pub sherry_write-Placed :
      (uv : Uv Loop) (p : Ptr) (bytes : List ℕ) (k : ℕ → Prog) (s : Sched Loop)
      → Runs s
      → Holds Placed (sherry_write uv p bytes k s)
  unfolding sherry_write
  sherry_write-Placed uv p bytes k s v =
      live-Holds Placed (get_fd p s) (write_begin-Placed uv p bytes k s v)
