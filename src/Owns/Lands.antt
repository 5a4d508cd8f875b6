-- ===== src/Owns/Lands.antt =====
-- Where a call leaves the running actor: in code that uses what it owns.
use sherry.Base.{
  ℕ, ◌≡◌, pos, ℤ, not, ◌||◌, is_neg, is_zero, int_eq, Option, none, some, List, [], ◌∷◌, ltb, ◌==◌,
  length, arith, Bool-cases, inl, inr,
}
use sherry.Actor.{
  Ptr, Msg, Prog, Point, after_recv, in_accept, in_read, after_write, in_exit, after_main,
}
use sherry.Uv.{Uv}
use sherry.Sched.{Fd, Sched, setready, unreg_actor, clear_slot}
use sherry.Switch.{Cpu, in_actor, in_schdule, stopped, Machine, current, yield, sherry_yield}
use sherry.Message.{recv_begin, recv_end}
use sherry.Net.{
  buffered, if_live, fd_tcp_type, block_fd, listen_fd, accept_fd, read_fd, read_begin, write_begin,
}
use sherry.Step.{then_run, finish, exit_round}
use sherry.Queues.{Holds}
use sherry.Owns.{Uses, UsesAt}

-- Where the actor `r` goes on.
abbrev pub LandsAt : {Loop : Type 0} → List Ptr → (fn : Prog) → Ptr → Cpu → Sched Loop → Type 0
LandsAt l fn r (in_actor pt) s = UsesAt l fn pt
LandsAt l fn r in_schdule s = UsesAt l fn (s.actor r).ctx
LandsAt l fn r stopped s = Unit {0}

abbrev pub Lands : {Loop : Type 0} → List Ptr → (fn : Prog) → Ptr → Machine Loop → Type 0
Lands l fn r m = LandsAt l fn r m.cpu m.sche

module _ {Loop : Type 0} (l : List Ptr) (fn : Prog) where
  sherry_yield-ctx :
      (pt : Point) (s : Sched Loop) → ((sherry_yield pt s).sche.actor s.running).ctx ≡ pt
  unfolding sherry_yield setready
  sherry_yield-ctx pt s = ground arith

  pub sherry_yield-Lands :
      (pt : Point) (s : Sched Loop) → UsesAt l fn pt → Lands l fn s.running (sherry_yield pt s)
  unfolding sherry_yield
  sherry_yield-Lands pt s u = rw (sherry_yield-ctx pt s) u

  block_fd-ctx :
      (q : Ptr) (f : Fd) (pt : Point) (s : Sched Loop)
      → ((block_fd q f pt s).sche.actor s.running).ctx ≡ pt
  unfolding block_fd
  block_fd-ctx q f pt s = ground arith

  block_fd-Lands :
      (q : Ptr) (f : Fd) (pt : Point) (s : Sched Loop)
      → UsesAt l fn pt
      → Lands l fn s.running (block_fd q f pt s)
  unfolding block_fd
  block_fd-Lands q f pt s u = rw (block_fd-ctx q f pt s) u

  pub live_call-Lands :
      (r : Ptr) (k : ℤ → Prog) (o : Option Fd) (a : ℤ × Sched Loop)
      → ((err : ℤ) → Uses l (k err))
      → Holds (Lands l fn r) (then_run k (if_live o a))
  live_call-Lands r k none a u = tt
  live_call-Lands r k (some f) a u = u a.0

  pub listen_fd-Lands :
      (uv : Uv Loop) (r : Ptr) (k : ℤ → Prog) (q n : ℕ) (o : Option Fd) (s : Sched Loop)
      → ((err : ℤ) → Uses l (k err))
      → Holds (Lands l fn r) (then_run k (listen_fd uv q n o s))
  unfolding listen_fd
  listen_fd-Lands uv r k q n none s u = tt
  listen_fd-Lands uv r k q n (some f) s u = elim (Bool-cases (f.type == fd_tcp_type)) [
    | inl e ↦ rw e (u (uv.listen q n s.loop).0)
    | inr e ↦ rw e (u (pos 1))
  ]

  pub accept_fd-Lands :
      (uv : Uv Loop) (srv cli : Ptr) (k : ℤ → Prog) (o c : Option Fd) (s : Sched Loop)
      → UsesAt l fn (in_accept srv cli k)
      → Holds (Lands l fn s.running) (accept_fd uv srv cli k o c s)
  unfolding accept_fd
  accept_fd-Lands uv srv cli k none c s u = tt
  accept_fd-Lands uv srv cli k (some f) none s u = tt
  accept_fd-Lands uv srv cli k (some f) (some c) s u =
      let r = uv.accept srv cli s.loop in
      let t = record s { loop = r.1 } in
      elim (Bool-cases (not (is_neg r.0) || not (int_eq r.0 uv.eagain))) [
        | inl b ↦ rw b (u.2 r.0)
        | inr b ↦ rw b (block_fd-Lands srv f (in_accept srv cli k) t u)
      ]

  pub read_fd-Lands :
      (uv : Uv Loop) (q n : ℕ) (k : ℤ → List ℕ → Prog) (o : Option Fd) (s : Sched Loop)
      → UsesAt l fn (in_read q n k)
      → Holds (Lands l fn s.running) (read_fd uv q n k o s)
  unfolding read_fd
  read_fd-Lands uv q n k none s u = tt
  read_fd-Lands uv q n k (some f) s u = elim (Bool-cases (not (is_zero f.rerror))) [
    | inl err ↦ rw err (u.1 _ [])
    | inr ok ↦ elim (Bool-cases (ltb f.roffset (length (buffered f.rbuf)))) [
      | inl more ↦ rw (ok, more) (u.1 _ _)
      | inr empty ↦ rw (ok, empty) (block_fd-Lands q f (in_read q n k) s u)
    ]
  ]

  pub read_begin-Lands :
      (uv : Uv Loop) (r : Ptr) (q n : ℕ) (k : ℤ → List ℕ → Prog) (o : Option Fd) (s : Sched Loop)
      → UsesAt l fn (in_read q n k)
      → Holds (Lands l fn r) (if_live o (read_begin uv q n k s))
  unfolding read_begin
  read_begin-Lands uv r q n k none s u = tt
  read_begin-Lands uv r q n k (some f) s u =
      let e = (uv.read_start q s.loop).0 in
      elim (Bool-cases (not (is_zero e))) [ inl err ↦ rw err (u.1 e []) | inr ok ↦ rw ok u ]

  write_begin-ctx :
      (uv : Uv Loop) (q : Ptr) (bs : List ℕ) (k : ℕ → Prog) (s : Sched Loop)
      → ((write_begin uv q bs k s).sche.actor s.running).ctx ≡ after_write (length bs) k
  unfolding write_begin
  write_begin-ctx uv q bs k s = ground arith

  pub write_begin-Lands :
      (uv : Uv Loop) (q : Ptr) (bs : List ℕ) (k : ℕ → Prog) (o : Option Fd) (s : Sched Loop)
      → ((n : ℕ) → Uses l (k n))
      → Holds (Lands l fn s.running) (if_live o (write_begin uv q bs k s))
  unfolding write_begin
  write_begin-Lands uv q bs k none s u = tt
  write_begin-Lands uv q bs k (some f) s u = rw (write_begin-ctx uv q bs k s) (u (length bs))

  recv_begin-ctx :
      (k : Option Msg → Prog) (s : Sched Loop)
      → ((recv_begin [] k s).sche.actor s.running).ctx ≡ after_recv k
  unfolding recv_begin
  recv_begin-ctx k s = ground arith

  pub recv_begin-Lands :
      (ms : List Msg) (k : Option Msg → Prog) (s : Sched Loop)
      → ((o : Option Msg) → Uses l (k o))
      → Lands l fn s.running (recv_begin ms k s)
  unfolding recv_begin
  recv_begin-Lands [] k s u = rw (recv_begin-ctx k s) u
  recv_begin-Lands (m ∷ ms) k s u = u

  pub recv_end-Lands :
      (r : Ptr) (ms : List Msg) (k : Option Msg → Prog) (s : Sched Loop)
      → ((o : Option Msg) → Uses l (k o))
      → Lands l fn r (recv_end ms k s)
  unfolding recv_end
  recv_end-Lands r [] k s u = u none
  recv_end-Lands r (m ∷ ms) k s u = u (some m)

  unreg_actor-running : (id : ℤ) (s : Sched Loop) → (unreg_actor id s).running ≡ s.running
  unfolding unreg_actor clear_slot
  unreg_actor-running id s = ground arith

  yield-ctx :
      (r : Ptr) (pt : Point) (s : Sched Loop) → s.running ≡ r → ((yield pt s).sche.actor r).ctx ≡ pt
  yield-ctx r pt s e = ground (arith, e)

  pub finish-Lands : (s : Sched Loop) → Lands l fn s.running (finish s)
  unfolding finish
  finish-Lands s = elim (Bool-cases (s.running == s.main)) [
    | inl e ↦ rw e tt
    | inr e ↦
        let t = unreg_actor (current s).aid s in
        rw (e, yield-ctx s.running after_main t (unreg_actor-running (current s).aid s)) tt
  ]

  pub exit_round-Lands : (s : Sched Loop) → Lands l fn s.running (exit_round s)
  unfolding exit_round
  exit_round-Lands s = elim (Bool-cases (ltb 1 s.curractors)) [
    | inl e ↦ rw e (sherry_yield-Lands in_exit s tt)
    | inr e ↦ rw e tt
  ]
