-- ===== src/Waits/Calls.antt =====
-- The calls of an actor leave it in a queue when it waits for an event, but for a write that libuv
-- does not take.
use sherry.Base.{
  ℤ, ◌≡◌, Option, none, some, List, [], ◌∷◌, ◌++◌, arith, count-nil, count-snoc, Bool-cases, inl,
  inr, ltb, ◌==◌, pos, negsuc,
}
use sherry.Actor.{Ptr, Sds, Msg, Prog, Point, in_exit, after_main}
use sherry.Uv.{Uv}
use sherry.Sched.{Fd, Sched, setready, alloc_actor, reg_actor, unreg_actor, clear_slot, slot}
use sherry.Switch.{current, sherry_yield, sherry_spawn, yield}
use sherry.Message.{wake, post, deliver, recv_begin, recv_end}
use sherry.Net.{get_fd, fdnew, fd_tcp_type, sherry_fd_tcp, block_fd}
use sherry.Step.{finish, exit_round, then_go}
use sherry.Queues.{Holds}
use sherry.Queues.Net.{waits-set, waits-append}
use sherry.Waits.{Waiting}
use sherry.Waits.Callbacks.{setready-Waiting}

module _ {Loop : Type 0} (ls : List Ptr) where
  pub yield-Waiting : (pt : Point) (s : Sched Loop) → Waiting ls s → Waiting ls (yield pt s).sche
  yield-Waiting pt s v q = ground (arith, v q)

  pub sherry_yield-Waiting :
      (pt : Point) (s : Sched Loop) → Waiting ls s → Waiting ls (sherry_yield pt s).sche
  unfolding sherry_yield
  sherry_yield-Waiting pt s v =
      yield-Waiting pt (setready s.running s) (setready-Waiting s.running ls s v)

  clear_slot-Waiting :
      (id : ℤ) (o : Option (Option Ptr)) (s : Sched Loop)
      → Waiting ls s
      → Waiting ls (clear_slot id o s)
  unfolding clear_slot
  clear_slot-Waiting (pos i) (some (some p)) s v = v
  clear_slot-Waiting (pos i) (some none) s v = v
  clear_slot-Waiting (pos i) none s v = v
  clear_slot-Waiting (negsuc i) o s v = v

  unreg_actor-Waiting : (id : ℤ) (s : Sched Loop) → Waiting ls s → Waiting ls (unreg_actor id s)
  unfolding unreg_actor
  unreg_actor-Waiting id s = clear_slot-Waiting id (slot id s) s

  pub finish-Waiting : (s : Sched Loop) → Waiting ls s → Waiting ls (finish s).sche
  unfolding finish
  finish-Waiting s v = elim (Bool-cases (s.running == s.main)) [
    | inl e ↦ rw e v
    | inr e ↦ rw e (
        yield-Waiting after_main (unreg_actor (current s).aid s)
          (unreg_actor-Waiting (current s).aid s v))
  ]

  pub exit_round-Waiting : (s : Sched Loop) → Waiting ls s → Waiting ls (exit_round s).sche
  unfolding exit_round
  exit_round-Waiting s v = elim (Bool-cases (ltb 1 s.curractors)) [
    | inl e ↦ rw e (sherry_yield-Waiting in_exit s v)
    | inr e ↦ rw e (unreg_actor-Waiting (s.actor s.main).aid s v)
  ]

  pub sherry_spawn-Waiting :
      (f : Prog) (s : Sched Loop) → Waiting ls s → Waiting ls (sherry_spawn f s).1
  unfolding sherry_spawn setready reg_actor alloc_actor
  sherry_spawn-Waiting f s v q = ground (arith, v q)

  pub deliver-Waiting :
      (k : Prog) (ty : ℤ) (payload : Sds) (o : Option Ptr) (s : Sched Loop)
      → Waiting ls s
      → Holds (λ t. Waiting ls t.sche) (then_go k (deliver ty payload o s))
  unfolding deliver wake post setready
  deliver-Waiting k ty payload none s v = tt
  deliver-Waiting k ty payload (some p) s v = λ q. ground (arith, v q)

  pub recv_begin-Waiting :
      (ms : List Msg) (k : Option Msg → Prog) (s : Sched Loop)
      → Waiting ls s
      → Waiting ls (recv_begin ms k s).sche
  unfolding recv_begin
  recv_begin-Waiting [] k s v = λ q. ground (arith, v q)
  recv_begin-Waiting (m ∷ ms) k s v = v

  pub recv_end-Waiting :
      (ms : List Msg) (k : Option Msg → Prog) (s : Sched Loop)
      → Waiting ls s
      → Waiting ls (recv_end ms k s).sche
  unfolding recv_end
  recv_end-Waiting [] k s v = v
  recv_end-Waiting (m ∷ ms) k s v = λ q. ground (arith, v q)

  pub sherry_fd_tcp-Waiting :
      (uv : Uv Loop) (s : Sched Loop) → Waiting ls s → Waiting ls (sherry_fd_tcp uv s).1
  unfolding sherry_fd_tcp
  sherry_fd_tcp-Waiting uv s v q =
      ground (arith, v q, waits-append q s.fds (fdnew fd_tcp_type), count-nil q)

  -- The actor that blocks joins the wait queue.
  pub block_fd-Waiting :
      (p : Ptr) (f : Fd) (pt : Point) (s : Sched Loop)
      → get_fd p s ≡ some f
      → Waiting ls s
      → Waiting ls (block_fd p f pt s).sche
  unfolding block_fd
  block_fd-Waiting p f pt s e v q =
      let g = record f { wait_read = f.wait_read ++ s.running ∷ [] } in
      ground (arith, v q, waits-set q s.fds p f (some g) e, count-snoc q f.wait_read s.running)
