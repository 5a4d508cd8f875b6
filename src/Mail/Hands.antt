-- ===== src/Mail/Hands.antt =====
-- The message that `sherry_msg_recv` returns to the code of an actor; sherry.c, lines 458 to 467.
use sherry.Base.{◌≡◌, refl, Option, none, some, List, [], ◌∷◌, ◌⊎◌, inl, inr}
use sherry.Actor.{
  Msg, Prog, Point, unset, entry, in_fn, after_recv, in_accept, in_read, after_write, in_exit,
  after_main,
}
use sherry.Uv.{Uv}
use sherry.Sched.{Sched}
use sherry.Switch.{Cpu, in_actor, in_schdule, stopped, Machine, current}
use sherry.Message.{recv_begin, recv_end}
use sherry.Net.{sherry_accept, read_loop}
use sherry.Step.{call, exec, step_at, step}
use sherry.Queues.{Holds}
use sherry.Runs.{Holds-unit, self-true}
use sherry.Mail.History.{oldest, taken_at}

-- What a receive returns: the message that it takes, or NULL.
abbrev pub handed : List Msg → Option Msg
handed [] = none
handed (m ∷ ms) = some m

module _ {Loop : Type 0} where
  abbrev pub HandsFrom : Cpu → Sched Loop → Cpu → Type 0
  HandsFrom (in_actor (after_recv k)) s next =
      next ≡ in_actor (in_fn (k (handed (taken_at s.running (in_actor (after_recv k)) s))))
  HandsFrom (in_actor (in_fn (Prog.msg_recv k))) s next =
      (next ≡ in_actor (after_recv k)) ⊎ (next ≡ in_schdule)
  HandsFrom _ s next = Unit

  -- Where the running actor calls `sherry_msg_recv`, it sleeps or comes to its end; at the end of `sherry_msg_recv`, its code goes on with the message
  -- that is taken from its mailbox, or with NULL.
  abbrev pub Hands : Machine Loop → Machine Loop → Type 0
  Hands m t = HandsFrom m.cpu m.sche t.cpu

  recv_end-cpu :
      (ms : List Msg) (k : Option Msg → Prog) (s : Sched Loop)
      → (recv_end ms k s).cpu ≡ in_actor (in_fn (k (handed (oldest ms))))
  unfolding recv_end
  recv_end-cpu [] k s = refl
  recv_end-cpu (m ∷ ms) k s = refl

  recv_begin-cpu :
      (ms : List Msg) (k : Option Msg → Prog) (s : Sched Loop)
      → let next = (recv_begin ms k s).cpu in (next ≡ in_actor (after_recv k)) ⊎ (next ≡ in_schdule)
  unfolding recv_begin
  recv_begin-cpu [] k s = inr refl
  recv_begin-cpu (m ∷ ms) k s = inl refl

  call-HandsFrom :
      (uv : Uv Loop) (pr : Prog) (s : Sched Loop)
      → Holds (λ t. HandsFrom (in_actor (in_fn pr)) s t.cpu) (call uv pr s)
  unfolding call
  call-HandsFrom uv (Prog.msg_recv k) s = recv_begin-cpu (current s).mailbox k s
  call-HandsFrom uv pr s = Holds-unit (call uv pr s)

  exec-HandsFrom :
      (uv : Uv Loop) (pt : Point) (s : Sched Loop)
      → Holds (λ t. HandsFrom (in_actor pt) s t.cpu) (exec uv pt s)
  unfolding exec taken_at
  exec-HandsFrom uv unset s = tt
  exec-HandsFrom uv entry s = tt
  exec-HandsFrom uv (in_fn pr) s = call-HandsFrom uv pr s
  exec-HandsFrom uv (after_recv k) s =
      rw (self-true s.running) (recv_end-cpu (current s).mailbox k s)
  exec-HandsFrom uv (in_accept srv cli k) s = Holds-unit (sherry_accept uv srv cli k s)
  exec-HandsFrom uv (in_read q n k) s = Holds-unit (read_loop uv q n k s)
  exec-HandsFrom uv (after_write n k) s = tt
  exec-HandsFrom uv in_exit s = tt
  exec-HandsFrom uv after_main s = tt

  step_at-HandsFrom :
      (uv : Uv Loop) (cpu : Cpu) (s : Sched Loop)
      → Holds (λ t. HandsFrom cpu s t.cpu) (step_at uv cpu s)
  unfolding step_at
  step_at-HandsFrom uv (in_actor pt) s = exec-HandsFrom uv pt s
  step_at-HandsFrom uv in_schdule s = Holds-unit (step_at uv in_schdule s)
  step_at-HandsFrom uv stopped s = tt

  pub step-Hands : (uv : Uv Loop) (m : Machine Loop) → Holds (Hands m) (step uv m)
  unfolding step
  step-Hands uv m = step_at-HandsFrom uv m.cpu m.sche
