-- ===== src/Waits.antt =====
-- That an actor which waits for an event hangs somewhere, and which actors do not: those whose
-- uv_write fails, and those whose file descriptor is freed while they wait; sherry.c, lines 523 to 658.
pub mod Calls
pub mod Callbacks
pub mod Exec
pub mod Run
mod Tests
use sherry.Base.{
  ℕ, ◌+◌, ◌≤◌, to_nat, is_neg, Option, none, some, List, [], ◌∷◌, ◌++◌, count, if◌then◌else◌,
}
use sherry.Actor.{Ptr, Prog, in_fn, is_wait_ev}
use sherry.Uv.{Uv, Callback, on_close}
use sherry.Sched.{Fd, Sched}
use sherry.Switch.{Cpu, in_actor, in_schdule, Machine}
use sherry.Net.{get_fd, callback}
use sherry.Queues.{waits}

abbrev pub waiters : Option Fd → List Ptr
waiters none = []
waiters (some f) = f.wait_read ++ f.wait_write

abbrev pub then_list : {A : Type 0} → (A → List Ptr) → Option A → List Ptr
then_list f none = []
then_list f (some a) = f a

module _ {Loop : Type 0} where
  -- An actor that waits for an event is in a wait queue, in a write request, or in the list.
  abbrev pub Waiting : List Ptr → Sched Loop → Type 0
  Waiting ls s =
      (p : Ptr)
      → to_nat (is_wait_ev (s.actor p).status) ≤ waits p s.fds + count p s.requests + count p ls

  -- Whose wait queue a callback throws away: when the file descriptor is freed.
  abbrev pub deserted_by : Callback → Sched Loop → List Ptr
  deserted_by (on_close p) s = waiters (get_fd p s)
  deserted_by _ s = []

  abbrev pub deserted_by_all : List Callback → Sched Loop → List Ptr
  deserted_by_all [] s = []
  deserted_by_all (c ∷ cs) s = then_list (deserted_by_all cs) (callback c s) ++ deserted_by c s

  abbrev pub deserted_round : Uv Loop → List Ptr → Sched Loop → List Ptr
  deserted_round uv [] s =
      let r = uv.run_once s.loop in deserted_by_all r.0 (record s { loop = r.1 })
  deserted_round uv (p ∷ ps) s = []

  -- Who is left in no queue by the next step: also the writer of a write that libuv does not take.
  abbrev pub deserted_at : Uv Loop → Cpu → Sched Loop → List Ptr
  deserted_at uv (in_actor (in_fn (Prog.write p bytes k))) s =
      if is_neg (uv.write p bytes s.loop).0 then s.running ∷ [] else []
  deserted_at uv in_schdule s = deserted_round uv s.readyq s
  deserted_at uv _ s = []
