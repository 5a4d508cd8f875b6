-- ===== src/Switch.antt =====
-- The switch between an actor and the scheduler: sherry.c, lines 378 to 424. `_swapcontext` is
-- modelled by what it does to the code that runs: the place where an actor stops is kept in its
-- `ctx`, and the processor goes on elsewhere.
use sherry.Base.{ℤ}
use sherry.Actor.{Prog, Point, entry, Actor}
use sherry.Sched.{Sched, put_actor, alloc_actor, reg_actor, setready}

-- Who has the processor: an actor at a place in its code, the loop of `schdule`, or nobody, when
-- `main` has returned or `sherry_exit` has torn the scheduler down.
pub data Cpu : Type 0 where
  in_actor : Point → Cpu
  in_schdule : Cpu
  stopped : Cpu

pub record Machine (Loop : Type 0) : Type 0 where
  pub cpu : Cpu
  pub sche : Sched Loop

module _ {Loop : Type 0} where
  abbrev pub current : Sched Loop → Actor
  current s = s.actor s.running

  abbrev pub goes_on : Point → Sched Loop → Machine Loop
  goes_on pt s = record { cpu = in_actor pt; sche = s }

  -- `yield`: the context is saved at the place where it will go on, and `schdule` goes on.
  abbrev pub yield : Point → Sched Loop → Machine Loop
  yield pt s = record {
    cpu = in_schdule;
    sche = put_actor s.running (record (current s) { ctx = pt }) s;
  }

  unfoldable pub sherry_yield : Point → Sched Loop → Machine Loop
  sherry_yield pt s = yield pt (setready s.running s)

  -- The new actor's id, and its place in the ready queue.
  unfoldable pub sherry_spawn : Prog → Sched Loop → ℤ × Sched Loop
  sherry_spawn fn s =
      let p = s.next_actor in
      let s1 = setready p (reg_actor p (alloc_actor fn s)) in
      let s2 = put_actor p (record (s1.actor p) { ctx = entry }) s1 in ((s2.actor p).aid, s2)
