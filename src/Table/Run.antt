-- ===== src/Table/Run.antt =====
-- The table of actors over a whole run.
use sherry.Base.{ℕ, zero, suc, ◌≡◌, refl, Option, none, some, List, [], ◌∷◌, arith}
use sherry.Actor.{Ptr, Prog}
use sherry.Uv.{Uv}
use sherry.Sched.{Sched}
use sherry.Switch.{Cpu, in_actor, in_schdule, stopped, Machine, current}
use sherry.Message.{post}
use sherry.Step.{schdule, step_at, step, steps, boot, sherry_init, initial_size}
use sherry.Queues.{Holds, Holds-then}
use sherry.Frame.{FdFrame-WakeFrame, put_outside, Frame, FdFrame, FullFrame}
use sherry.Frame.Callbacks.{idle_round-Frame}
use sherry.Frame.Exec.{exec-Frame}
use sherry.Table.{Indexed}
use sherry.Table.Register.{
  setready-Indexed, put_actor-Indexed, unreg_actor-Indexed, sherry_spawn-Indexed,
}
use sherry.Table.Start.{setrunning-Indexed, init_with-Indexed}

module _ {Loop : Type 0} where
  -- The table is in order afterwards if it is before.
  abbrev KeepsIndexed : Sched Loop → Sched Loop → Type 0
  KeepsIndexed s t = Indexed s → Indexed t

  outside-Indexed :
      (s t : Sched Loop)
      → (t.actor ≡ s.actor)
        × (t.actors ≡ s.actors)
        × (t.curractors ≡ s.curractors)
        × (t.next_actor ≡ s.next_actor)
      → KeepsIndexed s t
  outside-Indexed s t (actor, slots, count, next) v = record {
    ids = λ i p e. rw actor (v.ids i p (ground (arith, e, slots)));
    allocated = λ i p e. rw next (v.allocated i p (ground (arith, e, slots)));
    counted = rw (count, slots) v.counted;
    some_room = rw slots v.some_room;
  }

  Indexed-Frame : Frame {Loop = Loop} KeepsIndexed
  Indexed-Frame = record {
    same = λ s v. v;
    after = λ s t u g h v. h (g v);
    ready = setready-Indexed;
    status = λ st s v. put_actor-Indexed s.running (record (current s) { status = st }) s v refl;
    context = λ pt s v. put_actor-Indexed s.running (record (current s) { ctx = pt }) s v refl;
    outside =
        λ rs ws l out s. outside-Indexed s (put_outside rs ws l out s) (refl, refl, refl, refl);
  }

  Indexed-FdFrame : FdFrame {Loop = Loop} KeepsIndexed
  Indexed-FdFrame = record {
    frame = Indexed-Frame;
    fds = λ fds s. outside-Indexed s (record s { fds = fds }) (refl, refl, refl, refl);
  }

  Indexed-FullFrame : FullFrame {Loop = Loop} KeepsIndexed
  unfolding post
  Indexed-FullFrame = record {
    table = record { frame = Indexed-Frame; unreg = unreg_actor-Indexed };
    posted = λ ty payload p s v. put_actor-Indexed p _ s v refl;
    taken = λ ms s v. put_actor-Indexed s.running (record (current s) { mailbox = ms }) s v refl;
  }

  module _ (uv : Uv Loop) where
    keeps_run :
        (s : Sched Loop) (o : Option (Machine Loop))
        → Holds (λ m. KeepsIndexed s m.sche) o
        → Indexed s
        → Holds (λ m. Indexed m.sche) o
    keeps_run s none h v = tt
    keeps_run s (some m) h v = h v

    schdule-Indexed :
        (ps : List Ptr) (s : Sched Loop) → Indexed s → Holds (λ m. Indexed m.sche) (schdule uv ps s)
    unfolding schdule
    schdule-Indexed [] s v =
        keeps_run s (schdule uv [] s)
          (idle_round-Frame KeepsIndexed (FdFrame-WakeFrame KeepsIndexed Indexed-FdFrame) uv s) v
    schdule-Indexed (p ∷ ps) s v =
        setrunning-Indexed p (record s { readyq = ps })
          (outside-Indexed s (record s { readyq = ps }) (refl, refl, refl, refl) v)

    step_at-Indexed :
        (cpu : Cpu) (s : Sched Loop) → Indexed s → Holds (λ m. Indexed m.sche) (step_at uv cpu s)
    unfolding step_at
    step_at-Indexed (in_actor pt) s v =
        keeps_run s (step_at uv (in_actor pt) s)
          (exec-Frame KeepsIndexed Indexed-FullFrame Indexed-FdFrame uv pt s
            (λ f k e. sherry_spawn-Indexed f s))
          v
    step_at-Indexed in_schdule s v = schdule-Indexed s.readyq s v
    step_at-Indexed stopped s v = v

    steps-Indexed :
        (n : ℕ) (m : Machine Loop) → Indexed m.sche → Holds (λ t. Indexed t.sche) (steps uv n m)
    unfolding steps step
    steps-Indexed zero m v = v
    steps-Indexed (suc n) m v =
        Holds-then (λ t. Indexed t.sche) (λ t. Indexed t.sche) (step uv m) (steps uv n)
          (step_at-Indexed m.cpu m.sche v) (steps-Indexed n)

    -- Whatever the program and the network do, after any number of steps without a fault from
    -- `sherry_init` the table is in order: an actor in the table is allocated and has the index of
    -- its slot for its id, `curractors` is the number of actors in the table, and there is a slot
    -- at least.
    pub run-Indexed : (p : Prog) (n : ℕ) → Holds (λ m. Indexed m.sche) (steps uv n (boot uv p))
    unfolding boot sherry_init
    run-Indexed p n = steps-Indexed n (boot uv p) (init_with-Indexed uv initial_size (omega arith))
