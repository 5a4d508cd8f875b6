-- ===== src/Waits/Run.antt =====
-- Every actor in the queue that its status names, over a run.
use sherry.Base.{
  ℕ, zero, suc, Option, none, some, List, [], ◌∷◌, ◌++◌, append_assoc, append-nil, arith, and_then,
}
use sherry.Actor.{Ptr, Prog}
use sherry.Uv.{Uv}
use sherry.Sched.{Sched, setrunning, reg_actor, alloc_actor}
use sherry.Switch.{Cpu, in_actor, in_schdule, stopped, Machine}
use sherry.Step.{
  to_schdule, callbacks, schdule, step_at, step, steps, boot, sherry_init, init_with, blank,
}
use sherry.Queues.{Holds, Surely, Surely-map}
use sherry.Resume.Step.{Sound, step-Sound, boot-Sound}
use sherry.Progress.Run.{LegalRun, Surely-both, run-finish}
use sherry.Waits.{Waiting, deserted_by_all, deserted_round, deserted_at, then_list}
use sherry.Waits.Callbacks.{callbacks-Waiting}
use sherry.Waits.Exec.{exec-Waiting}

module _ {Loop : Type 0} where
  -- Each actor hangs in the queue that its status names, but for those of the list, which may wait
  -- for an event in none.
  pub record InQueues (ls : List Ptr) (m : Machine Loop) : Type 0 where
    pub sound : Sound m
    pub waiting : Waiting ls m.sche

  both-InQueues :
      (ls : List Ptr) (o : Option (Machine Loop))
      → Holds Sound o
      → Holds (λ t. Waiting ls t.sche) o
      → Holds (InQueues ls) o
  both-InQueues ls none h k = tt
  both-InQueues ls (some t) h k = record { sound = h; waiting = k }

  module _ (uv : Uv Loop) where
    to_schdule-Waiting :
        (ls : List Ptr) (o : Option (Sched Loop))
        → Holds (Waiting ls) o
        → Holds (λ t. Waiting ls t.sche) (to_schdule o)
    to_schdule-Waiting ls none h = tt
    to_schdule-Waiting ls (some s) h = h

    schdule-Waiting :
        (ls ps : List Ptr) (s : Sched Loop)
        → Waiting ls s
        → Holds (λ t. Waiting (deserted_round uv ps s ++ ls) t.sche) (schdule uv ps s)
    unfolding schdule setrunning
    schdule-Waiting ls [] s v =
        let r = uv.run_once s.loop in
        let t = record s { loop = r.1 } in
        to_schdule-Waiting (deserted_by_all r.0 t ++ ls) (callbacks r.0 t)
          (callbacks-Waiting r.0 ls t v)
    schdule-Waiting ls (p ∷ ps) s v = λ q. ground (arith, v q)

    step_at-Waiting :
        (ls : List Ptr) (cpu : Cpu) (s : Sched Loop)
        → Waiting ls s
        → Holds (λ t. Waiting (deserted_at uv cpu s ++ ls) t.sche) (step_at uv cpu s)
    unfolding step_at
    step_at-Waiting ls (in_actor pt) s v = exec-Waiting uv ls pt s v
    step_at-Waiting ls in_schdule s v = schdule-Waiting ls s.readyq s v
    step_at-Waiting ls stopped s v = v

    -- From a machine that is `InQueues` but for the actors of a list, a step that does not fault
    -- leaves one that is `InQueues` but for these and for the actors that the step leaves in no
    -- queue: the writer of a write that `uv_write` does not take, and the waiters of a file
    -- descriptor that is freed. In such a machine a ready actor hangs once in `readyq` and has a
    -- place where it can go on; one that waits for a message hangs once in `waitingmsg` and has an
    -- empty mailbox; one that waits for an event hangs once in a wait queue or a write request, or
    -- it is in the list; and none hangs in a queue that its status does not name.
    pub step-InQueues :
        (ls : List Ptr) (m : Machine Loop)
        → InQueues ls m
        → Holds (InQueues (deserted_at uv m.cpu m.sche ++ ls)) (step uv m)
    unfolding step
    step-InQueues ls m v =
        both-InQueues (deserted_at uv m.cpu m.sche ++ ls) (step uv m) (step-Sound uv m v.sound)
          (step_at-Waiting ls m.cpu m.sche v.waiting)

    -- Who is left in no queue in the first `n` steps, the latest first.
    unfoldable pub deserted_in : ℕ → Machine Loop → List Ptr
    deserted_in zero m = []
    deserted_in (suc n) m = then_list (deserted_in n) (step uv m) ++ deserted_at uv m.cpu m.sche

    then_steps :
        (n : ℕ) (d ls : List Ptr) (o : Option (Machine Loop))
        → Holds (InQueues (d ++ ls)) o
        → ((t : Machine Loop)
            → InQueues (d ++ ls) t
            → Holds (InQueues (deserted_in n t ++ (d ++ ls))) (steps uv n t))
        → Holds (InQueues ((then_list (deserted_in n) o ++ d) ++ ls)) (and_then o (steps uv n))
    then_steps n d ls none h rest = tt
    then_steps n d ls (some t) h rest = rw (append_assoc (deserted_in n t) d ls) (rest t h)

    steps-InQueues :
        (n : ℕ) (ls : List Ptr) (m : Machine Loop)
        → InQueues ls m
        → Holds (InQueues (deserted_in n m ++ ls)) (steps uv n m)
    unfolding steps deserted_in
    steps-InQueues zero ls m v = v
    steps-InQueues (suc n) ls m v =
        let d = deserted_at uv m.cpu m.sche in
        then_steps n d ls (step uv m) (step-InQueues ls m v) (steps-InQueues n (d ++ ls))

    nobody_more :
        (ls : List Ptr) (o : Option (Machine Loop))
        → Holds (InQueues (ls ++ [])) o
        → Holds (InQueues ls) o
    nobody_more ls o h = rw (← append-nil ls) h

    boot-Waiting : (p : Prog) → Waiting [] (boot uv p).sche
    unfolding boot sherry_init init_with setrunning reg_actor alloc_actor blank
    boot-Waiting p q = ground arith

    pub boot-InQueues : (p : Prog) → InQueues [] (boot uv p)
    boot-InQueues p = record { sound = boot-Sound uv p; waiting = boot-Waiting p }

    -- Whatever the program and the network do, after any number of steps without a fault the actors
    -- are in their queues. A ready actor hangs once in `readyq`, and one that waits for a message
    -- once in `waitingmsg`; one that waits for an event hangs once in a wait queue or a write
    -- request, unless earlier in the run `uv_write` did not take a write of it, or a file
    -- descriptor was freed while it was in a wait queue of that; none hangs in a queue that its
    -- status does not name. A ready actor has a place where it can go on, and one that waits for a
    -- message has an empty mailbox.
    pub run-InQueues :
        (p : Prog) (n : ℕ) → Holds (InQueues (deserted_in n (boot uv p))) (steps uv n (boot uv p))
    run-InQueues p n =
        nobody_more (deserted_in n (boot uv p)) (steps uv n (boot uv p))
          (steps-InQueues n [] (boot uv p) (boot-InQueues p))

    -- If the program calls the library only with live file descriptors and the ids of actors, if
    -- libuv calls back only on handles that are not closed, and if no write is reported as failed,
    -- then a run from `sherry_init` does not fault, whatever its length, and every state of it has
    -- the actors in their queues. A ready actor hangs once in `readyq`, and one that waits for a
    -- message once in `waitingmsg`; one that waits for an event hangs once in a wait queue or a
    -- write request, unless earlier in the run `uv_write` did not take a write of it, or a file
    -- descriptor was freed while it was in a wait queue of that; none hangs in a queue that its
    -- status does not name; and each actor can go on when its turn comes.
    pub legal-InQueues :
        (p : Prog) (n : ℕ)
        → LegalRun uv n (boot uv p)
        → Surely (InQueues (deserted_in n (boot uv p))) (steps uv n (boot uv p))
    legal-InQueues p n l =
        Surely-map (λ t. Sound t × InQueues (deserted_in n (boot uv p)) t)
          (InQueues (deserted_in n (boot uv p))) (steps uv n (boot uv p))
          (Surely-both Sound (InQueues (deserted_in n (boot uv p))) (steps uv n (boot uv p))
            (run-finish uv p n l) (run-InQueues p n))
          (λ t (w, k). k)
