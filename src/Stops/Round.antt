-- ===== src/Stops/Round.antt =====
-- Every step of the machine: each call that the actors may make, and the choice of `schdule`.
use sherry.Base.{
  ℕ, ◌+◌, ◌≤◌, ◌≡◌, refl, ◌∙◌, List, [], ◌∷◌, ◌==◌, count, count-cons, count-nil, arith, inr,
}
use sherry.Actor.{
  Ptr, Status, Prog, Point, unset, entry, in_fn, after_recv, in_accept, in_read, after_write,
  in_exit, after_main,
}
use sherry.Uv.{Uv}
use sherry.Sched.{Sched, setrunning}
use sherry.Switch.{Cpu, in_actor, in_schdule, stopped, Machine, current, goes_on}
use sherry.Step.{call, exec, schdule, step_at, step}
use sherry.Queues.{Queued, Surely}
use sherry.Queues.Switch.{Active, Placed}
use sherry.Stops.{Ends, Left, Work, alive, Listed, WorkAt, Winds, Next}
use sherry.Stops.Work.{Work-put}
use sherry.Stops.Yield.{slot-same}
use sherry.Stops.Step.{
  Turn, goes_on-Next, finish-Next, sherry_yield-Next, exit_round-Next, printf-Next, spawn-Next,
}

module _ {Loop : Type 0} (uv : Uv Loop) where
  call-Next :
      (n a b : ℕ) (p : Prog) (s : Sched Loop)
      → a + b ≤ n
      → Turn (in_fn p) a b s
      → Ends (s.running == s.main) p a
      → Surely (Next n (goes_on (in_fn p) s)) (call uv p s)
  unfolding call
  call-Next n a b Prog.done s le v (other, lt) = finish-Next n a b (in_fn Prog.done) s le lt other v
  call-Next n a b (Prog.printf i j k) s le v (c, lt, rest) =
      printf-Next n a b c i j (in_fn (Prog.printf i j k)) k s le lt v rest
  call-Next n a b (Prog.sched_yield k) s le v (c, lt, rest) =
      sherry_yield-Next n a b c (in_fn (Prog.sched_yield k)) (in_fn k) s le lt v rest
  call-Next n a b (Prog.spawn f k) s le v (c, d, lt, ends, rest) =
      spawn-Next n a b c d f k s le lt v ends rest
  call-Next n a b Prog.exit s le v (main, lt) =
      goes_on-Next n a b 0 (in_fn Prog.exit) in_exit s s le lt (refl, refl) v.listed main v.others
  call-Next n a b (Prog.msg_send dst t x k) s le v w = absurd w
  call-Next n a b (Prog.msg_recv k) s le v w = absurd w
  call-Next n a b (Prog.fd_tcp k) s le v w = absurd w
  call-Next n a b (Prog.tcp_bind p ip port k) s le v w = absurd w
  call-Next n a b (Prog.tcp_peername p l k) s le v w = absurd w
  call-Next n a b (Prog.listen p l k) s le v w = absurd w
  call-Next n a b (Prog.accept p q k) s le v w = absurd w
  call-Next n a b (Prog.read p l k) s le v w = absurd w
  call-Next n a b (Prog.write p l k) s le v w = absurd w
  call-Next n a b (Prog.fd_close p k) s le v w = absurd w

  exec-Next :
      (n a b : ℕ) (pt : Point) (s : Sched Loop)
      → a + b ≤ n
      → Turn pt a b s
      → Left (s.running == s.main) (current s).fn pt a
      → Surely (Next n (goes_on pt s)) (exec uv pt s)
  unfolding exec
  exec-Next n a b entry s le v (c, lt, ends) =
      goes_on-Next n a b c entry (in_fn (current s).fn) s s le lt (refl, refl) v.listed ends
        v.others
  exec-Next n a b (in_fn p) s le v left = call-Next n a b p s le v left
  exec-Next n a b in_exit s le v left = exit_round-Next n a b s le v
  exec-Next n a b unset s le v w = absurd w
  exec-Next n a b (after_recv k) s le v w = absurd w
  exec-Next n a b (in_accept p q k) s le v w = absurd w
  exec-Next n a b (in_read p l k) s le v w = absurd w
  exec-Next n a b (after_write l k) s le v w = absurd w
  exec-Next n a b after_main s le v w = absurd w

  setrunning-same :
      (p q : Ptr) (s : Sched Loop)
      → (((setrunning p s).actor q).aid ≡ (s.actor q).aid)
        × (((setrunning p s).actor q).fn ≡ (s.actor q).fn)
  unfolding setrunning
  setrunning-same p q s = (ground arith, ground arith)

  -- The oldest ready actor gets the processor.
  setrunning-Next :
      (n : ℕ) (p : Ptr) (ps : List Ptr) (s : Sched Loop)
      → s.readyq ≡ p ∷ ps
      → count p ps ≡ 0
      → Listed (p ∷ ps) s
      → Work s.main s.actor (p ∷ ps) n
      → Next n
          (record { cpu = in_schdule; sche = s })
          (goes_on (s.actor p).ctx (setrunning p (record s { readyq = ps })))
  unfolding setrunning
  setrunning-Next n p ps s e out l (a, b, le, left, w) =
      let t = setrunning p (record s { readyq = ps }) in
      inr (
        n,
        rw e (ground arith),
        record {
          listed = record {
            table = record {
              ids = λ i q f. ground (arith, l.table.ids i q);
              allocated = l.table.allocated;
              counted = l.table.counted;
              some_room = l.table.some_room;
            };
            at_id = λ q ne.
                rw (setrunning-same p q (record s { readyq = ps })).0
                  (slot-same (s.actor q).aid s t refl ∙ l.at_id q ne);
            counted = l.counted;
            main_in = l.main_in;
          };
          work = (
            a,
            b,
            le,
            rw (setrunning-same p p (record s { readyq = ps })).1 left,
            Work-put s.main p s.actor (record (s.actor p) { status = Status.running }) ps b out w,
          );
        },
      )

  schdule-Next :
      (n : ℕ) (ps : List Ptr) (s : Sched Loop)
      → s.readyq ≡ ps
      → Queued [] s
      → Listed ps s
      → Work s.main s.actor ps n
      → Surely (Next n (record { cpu = in_schdule; sche = s })) (schdule uv ps s)
  unfolding schdule
  schdule-Next n [] s e v l w = absurd (l.main_in (count-nil s.main))
  schdule-Next n (p ∷ ps) s e v l w =
      setrunning-Next n p ps s e (ground (arith, (v.place p).ready, e, count-cons p p ps)) l w

  step_at-Next :
      (n : ℕ) (cpu : Cpu) (s : Sched Loop)
      → Queued [] s
      → Active cpu s
      → Listed (alive cpu s) s
      → WorkAt cpu s n
      → Surely (Next n (record { cpu = cpu; sche = s })) (step_at uv cpu s)
  unfolding step_at
  step_at-Next n (in_actor pt) s v run l (a, b, le, left, w) =
      exec-Next n a b pt s le
        (record {
          listed = l;
          left = left;
          others = w;
          alone = ground (arith, (v.place s.running).ready, run);
          active = run;
        })
        left
  step_at-Next n stopped s v run l w = absurd w
  step_at-Next n in_schdule s v run l w = schdule-Next n s.readyq s refl v l w

  -- A step of a machine whose actors end does not fault; it stops the machine with nobody in the
  -- table, or less is left to do after it.
  pub step-Next : (n : ℕ) (m : Machine Loop) → Placed m → Winds n m → Surely (Next n m) (step uv m)
  unfolding step
  step-Next n m v w = step_at-Next n m.cpu m.sche v.queued v.active w.listed w.work
