-- ===== src/Queues/Step.antt =====
-- Every step of the machine keeps every actor where its status says, from `sherry_init` on.
use sherry.Base.{
  ℕ, zero, suc, ℤ, ◌≡◌, refl, Option, none, some, List, [], ◌∷◌, arith, count, count-nil,
}
use sherry.Actor.{
  Ptr, Status, Prog, Point, unset, entry, in_fn, after_recv, in_accept, in_read, after_write,
  in_exit, after_main,
}
use sherry.Uv.{Uv, Callback}
use sherry.Sched.{Sched, alloc_actor, reg_actor, setrunning}
use sherry.Switch.{Cpu, in_actor, in_schdule, stopped, Machine, current}
use sherry.Message.{sherry_msg_send}
use sherry.Net.{callback}
use sherry.Step.{
  call, exec, callbacks, schdule, step_at, step, steps, blank, init_with, boot, then_run, then_go,
  sherry_init, to_schdule, initial_size,
}
use sherry.Queues.{waits, Holds, Holds-then, Queued}
use sherry.Queues.Switch.{
  Active, Placed, setrunning-Queued, sherry_yield-Placed, sherry_spawn-Queued, sherry_spawn-Active,
  finish-Placed, exit_round-Placed,
}
use sherry.Queues.Message.{sherry_msg_send-Queued, recv_begin-Placed, recv_end-Placed}
use sherry.Queues.Net.{callback-Queued}
use sherry.Queues.Calls.{
  Runs, sherry_fd_tcp-Runs, sherry_fd_close-Runs, sherry_tcp_bind-Runs, sherry_tcp_peername-Runs,
  sherry_listen-Runs, sherry_accept-Placed, read_loop-Placed, sherry_read-Placed,
  sherry_write-Placed,
}

module _ {Loop : Type 0} where
  then_run-Placed :
      (k : ℤ → Prog) (o : Option (ℤ × Sched Loop))
      → Holds (λ r. Runs r.1) o
      → Holds Placed (then_run k o)
  then_run-Placed k none h = tt
  then_run-Placed k (some (r, s)) h = record { queued = h.0; active = h.1 }

  then_go-Placed : (k : Prog) (o : Option (Sched Loop)) → Holds Runs o → Holds Placed (then_go k o)
  then_go-Placed k none h = tt
  then_go-Placed k (some s) h = record { queued = h.0; active = h.1 }

  call-Placed : (uv : Uv Loop) (p : Prog) (s : Sched Loop) → Runs s → Holds Placed (call uv p s)
  unfolding call
  call-Placed uv Prog.done s v = finish-Placed s v.0 v.1
  call-Placed uv (Prog.printf n i k) s v = record {
    queued = record { place = λ q. ground (arith, v.0.place q); unused = v.0.unused };
    active = v.1;
  }
  call-Placed uv (Prog.spawn f k) s v = record {
    queued = sherry_spawn-Queued f s v.0;
    active = sherry_spawn-Active f s v.0 v.1;
  }
  call-Placed uv (Prog.sched_yield k) s v = sherry_yield-Placed (in_fn k) s v.0 v.1
  call-Placed uv (Prog.msg_send dst t payload k) s v =
      then_go-Placed k (sherry_msg_send dst t payload s)
        (sherry_msg_send-Queued dst t payload s v.0 v.1)
  call-Placed uv (Prog.msg_recv k) s v = recv_begin-Placed (current s).mailbox k s v.0 v.1
  call-Placed uv (Prog.fd_tcp k) s v =
      let v' = sherry_fd_tcp-Runs uv s v in record { queued = v'.0; active = v'.1 }
  call-Placed uv (Prog.tcp_bind p ip port k) s v =
      then_run-Placed k _ (sherry_tcp_bind-Runs uv p ip port s v)
  call-Placed uv (Prog.tcp_peername p n k) s v =
      then_run-Placed (λ err. k err (uv.getpeername p n s.loop).1) _
        (sherry_tcp_peername-Runs uv p n s v)
  call-Placed uv (Prog.listen o backlog k) s v =
      then_run-Placed k _ (sherry_listen-Runs uv o backlog s v)
  call-Placed uv (Prog.accept srv cli k) s v = record { queued = v.0; active = v.1 }
  call-Placed uv (Prog.read p count k) s v = sherry_read-Placed uv p count k s v
  call-Placed uv (Prog.write p bytes k) s v = sherry_write-Placed uv p bytes k s v
  call-Placed uv (Prog.fd_close p k) s v = then_run-Placed k _ (sherry_fd_close-Runs uv p s v)
  call-Placed uv Prog.exit s v = record { queued = v.0; active = v.1 }

  exec-Placed : (uv : Uv Loop) (pt : Point) (s : Sched Loop) → Runs s → Holds Placed (exec uv pt s)
  unfolding exec
  exec-Placed uv unset s v = tt
  exec-Placed uv entry s v = record { queued = v.0; active = v.1 }
  exec-Placed uv (in_fn p) s v = call-Placed uv p s v
  exec-Placed uv (after_recv k) s v = recv_end-Placed (current s).mailbox k s v.0 v.1
  exec-Placed uv (in_accept srv cli k) s v = sherry_accept-Placed uv srv cli k s v
  exec-Placed uv (in_read p n k) s v = read_loop-Placed uv p n k s v
  exec-Placed uv (after_write n k) s v = record { queued = v.0; active = v.1 }
  exec-Placed uv in_exit s v = exit_round-Placed s v.0 v.1
  exec-Placed uv after_main s v = tt

  callbacks-Queued :
      (cs : List Callback) (s : Sched Loop) → Queued [] s → Holds (Queued []) (callbacks cs s)
  unfolding callbacks
  callbacks-Queued [] s v = v
  callbacks-Queued (c ∷ cs) s v =
      Holds-then (Queued []) (Queued []) (callback c s) (callbacks cs) (callback-Queued c s v)
        (callbacks-Queued cs)

  to_schdule-Placed : (o : Option (Sched Loop)) → Holds (Queued []) o → Holds Placed (to_schdule o)
  to_schdule-Placed none h = tt
  to_schdule-Placed (some s) h = record { queued = h; active = tt }

  setrunning-Active :
      (p : Ptr) (s : Sched Loop) → (current (setrunning p s)).status ≡ Status.running
  unfolding setrunning
  setrunning-Active p s = ground arith

  schdule-Placed :
      (uv : Uv Loop) (ps : List Ptr) (s : Sched Loop)
      → s.readyq ≡ ps
      → Queued [] s
      → Holds Placed (schdule uv ps s)
  unfolding schdule
  schdule-Placed uv [] s e v =
      let r = uv.run_once s.loop in
      to_schdule-Placed (callbacks r.0 (record s { loop = r.1 })) (
        callbacks-Queued r.0 (record s { loop = r.1 })
          (record { place = λ q. ground (arith, v.place q); unused = v.unused }))
  schdule-Placed uv (p ∷ ps) s e v = record {
    queued = setrunning-Queued p ps s e v;
    active = setrunning-Active p (record s { readyq = ps });
  }

  step_at-Placed :
      (uv : Uv Loop) (cpu : Cpu) (s : Sched Loop)
      → Queued [] s
      → Active cpu s
      → Holds Placed (step_at uv cpu s)
  unfolding step_at
  step_at-Placed uv (in_actor pt) s v a = exec-Placed uv pt s (v, a)
  step_at-Placed uv in_schdule s v a = schdule-Placed uv s.readyq s refl v
  step_at-Placed uv stopped s v a = record { queued = v; active = a }

  -- A step that does not fault keeps every actor in the one queue that its status names, or in
  -- none, and the actor that has the processor is the running one.
  pub step-Placed : (uv : Uv Loop) (m : Machine Loop) → Placed m → Holds Placed (step uv m)
  unfolding step
  step-Placed uv m v = step_at-Placed uv m.cpu m.sche v.queued v.active

  pub steps-Placed :
      (uv : Uv Loop) (n : ℕ) (m : Machine Loop) → Placed m → Holds Placed (steps uv n m)
  unfolding steps
  steps-Placed uv zero m v = v
  steps-Placed uv (suc n) m v =
      Holds-then Placed Placed (step uv m) (steps uv n) (step-Placed uv m v) (steps-Placed uv n)

  -- The scheduler that `sherry_init` makes.
  pub init_with-Queued : (uv : Uv Loop) (sz : ℕ) → Queued [] (init_with uv sz)
  unfolding init_with setrunning reg_actor alloc_actor blank waits
  init_with-Queued uv sz = record {
    place = λ q. ground (arith, count-nil q);
    unused = λ q h. ground arith;
  }

  pub boot-Placed : (uv : Uv Loop) (p : Prog) → Placed (boot uv p)
  unfolding boot sherry_init
  boot-Placed uv p = record {
    queued = init_with-Queued uv initial_size;
    active = setrunning-Active 0 (reg_actor 0 (alloc_actor Prog.done (blank uv initial_size)));
  }

  -- Whatever the program and the network do, after any number of steps without a fault every actor
  -- stands in the one queue that its status names, or in none, and only once.
  pub run-Placed : (uv : Uv Loop) (p : Prog) (n : ℕ) → Holds Placed (steps uv n (boot uv p))
  run-Placed uv p n = steps-Placed uv n (boot uv p) (boot-Placed uv p)
