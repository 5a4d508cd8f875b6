-- ===== src/Step.antt =====
-- The whole machine: what the running actor does next, the loop of `schdule`, the start by
-- `sherry_init` and the end by `sherry_exit`; sherry.c, lines 378 to 407 and 660 to 701.
use sherry.Base.{
  ℕ, zero, suc, ℤ, Option, none, some, List, [], ◌∷◌, ◌++◌, ltb, ◌==◌, if◌then◌else◌, and_then,
  replicate,
}
use sherry.Actor.{
  Ptr, Prog, Point, unset, entry, in_fn, after_recv, in_accept, in_read, after_write, in_exit,
  after_main, Actor, new_actor,
}
use sherry.Uv.{Uv, Callback}
use sherry.Sched.{Sched, alloc_actor, reg_actor, unreg_actor, setrunning}
use sherry.Switch.{
  Cpu, in_actor, in_schdule, stopped, Machine, current, goes_on, yield, sherry_yield, sherry_spawn,
}
use sherry.Message.{sherry_msg_send, recv_begin, recv_end}
use sherry.Net.{
  sherry_fd_tcp, sherry_fd_close, sherry_tcp_bind, sherry_tcp_peername, sherry_listen,
  sherry_accept, read_loop, sherry_read, sherry_write, callback,
}

-- Memory that no allocation has returned yet.
abbrev pub no_actor : Actor
no_actor = new_actor Prog.done

module _ {Loop : Type 0} where
  -- A call that may fault, and the code that uses its result.
  abbrev pub then_run : (ℤ → Prog) → Option (ℤ × Sched Loop) → Option (Machine Loop)
  then_run k none = none
  then_run k (some (r, s)) = some (goes_on (in_fn (k r)) s)

  abbrev pub then_go : Prog → Option (Sched Loop) → Option (Machine Loop)
  then_go k none = none
  then_go k (some s) = some (goes_on (in_fn k) s)

  -- `sherry_main`, behind the call of the actor's function; `main` returns to the C runtime.
  unfoldable pub finish : Sched Loop → Machine Loop
  finish s =
      if s.running == s.main
      then record { cpu = stopped; sche = s }
      else yield after_main (unreg_actor (current s).aid s)

  -- One round of the loop in `sherry_exit`, or what follows it.
  unfoldable pub exit_round : Sched Loop → Machine Loop
  exit_round s =
      if ltb 1 s.curractors
      then sherry_yield in_exit s
      else record { cpu = stopped; sche = unreg_actor (s.actor s.main).aid s }

  -- The next call of the running actor.
  unfoldable pub call : Uv Loop → Prog → Sched Loop → Option (Machine Loop)
  call uv Prog.done s = some (finish s)
  call uv (Prog.printf n i k) s =
      some (goes_on (in_fn k) (record s { printed = s.printed ++ (n, i) ∷ [] }))
  call uv (Prog.spawn f k) s = let r = sherry_spawn f s in some (goes_on (in_fn (k r.0)) r.1)
  call uv (Prog.sched_yield k) s = some (sherry_yield (in_fn k) s)
  call uv (Prog.msg_send dst t payload k) s = then_go k (sherry_msg_send dst t payload s)
  call uv (Prog.msg_recv k) s = some (recv_begin (current s).mailbox k s)
  call uv (Prog.fd_tcp k) s = let r = sherry_fd_tcp uv s in some (goes_on (in_fn (k r.0)) r.1)
  call uv (Prog.tcp_bind p ip port k) s = then_run k (sherry_tcp_bind uv p ip port s)
  call uv (Prog.tcp_peername p namelen k) s =
      let name = (uv.getpeername p namelen s.loop).1 in
      then_run (λ err. k err name) (sherry_tcp_peername uv p namelen s)
  call uv (Prog.listen p backlog k) s = then_run k (sherry_listen uv p backlog s)
  call uv (Prog.accept srv cli k) s = some (goes_on (in_accept srv cli k) s)
  call uv (Prog.read p count k) s = sherry_read uv p count k s
  call uv (Prog.write p bytes k) s = sherry_write uv p bytes k s
  call uv (Prog.fd_close p k) s = then_run k (sherry_fd_close uv p s)
  call uv Prog.exit s = some (goes_on in_exit s)

  -- What the running actor does at a place in the code. An actor has no code before its context
  -- is made, and none behind the end of `sherry_main`.
  unfoldable pub exec : Uv Loop → Point → Sched Loop → Option (Machine Loop)
  exec uv unset s = none
  exec uv entry s = some (goes_on (in_fn (current s).fn) s)
  exec uv (in_fn p) s = call uv p s
  exec uv (after_recv k) s = some (recv_end (current s).mailbox k s)
  exec uv (in_accept srv cli k) s = sherry_accept uv srv cli k s
  exec uv (in_read p count k) s = read_loop uv p count k s
  exec uv (after_write count k) s = some (goes_on (in_fn (k count)) s)
  exec uv in_exit s = some (exit_round s)
  exec uv after_main s = none

  -- The callbacks of one `uv_run`, in their order.
  unfoldable pub callbacks : List Callback → Sched Loop → Option (Sched Loop)
  callbacks [] s = some s
  callbacks (c ∷ cs) s = and_then (callback c s) (callbacks cs)

  abbrev pub to_schdule : Option (Sched Loop) → Option (Machine Loop)
  to_schdule none = none
  to_schdule (some s) = some (record { cpu = in_schdule; sche = s })

  -- One round of the loop in `schdule`: the oldest ready actor, else the callbacks of libuv.
  unfoldable pub schdule : Uv Loop → List Ptr → Sched Loop → Option (Machine Loop)
  schdule uv [] s =
      let r = uv.run_once s.loop in to_schdule (callbacks r.0 (record s { loop = r.1 }))
  schdule uv (p ∷ ps) s = some (goes_on (s.actor p).ctx (setrunning p (record s { readyq = ps })))

  -- `none` is a fault of the program; a machine that has stopped stays as it is.
  unfoldable pub step_at : Uv Loop → Cpu → Sched Loop → Option (Machine Loop)
  step_at uv (in_actor pt) s = exec uv pt s
  step_at uv in_schdule s = schdule uv s.readyq s
  step_at uv stopped s = some (record { cpu = stopped; sche = s })

  unfoldable pub step : Uv Loop → Machine Loop → Option (Machine Loop)
  step uv m = step_at uv m.cpu m.sche

  unfoldable pub steps : Uv Loop → ℕ → Machine Loop → Option (Machine Loop)
  steps uv zero m = some m
  steps uv (suc n) m = and_then (step uv m) (steps uv n)

  -- The state before `main` is registered: an array of `sz` slots, all NULL.
  unfoldable pub blank : Uv Loop → ℕ → Sched Loop
  blank uv sz = record {
    actor = λ _. no_actor;
    next_actor = 0;
    actors = replicate sz none;
    curractors = 0;
    main = 0;
    running = 0;
    readyq = [];
    waitingmsg = [];
    fds = [];
    requests = [];
    loop = uv.loop_init;
    printed = [];
  }

  -- `sherry_init`, where the array has `sz` slots at first: 1000 in the source.
  unfoldable pub init_with : Uv Loop → ℕ → Sched Loop
  init_with uv sz = setrunning 0 (reg_actor 0 (alloc_actor Prog.done (blank uv sz)))

abbrev pub initial_size : ℕ
initial_size = 1000

module _ {Loop : Type 0} where
  unfoldable pub sherry_init : Uv Loop → Sched Loop
  unfolding init_with
  sherry_init uv = init_with uv initial_size

  -- The program whose `main` makes the calls `p` behind `sherry_init`.
  unfoldable pub boot : Uv Loop → Prog → Machine Loop
  boot uv p = goes_on (in_fn p) (sherry_init uv)
