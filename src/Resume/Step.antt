-- ===== src/Resume/Step.antt =====
-- Every step leaves every actor able to go on, from `sherry_init` on.
use sherry.Base.{
  ℕ, ℤ, ◌≡◌, refl, Option, none, some, List, [], ◌∷◌, ◌==◌, Bool-cases, inl, inr, arith,
}
use sherry.Actor.{
  Ptr, Status, Prog, Point, unset, entry, in_fn, after_recv, in_accept, in_read, after_write,
  in_exit, after_main,
}
use sherry.Uv.{Uv, Callback}
use sherry.Sched.{Fd, Sched, alloc_actor, reg_actor, setrunning}
use sherry.Switch.{Cpu, in_actor, in_schdule, stopped, Machine, current}
use sherry.Message.{sherry_msg_send}
use sherry.Net.{
  callback, get_fd, sherry_fd_tcp, if_live, sherry_accept, read_loop, sherry_tcp_bind,
  sherry_tcp_peername, sherry_listen, listen_fd, sherry_fd_close, fd_tcp_type,
}
use sherry.Step.{
  call, exec, callbacks, schdule, step_at, step, blank, init_with, boot, then_run, then_go,
  sherry_init, to_schdule,
}
use sherry.Queues.{Holds, Holds-both, Holds-then, Queued}
use sherry.Queues.Switch.{Active, Placed}
use sherry.Queues.Net.{callback-Queued}
use sherry.Queues.Step.{step-Placed, boot-Placed}
use sherry.Resume.{Fits, Resumes}
use sherry.Resume.Switch.{
  sherry_yield-Resumes, finish-Resumes, exit_round-Resumes, sherry_spawn-Fits, setrunning-Resumes,
}
use sherry.Resume.Message.{sherry_msg_send-Fits, recv_begin-Resumes, recv_end-Resumes}
use sherry.Resume.Net.{
  callback-Fits, accept_fd-Resumes, read_fd-Resumes, sherry_read-Resumes, sherry_write-Resumes,
}

module _ {Loop : Type 0} where
  then_run-Resumes :
      (k : ℤ → Prog) (s : Sched Loop) (o : Option (ℤ × Sched Loop))
      → Fits s
      → Holds (λ r. (r.1).actor ≡ s.actor) o
      → Holds Resumes (then_run k o)
  then_run-Resumes k s none w h = tt
  then_run-Resumes k s (some (r, t)) w h = record {
    contexts = record { at = λ p. rw h (w.at p) };
    now = refl;
  }

  then_go-Resumes :
      (k : Prog) (o : Option (Sched Loop)) → Holds Fits o → Holds Resumes (then_go k o)
  then_go-Resumes k none h = tt
  then_go-Resumes k (some s) h = record { contexts = h; now = refl }

  live-actor :
      (s : Sched Loop) (o : Option Fd) (r : ℤ × Sched Loop)
      → (r.1).actor ≡ s.actor
      → Holds (λ (x : ℤ × Sched Loop). (x.1).actor ≡ s.actor) (if_live o r)
  live-actor s none r e = tt
  live-actor s (some f) r e = e

  listen-actor :
      (uv : Uv Loop) (p : Ptr) (backlog : ℕ) (o : Option Fd) (s : Sched Loop)
      → Holds (λ r. (r.1).actor ≡ s.actor) (listen_fd uv p backlog o s)
  unfolding listen_fd
  listen-actor uv p backlog none s = tt
  listen-actor uv p backlog (some f) s = elim (Bool-cases (f.type == fd_tcp_type)) [
    | inl tcp ↦ rw tcp refl
    | inr other ↦ rw other refl
  ]

  call-Resumes :
      (uv : Uv Loop) (p : Prog) (s : Sched Loop)
      → (current s).status ≡ Status.running
      → Fits s
      → Holds Resumes (call uv p s)
  unfolding call
  call-Resumes uv Prog.done s run w = finish-Resumes s w run
  call-Resumes uv (Prog.printf n i k) s run w = record {
    contexts = record { at = w.at };
    now = refl;
  }
  call-Resumes uv (Prog.spawn f k) s run w = record {
    contexts = sherry_spawn-Fits f s w;
    now = refl;
  }
  call-Resumes uv (Prog.sched_yield k) s run w = sherry_yield-Resumes (in_fn k) s w run refl
  call-Resumes uv (Prog.msg_send dst t payload k) s run w =
      then_go-Resumes k (sherry_msg_send dst t payload s) (sherry_msg_send-Fits dst t payload s w)
  call-Resumes uv (Prog.msg_recv k) s run w = recv_begin-Resumes (current s).mailbox k s refl w
  call-Resumes uv (Prog.fd_tcp k) s run w =
      unfold sherry_fd_tcp in record { contexts = record { at = w.at }; now = refl }
  call-Resumes uv (Prog.tcp_bind p ip port k) s run w =
      unfold sherry_tcp_bind in then_run-Resumes k s _ w (live-actor s (get_fd p s) _ refl)
  call-Resumes uv (Prog.tcp_peername p n k) s run w =
      unfold sherry_tcp_peername in
      then_run-Resumes (λ err. k err (uv.getpeername p n s.loop).1) s _ w
        (live-actor s (get_fd p s) _ refl)
  call-Resumes uv (Prog.listen none backlog k) s run w =
      unfold sherry_listen in record { contexts = w; now = refl }
  call-Resumes uv (Prog.listen (some p) backlog k) s run w =
      unfold sherry_listen in then_run-Resumes k s _ w (listen-actor uv p backlog (get_fd p s) s)
  call-Resumes uv (Prog.accept srv cli k) s run w = record { contexts = w; now = refl }
  call-Resumes uv (Prog.read p count k) s run w = sherry_read-Resumes uv p count k s w
  call-Resumes uv (Prog.write p bytes k) s run w = sherry_write-Resumes uv p bytes k s w
  call-Resumes uv (Prog.fd_close p k) s run w =
      unfold sherry_fd_close in then_run-Resumes k s _ w (live-actor s (get_fd p s) _ refl)
  call-Resumes uv Prog.exit s run w = record { contexts = w; now = refl }

  exec-Resumes :
      (uv : Uv Loop) (pt : Point) (s : Sched Loop)
      → (current s).status ≡ Status.running
      → Fits s
      → Holds Resumes (exec uv pt s)
  unfolding exec sherry_accept read_loop
  exec-Resumes uv unset s run w = tt
  exec-Resumes uv entry s run w = record { contexts = w; now = refl }
  exec-Resumes uv (in_fn p) s run w = call-Resumes uv p s run w
  exec-Resumes uv (after_recv k) s run w = recv_end-Resumes (current s).mailbox k s run w
  exec-Resumes uv (in_accept srv cli k) s run w =
      accept_fd-Resumes uv srv cli k (get_fd srv s) (get_fd cli s) s w
  exec-Resumes uv (in_read p n k) s run w = read_fd-Resumes uv p n k (get_fd p s) s w
  exec-Resumes uv (after_write n k) s run w = record { contexts = w; now = refl }
  exec-Resumes uv in_exit s run w = exit_round-Resumes s w run
  exec-Resumes uv after_main s run w = tt

  callbacks-Fits :
      (cs : List Callback) (s : Sched Loop) → Queued [] s → Fits s → Holds Fits (callbacks cs s)
  unfolding callbacks
  callbacks-Fits [] s v w = w
  callbacks-Fits (c ∷ cs) s v w =
      Holds-then (λ t. Queued [] t × Fits t) Fits (callback c s) (callbacks cs)
        (Holds-both (Queued []) Fits (callback c s) (callback-Queued c s v) (callback-Fits c s v w))
        λ t h. callbacks-Fits cs t h.0 h.1

  to_schdule-Resumes : (o : Option (Sched Loop)) → Holds Fits o → Holds Resumes (to_schdule o)
  to_schdule-Resumes none h = tt
  to_schdule-Resumes (some s) h = record { contexts = h; now = tt }

  schdule-Resumes :
      (uv : Uv Loop) (ps : List Ptr) (s : Sched Loop)
      → s.readyq ≡ ps
      → Queued [] s
      → Fits s
      → Holds Resumes (schdule uv ps s)
  unfolding schdule
  schdule-Resumes uv [] s e v w =
      let r = uv.run_once s.loop in
      let t = record s { loop = r.1 } in
      to_schdule-Resumes (callbacks r.0 t) (
        callbacks-Fits r.0 t (record { place = λ q. ground (arith, v.place q); unused = v.unused })
          (record { at = w.at }))
  schdule-Resumes uv (p ∷ ps) s e v w = setrunning-Resumes p ps s e v w

  step_at-Resumes :
      (uv : Uv Loop) (cpu : Cpu) (s : Sched Loop)
      → Queued [] s
      → Active cpu s
      → Fits s
      → Holds Resumes (step_at uv cpu s)
  unfolding step_at
  step_at-Resumes uv (in_actor pt) s v a w = exec-Resumes uv pt s a w
  step_at-Resumes uv in_schdule s v a w = schdule-Resumes uv s.readyq s refl v w
  step_at-Resumes uv stopped s v a w = record { contexts = w; now = tt }

  step-Resumes :
      (uv : Uv Loop) (m : Machine Loop) → Placed m → Resumes m → Holds Resumes (step uv m)
  unfolding step
  step-Resumes uv m v w = step_at-Resumes uv m.cpu m.sche v.queued v.active w.contexts

  -- Both invariants of a machine.
  pub record Sound (m : Machine Loop) : Type 0 where
    pub placed : Placed m
    pub resumes : Resumes m

  sound : (o : Option (Machine Loop)) → Holds Placed o → Holds Resumes o → Holds Sound o
  sound none h k = tt
  sound (some m) h k = record { placed = h; resumes = k }

  -- A step that does not fault from a machine that is `Sound` leaves one that is `Sound`.
  pub step-Sound : (uv : Uv Loop) (m : Machine Loop) → Sound m → Holds Sound (step uv m)
  step-Sound uv m v =
      sound (step uv m) (step-Placed uv m v.placed) (step-Resumes uv m v.placed v.resumes)

  boot-Resumes : (uv : Uv Loop) (p : Prog) → Resumes (boot uv p)
  unfolding boot sherry_init init_with setrunning reg_actor alloc_actor blank
  boot-Resumes uv p = record { contexts = record { at = λ q. ground arith }; now = refl }

  pub boot-Sound : (uv : Uv Loop) (p : Prog) → Sound (boot uv p)
  boot-Sound uv p = record { placed = boot-Placed uv p; resumes = boot-Resumes uv p }
