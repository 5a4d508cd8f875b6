-- ===== src/Owns/Run.antt =====
-- A run under the discipline makes legal calls only.
use sherry.Base.{
  ℕ, zero, suc, ◌≡◌, refl, true, Option, none, some, List, [], ◌++◌, ◌==◌, count-nil, arith,
}
use sherry.Actor.{Ptr, Prog}
use sherry.Uv.{Uv}
use sherry.Sched.{setrunning, reg_actor, alloc_actor}
use sherry.Switch.{Machine}
use sherry.Step.{step, steps, boot, sherry_init, init_with, blank}
use sherry.Queues.{Holds, Surely}
use sherry.Queues.Switch.{Placed}
use sherry.Queues.Step.{step-Placed, boot-Placed}
use sherry.Resume.Step.{Sound}
use sherry.Progress.Run.{LegalRun, run-finish}
use sherry.Owns.{Uses, UsesAt, place, Keeps, closed_at, CalmRun}
use sherry.Owns.Legal.{legal-Owned}
use sherry.Owns.Round.{step_at-Keeps}

module _ {Loop : Type 0} (uv : Uv Loop) where
  rest_legal :
      (n : ℕ) (closed : List Ptr) (o : Option (Machine Loop))
      → Holds Placed o
      → Holds (Keeps closed) o
      → Holds (CalmRun uv n closed) o
      → ((t : Machine Loop) → Placed t → Keeps closed t → CalmRun uv n closed t → LegalRun uv n t)
      → Holds (LegalRun uv n) o
  rest_legal n closed none p k c rest = tt
  rest_legal n closed (some t) p k c rest = rest t p k c

  owned-LegalRun :
      (n : ℕ) (closed : List Ptr) (m : Machine Loop)
      → Placed m
      → Keeps closed m
      → CalmRun uv n closed m
      → LegalRun uv n m
  unfolding LegalRun CalmRun step
  owned-LegalRun zero closed m v k c = tt
  owned-LegalRun (suc n) closed m v (own, k) (calm, rest) = (
    legal-Owned uv own closed m.cpu m.sche k v.queued v.active calm,
    rest_legal n (closed_at m.cpu ++ closed) (step uv m) (step-Placed uv m v)
        (step_at-Keeps uv own closed m.cpu m.sche k v.queued v.active calm) rest
        (owned-LegalRun n (closed_at m.cpu ++ closed)),
  )

  boot-only : (p : Prog) → ((boot uv p).sche.next_actor ≡ 1) × ((boot uv p).sche.running ≡ 0)
  unfolding boot sherry_init init_with setrunning reg_actor alloc_actor blank
  boot-only p = (refl, refl)

  boot-UsesAt :
      (p : Prog) (a : Ptr)
      → Uses [] p
      → ((boot uv p).sche.running == a) ≡ true
      → UsesAt [] ((boot uv p).sche.actor a).fn (place (boot uv p).cpu (boot uv p).sche a)
  unfolding boot
  boot-UsesAt p a u e = rw e u

  boot-Keeps : (p : Prog) → Uses [] p → Keeps [] (boot uv p)
  boot-Keeps p u = (
    λ a. [],
    record {
      shares = record {
        live = λ a q ne. absurd (ne (count-nil q));
        once = λ a q. omega (arith, count-nil q);
        apart = λ a b q ne. omega (arith, count-nil q);
        gone = λ a q ne. count-nil q;
        made = λ q ne. absurd (ne (count-nil q));
        fresh = λ a q le. count-nil q;
      };
      uses = λ a lt.
          let here : ((boot uv p).sche.running == a) ≡ true =
            ground (arith, lt, (boot-only p).0, (boot-only p).1) in
          boot-UsesAt p a u here;
    },
  )

  -- A program that keeps the ownership discipline for file descriptors (each is used only by the
  -- actor that made it by `sherry_fd_tcp` or that it was handed to at its spawn, by nobody once it
  -- is closed, and no message is sent) does not fault in any number of steps from `sherry_init`,
  -- and every state is `Sound`: if libuv calls back on descriptors that are not freed, calls
  -- `close_cb` only for those that `sherry_fd_close` was called on, and reports no write as failed.
  pub owned-Sound :
      (p : Prog) (n : ℕ)
      → Uses [] p
      → CalmRun uv n [] (boot uv p)
      → Surely Sound (steps uv n (boot uv p))
  owned-Sound p n u calm =
      run-finish uv p n (owned-LegalRun n [] (boot uv p) (boot-Placed uv p) (boot-Keeps p u) calm)
