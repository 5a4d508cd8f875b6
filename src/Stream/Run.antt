-- ===== src/Stream/Run.antt =====
-- The bytes of a connection over a whole run.
use sherry.Base.{ℕ, zero, suc, ◌+◌, refl, Option, none, some, List, [], ◌++◌, and_then}
use sherry.Actor.{Ptr}
use sherry.Uv.{Uv}
use sherry.Sched.{Sched}
use sherry.Switch.{Cpu, in_actor, in_schdule, stopped, Machine}
use sherry.Step.{step, step_at, steps}
use sherry.Queues.{Holds, Surely, Surely-map}
use sherry.Resume.Step.{Sound}
use sherry.Progress.Run.{LegalRun, Surely-both, steps-finish}
use sherry.Mail.Run.{after_step}
use sherry.Stream.{Drains, given_at, arrived_at, lost_at, count_after, stream}
use sherry.Runs.{Along, every-Along}
use sherry.Stream.Reads.{Reads, step-Reads}
use sherry.Stream.Order.{Drains-then}
use sherry.Stream.Callbacks.{Flow, Flow-kept, schdule-Flow}
use sherry.Stream.Calls.{exec-Flow}

module _ {Loop : Type 0} (uv : Uv Loop) (p : Ptr) where
  -- The bytes that are given from the stream of `p` in the first `n` steps, in their order.
  unfoldable pub given_in : ℕ → Machine Loop → List ℕ
  given_in zero m = []
  given_in (suc n) m = given_at p m.cpu m.sche ++ after_step (given_in n) (step uv m)

  -- The buffers that `read_cb` is given for `p` in them.
  unfoldable pub arrived_in : ℕ → Machine Loop → List ℕ
  arrived_in zero m = []
  arrived_in (suc n) m = arrived_at uv p m.cpu m.sche ++ after_step (arrived_in n) (step uv m)

  -- How many bytes are thrown away in them: the unread rest when a new buffer comes or when the
  -- file descriptor is freed.
  unfoldable pub lost_in : ℕ → Machine Loop → ℕ
  lost_in zero m = 0
  lost_in (suc n) m = lost_at uv p m.cpu m.sche + count_after (lost_in n) (step uv m)

  abbrev pub Delivers : ℕ → Machine Loop → Machine Loop → Type 0
  Delivers n m t =
      Drains (given_in n m) (arrived_in n m) (lost_in n m) (stream p m.sche) (stream p t.sche)

  step-Flow :
      (cpu : Cpu) (s : Sched Loop)
      → Holds
          (λ t. Flow p (given_at p cpu s) (arrived_at uv p cpu s) (lost_at uv p cpu s) s t.sche)
          (step_at uv cpu s)
  unfolding step_at given_at arrived_at lost_at
  step-Flow (in_actor pt) s = exec-Flow p uv pt s
  step-Flow in_schdule s = schdule-Flow p uv s.readyq s
  step-Flow stopped s = Flow-kept p s s refl

  rest-Flow :
      (n : ℕ) (g a : List ℕ) (l : ℕ) (s : Sched Loop) (t : Machine Loop) (o : Option (Machine Loop))
      → Flow p g a l s t.sche
      → Holds (Delivers n t) o
      → Holds (λ u. Flow p (g ++ given_in n t) (a ++ arrived_in n t) (l + lost_in n t) s u.sche) o
  rest-Flow n g a l s t none f h = tt
  rest-Flow n g a l s t (some u) f h =
      Drains-then g (given_in n t) a (arrived_in n t) l (lost_in n t) (stream p s) (stream p t.sche)
        (stream p u.sche) f h

  then-Flow :
      (n : ℕ) (g a : List ℕ) (l : ℕ) (s : Sched Loop) (o : Option (Machine Loop))
      → Holds (λ t. Flow p g a l s t.sche) o
      → ((t : Machine Loop) → Holds (Delivers n t) (steps uv n t))
      → Holds
          (λ u.
            Flow p
              (g ++ after_step (given_in n) o)
              (a ++ after_step (arrived_in n) o)
              (l + count_after (lost_in n) o)
              s
              u.sche)
          (and_then o (steps uv n))
  then-Flow n g a l s none h rest = tt
  then-Flow n g a l s (some t) h rest = rest-Flow n g a l s t (steps uv n t) h (rest t)

  unfaulted-Delivers : (n : ℕ) (m : Machine Loop) → Holds (Delivers n m) (steps uv n m)
  unfolding steps step given_in arrived_in lost_in
  unfaulted-Delivers zero m = Flow-kept p m.sche m.sche refl
  unfaulted-Delivers (suc n) m =
      then-Flow n (given_at p m.cpu m.sche) (arrived_at uv p m.cpu m.sche)
        (lost_at uv p m.cpu m.sche) m.sche (step uv m) (step-Flow m.cpu m.sche)
        (unfaulted-Delivers n)

  -- For a file descriptor, in a run of `n` legal steps from a machine that is `Sound`, the run does
  -- not fault; what is given from it to readers in the run, followed by what is unread at the end,
  -- is in its order among what was unread at the start followed by the buffers that `read_cb` was
  -- given for it; and the number of bytes that are missing is that of the bytes which were unread
  -- when a new buffer came or when the file descriptor was freed, and of those before the offset at
  -- which a new buffer starts. In each step of the run where the running actor is in the loop of
  -- `sherry_read`, its code goes on with the bytes that are given, and a number that is theirs
  -- where there are any, or it sleeps and none are given; a call of `sherry_read` comes to the loop
  -- or returns without bytes. So no byte comes twice or overtakes another.
  pub steps-Delivers :
      (n : ℕ) (m : Machine Loop)
      → Sound m
      → LegalRun uv n m
      → Surely (λ t. Delivers n m t × Along uv Reads n m) (steps uv n m)
  steps-Delivers n m v l =
      Surely-map (λ t. Sound t × Delivers n m t) (λ t. Delivers n m t × Along uv Reads n m)
        (steps uv n m)
        (Surely-both Sound (Delivers n m) (steps uv n m) (steps-finish uv n m v l)
          (unfaulted-Delivers n m))
        (λ t (w, k). (k, every-Along uv Reads (step-Reads uv) n m))
