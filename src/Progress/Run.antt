-- ===== src/Progress/Run.antt =====
-- A run whose calls and callbacks are legal does not fault.
use sherry.Base.{ℕ, zero, suc, ◌≡◌, refl, true, Option, none, some, List, [], ◌∷◌, arith}
use sherry.Actor.{Ptr, Prog}
use sherry.Uv.{Uv}
use sherry.Sched.{Sched}
use sherry.Switch.{Cpu, in_actor, in_schdule, stopped, Machine}
use sherry.Step.{to_schdule, callbacks, schdule, step_at, step, steps, boot}
use sherry.Queues.{Holds, Surely, Surely-then}
use sherry.Resume.{Goes}
use sherry.Resume.Step.{Sound, step-Sound, boot-Sound}
use sherry.Progress.{is_some, legal_round, legal_at, Legal}
use sherry.Progress.Calls.{exec-some}
use sherry.Progress.Callbacks.{callbacks-finish}

Surely-Holds :
    {A : Type 0} (P : A → Type 0) (o : Option A) → is_some o ≡ true → Holds P o → Surely P o
Surely-Holds P none h k = ground (arith, h)
Surely-Holds P (some a) h k = k

pub Surely-both :
    {A : Type 0} (P Q : A → Type 0) (o : Option A)
    → Surely P o
    → Holds Q o
    → Surely (λ a. P a × Q a) o
Surely-both P Q none h k = h
Surely-both P Q (some a) h k = (h, k)

to_schdule-some :
    {Loop : Type 0} (o : Option (Sched Loop))
    → Surely (λ t. Unit {0}) o
    → is_some (to_schdule o) ≡ true
to_schdule-some none h = absurd h
to_schdule-some (some s) h = refl

module _ {Loop : Type 0} (uv : Uv Loop) where
  schdule-some :
      (ps : List Ptr) (s : Sched Loop)
      → legal_round uv ps s ≡ true
      → is_some (schdule uv ps s) ≡ true
  unfolding schdule legal_round
  schdule-some [] s h =
      let r = uv.run_once s.loop in
      to_schdule-some (callbacks r.0 (record s { loop = r.1 }))
        (callbacks-finish r.0 (record s { loop = r.1 }) h)
  schdule-some (p ∷ ps) s h = refl

  step_at-some :
      (cpu : Cpu) (s : Sched Loop)
      → Goes cpu s
      → legal_at uv cpu s ≡ true
      → is_some (step_at uv cpu s) ≡ true
  unfolding step_at legal_at
  step_at-some (in_actor pt) s g h = exec-some uv pt s g h
  step_at-some in_schdule s g h = schdule-some s.readyq s h
  step_at-some stopped s g h = refl

  -- A machine with both invariants whose next call or callbacks are legal has a next state, which
  -- has the invariants again.
  pub step-finish : (m : Machine Loop) → Sound m → Legal uv m → Surely Sound (step uv m)
  unfolding step
  step-finish m v h =
      Surely-Holds Sound (step uv m) (step_at-some m.cpu m.sche v.resumes.now h) (step-Sound uv m v)

  -- Every machine in the first `n` steps of a run makes legal calls.
  unfoldable pub LegalRun : ℕ → Machine Loop → Type 0
  LegalRun zero m = Unit {0}
  LegalRun (suc n) m = Legal uv m × Holds (LegalRun n) (step uv m)

  pub steps-finish :
      (n : ℕ) (m : Machine Loop) → Sound m → LegalRun n m → Surely Sound (steps uv n m)
  unfolding steps LegalRun
  steps-finish zero m v l = v
  steps-finish (suc n) m v l =
      Surely-then (λ t. Sound t × LegalRun n t) Sound (step uv m) (steps uv n)
        (Surely-both Sound (LegalRun n) (step uv m) (step-finish m v l.0) l.1)
        (λ t (w, k). steps-finish n t w k)

  -- A legal run from `sherry_init` does not fault, and every state of it is `Sound`.
  pub run-finish :
      (p : Prog) (n : ℕ) → LegalRun n (boot uv p) → Surely Sound (steps uv n (boot uv p))
  run-finish p n l = steps-finish n (boot uv p) (boot-Sound uv p) l
