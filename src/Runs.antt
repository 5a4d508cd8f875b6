-- ===== src/Runs.antt =====
-- What holds of each step of a run of the machine (Step.antt).
use sherry.Base.{ℕ, zero, suc, ◌≡◌, ◌==◌, true, arith, Option, none, some}
use sherry.Uv.{Uv}
use sherry.Switch.{Machine}
use sherry.Step.{step}
use sherry.Queues.{Holds}

pub self-true : (p : ℕ) → (p == p) ≡ true
self-true p = ground arith

pub Holds-unit : {A : Type 0} (o : Option A) → Holds {0} (λ a. Unit) o
Holds-unit none = tt
Holds-unit (some a) = tt

module _ {Loop : Type 0} (uv : Uv Loop) where
  -- `P` holds of the machine before and behind each of the first `n` steps that do not fault.
  abbrev pub Along : (Machine Loop → Machine Loop → Type 0) → ℕ → Machine Loop → Type 0
  Along P zero m = Unit
  Along P (suc n) m = Holds (λ t. P m t × Along P n t) (step uv m)

  Along-step :
      (P : Machine Loop → Machine Loop → Type 0) (n : ℕ) (m : Machine Loop)
      (o : Option (Machine Loop))
      → Holds (P m) o
      → ((t : Machine Loop) → Along P n t)
      → Holds (λ t. P m t × Along P n t) o
  Along-step P n m none h rest = tt
  Along-step P n m (some t) h rest = (h, rest t)

  -- What holds of every step holds along every run.
  pub every-Along :
      (P : Machine Loop → Machine Loop → Type 0)
      → ((m : Machine Loop) → Holds (P m) (step uv m))
      → (n : ℕ) (m : Machine Loop) → Along P n m
  every-Along P h zero m = tt
  every-Along P h (suc n) m = Along-step P n m (step uv m) (h m) (every-Along P h n)
