-- ===== src/Turns/Run.antt =====
-- The actors that `schdule` runs, over a whole run.
use sherry.Base.{ℕ, zero, suc, ◌≡◌, List, [], ◌∷◌, ◌++◌}
use sherry.Actor.{Ptr}
use sherry.Uv.{Uv}
use sherry.Sched.{Sched}
use sherry.Switch.{Cpu, in_schdule, Machine}
use sherry.Step.{step}
use sherry.Mail.Run.{after_step}

-- The actor that the next step takes out of the ready queue.
unfoldable pub picked_at : Cpu → List Ptr → List Ptr
picked_at in_schdule (p ∷ ps) = p ∷ []
picked_at _ _ = []

-- Some actors join the end of the queue, and those of `picked` leave its front.
pub record Turned (queue picked rest : List Ptr) : Type 0 where
  pub new : List Ptr
  pub order : queue ++ new ≡ picked ++ rest

module _ {Loop : Type 0} (uv : Uv Loop) where
  -- The actors that get the processor in the first `n` steps, in their order.
  unfoldable pub picked_in : ℕ → Machine Loop → List Ptr
  picked_in zero m = []
  picked_in (suc n) m = picked_at m.cpu m.sche.readyq ++ after_step (picked_in n) (step uv m)

  abbrev pub InTurn : ℕ → Machine Loop → Machine Loop → Type 0
  InTurn n m t = Turned m.sche.readyq (picked_in n m) t.sche.readyq
