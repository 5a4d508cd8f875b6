-- ===== src/Turns.antt =====
-- The order in which actors get the processor: sherry.c, lines 354 to 390.
pub mod Joins
pub mod Run
mod Tests
use sherry.Base.{◌≡◌, List, ◌++◌}
use sherry.Actor.{Ptr}
use sherry.Sched.{Sched}

-- Actors are put at the end of the ready queue, and nothing else happens to it.
pub record Joined {Loop : Type 0} (s t : Sched Loop) : Type 0 where
  pub new : List Ptr
  pub queue : t.readyq ≡ s.readyq ++ new
