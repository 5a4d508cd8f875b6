-- ===== src/Table.antt =====
-- The table of actors, by which an id names an actor: sherry.c, lines 305 to 351.
mod Tests
pub mod Slots
pub mod Register
pub mod Start
pub mod Run
use sherry.Base.{
  ℕ, suc, ◌+◌, ◌≤◌, ◌<◌, ◌≡◌, pos, Bool, true, false, Option, none, some, List, [], ◌∷◌, length,
  get_elem?,
}
use sherry.Actor.{Ptr, Status}
use sherry.Sched.{Sched, slot}
use sherry.Switch.{Cpu, in_actor, in_schdule, stopped, Machine, current}

-- The number of slots that hold an actor.
unfoldable pub occupied : List (Option Ptr) → ℕ
occupied [] = 0
occupied (none ∷ slots) = occupied slots
occupied (some p ∷ slots) = suc (occupied slots)

-- An actor in the table is allocated and has the index of its slot for its id; `curractors` counts
-- the actors in the table, which has room for one at least.
pub record Indexed {Loop : Type 0} (s : Sched Loop) : Type 0 where
  pub ids : (i p : ℕ) → get_elem? s.actors i ≡ some (some p) → (s.actor p).aid ≡ pos i
  pub allocated : (i p : ℕ) → get_elem? s.actors i ≡ some (some p) → p < s.next_actor
  pub counted : s.curractors ≡ occupied s.actors
  pub some_room : 0 < length s.actors
