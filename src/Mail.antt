-- ===== src/Mail.antt =====
-- What happens to the messages of an actor: sherry.c, lines 426 to 467.
pub mod Untouched
pub mod History
pub mod Hands
pub mod Run
mod Tests
use sherry.Base.{ℕ, ◌≤◌, ◌<◌, ◌≡◌, Option, none, some, List, [], ◌∷◌, ◌==◌, if◌then◌else◌}
use sherry.Actor.{Ptr, Msg, Sds, Prog, Point, in_fn, after_recv}
use sherry.Sched.{Sched, slot, deref}
use sherry.Switch.{Cpu, in_actor, in_schdule, stopped, Machine, current}

abbrev pub box : {Loop : Type 0} → Ptr → Sched Loop → List Msg
box p s = (s.actor p).mailbox

-- No mailbox of an allocated actor changes.
pub record Kept {Loop : Type 0} (s t : Sched Loop) : Type 0 where
  pub boxes : (p : Ptr) → p < s.next_actor → box p t ≡ box p s
  pub grows : s.next_actor ≤ t.next_actor
