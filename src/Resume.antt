-- ===== src/Resume.antt =====
-- Where an actor goes on when it gets the processor again, by its status: the saved contexts and the
-- mailboxes.
pub mod Switch
pub mod Message
pub mod Net
pub mod Step
use sherry.Base.{ℕ, ◌≡◌, Bool, true, false, not, ◌&&◌, List, [], ◌∷◌}
use sherry.Actor.{
  Ptr, Msg, Status, Point, unset, entry, in_fn, after_recv, in_accept, in_read, after_write,
  in_exit, after_main,
}
use sherry.Sched.{Sched}
use sherry.Switch.{Cpu, in_actor, in_schdule, stopped, Machine, current}

abbrev pub is_empty {ℓ} : {A : Type ℓ} → List A → Bool
is_empty [] = true
is_empty (x ∷ xs) = false

-- May the actor go on here? There is no code at `unset` and `after_main`, and `sherry_msg_recv` goes
-- on only with a message.
abbrev pub can_resume : Point → List Msg → Bool
can_resume unset box = false
can_resume (after_recv k) box = not (is_empty box)
can_resume after_main box = false
can_resume _ box = true

abbrev pub is_recv : Point → Bool
is_recv (after_recv k) = true
is_recv _ = false

-- A wait for the network ends in one of these.
abbrev pub is_io : Point → Bool
is_io (in_accept srv cli k) = true
is_io (in_read p count k) = true
is_io (after_write count k) = true
is_io _ = false

-- A ready actor can go on; one that waits for a message has none; one that waits for an event is in
-- a network call.
abbrev pub fits : Status → Point → List Msg → Bool
fits Status.ready pt box = can_resume pt box
fits Status.wait_msg pt box = is_recv pt && is_empty box
fits Status.wait_ev pt box = is_io pt
fits _ pt box = true

abbrev pub fits_at : {Loop : Type 0} → Sched Loop → Ptr → Bool
fits_at s p = fits (s.actor p).status (s.actor p).ctx (s.actor p).mailbox

pub record Fits {Loop : Type 0} (s : Sched Loop) : Type 0 where
  pub at : (p : Ptr) → fits_at s p ≡ true

abbrev pub Goes : {Loop : Type 0} → Cpu → Sched Loop → Type 0
Goes (in_actor pt) s = can_resume pt (current s).mailbox ≡ true
Goes in_schdule s = Unit {0}
Goes stopped s = Unit {0}

-- Every actor can go on when its time comes, the one that has the processor now.
pub record Resumes {Loop : Type 0} (m : Machine Loop) : Type 0 where
  pub contexts : Fits m.sche
  pub now : Goes m.cpu m.sche
