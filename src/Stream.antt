-- ===== src/Stream.antt =====
-- The bytes of a connection over a run: what libuv hands to `read_cb`, what `sherry_read` returns
-- to the actors, and what is lost between them; sherry.c, lines 585 to 635 and 652 to 658.
pub mod Order
pub mod Fds
pub mod Callbacks
pub mod Read
pub mod Reads
pub mod Calls
pub mod Run
mod Tests
use sherry.Base.{
  ℕ, ◌+◌, ◌-◌, ◌≡◌, ◌||◌, is_neg, is_zero, Option, none, some, List, [], ◌∷◌, ◌++◌, ◌==◌,
  if◌then◌else◌, length, take, drop,
}
use mathlib.Core.List.{Sublist}
use sherry.Actor.{Ptr, Point, in_read}
use sherry.Uv.{Uv, Callback, on_listen, on_read, on_write, on_close}
use sherry.Sched.{Fd, Sched}
use sherry.Switch.{Cpu, in_actor, in_schdule, stopped, Machine}
use sherry.Net.{get_fd, kept_offset, read_size, callback}
use sherry.Read.Outcome.{unread}

-- The bytes in the buffer of a file descriptor that no read has returned yet.
abbrev pub unread_of : Option Fd → List ℕ
unread_of none = []
unread_of (some f) = unread f

-- `had` are the bytes before and `left` those after: of `had` and then `arrived`, `given` and then
-- `left` are what is not among the `lost` bytes, in their order.
pub record Drains (given arrived : List ℕ) (lost : ℕ) (had left : List ℕ) : Type 0 where
  pub in_order : Sublist (given ++ left) (had ++ arrived)
  pub balance : length had + length arrived ≡ length given + length left + lost

-- The bytes that the next round of the loop in `sherry_read` returns.
abbrev pub given_by : (count : ℕ) → Option Fd → List ℕ
given_by count none = []
given_by count (some f) = if is_zero f.rerror then take (read_size count f) (unread f) else []

-- The buffer that a callback hands to `read_cb`, where bytes were received.
unfoldable pub arrived_by : Ptr → Callback → List ℕ
arrived_by p (on_read q nread buf) =
    if p == q then if is_neg nread || is_zero nread then [] else buf else []
arrived_by p _ = []

unfoldable pub arrived_by_all : Ptr → List Callback → List ℕ
arrived_by_all p [] = []
arrived_by_all p (c ∷ cs) = arrived_by p c ++ arrived_by_all p cs

-- What a new buffer makes lost: the unread rest of the old one, and the offset that it starts with.
abbrev pub lost_to : (buf : List ℕ) → Option Fd → ℕ
lost_to buf none = 0
lost_to buf (some f) = length (unread f) + (length buf - length (drop (kept_offset f) buf))

abbrev pub count_after : {A : Type 0} → (A → ℕ) → Option A → ℕ
count_after f none = 0
count_after f (some a) = f a

module _ {Loop : Type 0} where
  abbrev pub stream : Ptr → Sched Loop → List ℕ
  stream p s = unread_of (get_fd p s)

  -- What a callback makes lost: also what is unread when the file descriptor is freed.
  unfoldable pub lost_by : Ptr → Callback → Sched Loop → ℕ
  lost_by p (on_read q nread buf) s =
      if p == q then if is_neg nread || is_zero nread then 0 else lost_to buf (get_fd q s) else 0
  lost_by p (on_close q) s = if p == q then length (stream p s) else 0
  lost_by p _ s = 0

  unfoldable pub lost_by_all : Ptr → List Callback → Sched Loop → ℕ
  lost_by_all p [] s = 0
  lost_by_all p (c ∷ cs) s = lost_by p c s + count_after (lost_by_all p cs) (callback c s)

  -- What the next step of the machine gives to the code that reads.
  unfoldable pub given_at : Ptr → Cpu → Sched Loop → List ℕ
  given_at p (in_actor (in_read q count k)) s = if p == q then given_by count (get_fd q s) else []
  given_at p _ s = []

  -- What libuv hands over in it.
  abbrev pub arrived_round : Uv Loop → Ptr → List Ptr → Sched Loop → List ℕ
  arrived_round uv p [] s = arrived_by_all p (uv.run_once s.loop).0
  arrived_round uv p (q ∷ qs) s = []

  unfoldable pub arrived_at : Uv Loop → Ptr → Cpu → Sched Loop → List ℕ
  arrived_at uv p in_schdule s = arrived_round uv p s.readyq s
  arrived_at uv p _ s = []

  abbrev pub lost_round : Uv Loop → Ptr → List Ptr → Sched Loop → ℕ
  lost_round uv p [] s = let r = uv.run_once s.loop in lost_by_all p r.0 (record s { loop = r.1 })
  lost_round uv p (q ∷ qs) s = 0

  unfoldable pub lost_at : Uv Loop → Ptr → Cpu → Sched Loop → ℕ
  lost_at uv p in_schdule s = lost_round uv p s.readyq s
  lost_at uv p _ s = 0
