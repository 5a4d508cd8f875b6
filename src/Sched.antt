-- ===== src/Sched.antt =====
-- The scheduler of sherry.c, lines 289 to 376: its state, the table of actors and the queues. A
-- queue is the list of the actors in it; that `list_enqueue`, `list_dequeue` and `list_erase` act
-- on it as `++`, a match and `erase` do is what the modules below `Dll` show.
use sherry.Base.{
  ℕ, suc, ◌+◌, ◌-◌, ℤ, pos, negsuc, Option, none, some, List, [], ◌∷◌, ◌++◌, ◌==◌, if◌then◌else◌,
  length, get_elem?, set, replicate,
}
use mathlib.Core.Option
use sherry.Actor.{Ptr, Status, Prog, Actor, is_ready, new_actor}

-- `struct sherry_fd`. `rbuf` is the read buffer, all `len` bytes of it, `none` for a NULL base.
pub record Fd : Type 0 where
  pub type : ℕ
  pub rbuf : Option (List ℕ)
  pub roffset : ℕ
  pub rerror : ℤ
  pub wait_read : List Ptr  -- waitq[SHERRY_EV_READ]
  pub wait_write : List Ptr  -- waitq[SHERRY_EV_WRITE]

-- `struct scheduler`, with the memory that its pointers lead to.
pub record Sched (Loop : Type 0) : Type 0 where
  pub actor : Ptr → Actor  -- the memory of actors
  pub next_actor : Ptr  -- the address that the next allocation returns
  pub actors : List (Option Ptr)  -- `sizeactors` is its length
  pub curractors : ℕ
  pub main : Ptr
  pub running : Ptr
  pub readyq : List Ptr
  pub waitingmsg : List Ptr
  pub fds : List (Option Fd)  -- the memory of file descriptors; `none` is freed
  pub requests : List Ptr  -- `req.data` of the writes under way
  pub loop : Loop
  pub printed : List (ℕ × ℕ)  -- what `printf` wrote, a text and a number each

module _ {Loop : Type 0} where
  abbrev pub put_actor : Ptr → Actor → Sched Loop → Sched Loop
  put_actor p a s = record s { actor = λ q. if p == q then a else s.actor q }

  -- A fresh actor, without a place in the table.
  unfoldable pub alloc_actor : Prog → Sched Loop → Sched Loop
  alloc_actor fn s = record (put_actor s.next_actor (new_actor fn) s) {
    next_actor = suc s.next_actor;
  }

-- The loop of `reg_actor`: the first free slot.
unfoldable pub find_slot : List (Option Ptr) → Option ℕ
find_slot [] = none
find_slot (none ∷ slots) = some 0
find_slot (some p ∷ slots) = Option.map suc (find_slot slots)

-- `srrealloc` to twice the size, and `memset` of the new half.
unfoldable pub grow : List (Option Ptr) → List (Option Ptr)
grow slots = slots ++ replicate (length slots) none

-- The table with room, and the free slot.
unfoldable pub room_for : List (Option Ptr) → Option ℕ → List (Option Ptr) × ℕ
unfolding grow
room_for slots none = (grow slots, length slots)
room_for slots (some i) = (slots, i)

unfoldable pub room : List (Option Ptr) → List (Option Ptr) × ℕ
room slots = room_for slots (find_slot slots)

-- The actor in a slot, as a C pointer that is followed: `none` also for NULL.
abbrev pub deref : Option (Option Ptr) → Option Ptr
deref (some (some p)) = some p
deref _ = none

module _ {Loop : Type 0} where
  unfoldable pub reg_actor : Ptr → Sched Loop → Sched Loop
  reg_actor p s =
      let slots = (room s.actors).0 in
      let id = (room s.actors).1 in
      record (put_actor p (record (s.actor p) { aid = pos id }) s) {
        actors = set slots id (some p);
        curractors = s.curractors + 1;
      }

  -- `sche->actors[rid]`: `none` outside the array.
  abbrev pub slot : ℤ → Sched Loop → Option (Option Ptr)
  slot (pos i) s = get_elem? s.actors i
  slot (negsuc i) s = none

  unfoldable pub clear_slot : ℤ → Option (Option Ptr) → Sched Loop → Sched Loop
  clear_slot (pos i) (some (some p)) s = record s {
    actors = set s.actors i none;
    curractors = s.curractors - 1;
  }
  clear_slot _ _ s = s

  -- Nothing happens for an id out of range or a slot that is NULL.
  unfoldable pub unreg_actor : ℤ → Sched Loop → Sched Loop
  unfolding clear_slot
  unreg_actor rid s = clear_slot rid (slot rid s) s

  -- `none` is a read before the array, which nothing guards.
  unfoldable pub get_actor : ℤ → Sched Loop → Option (Option Ptr)
  get_actor (negsuc n) s = none
  get_actor (pos i) s = elim (get_elem? s.actors i) [ none ↦ some none | some a ↦ some a ]

  unfoldable pub setready : Ptr → Sched Loop → Sched Loop
  setready p s =
      if is_ready (s.actor p).status
      then s
      else record (put_actor p (record (s.actor p) { status = Status.ready }) s) {
        readyq = s.readyq ++ p ∷ [];
      }

  unfoldable pub setrunning : Ptr → Sched Loop → Sched Loop
  setrunning p s = record (put_actor p (record (s.actor p) { status = Status.running }) s) {
    running = p;
  }

  -- The actors of a wait queue, taken out one by one from its head.
  unfoldable pub unblock_all : List Ptr → Sched Loop → Sched Loop
  unblock_all [] s = s
  unblock_all (p ∷ ps) s = unblock_all ps (setready p s)
