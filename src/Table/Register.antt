-- ===== src/Table/Register.antt =====
-- Registering and unregistering.
use sherry.Base.{
  get_elem?-set, get_elem?-lt, ℕ, ℤ, pos, ◌+◌, ◌-◌, ◌<◌, ◌≡◌, refl, ◌≢◌, Option, none, some, arith,
  length, get_elem?, set, length-set,
}
use sherry.Actor.{Ptr, Prog, Actor, entry}
use sherry.Sched.{
  Sched, put_actor, alloc_actor, room, reg_actor, slot, deref, clear_slot, unreg_actor, setready,
}
use sherry.Switch.{sherry_spawn}
use sherry.Table.{Indexed}
use sherry.Table.Slots.{room-Room, occupied-fill, occupied-clear}

-- What `reg_actor p` does: `p` stands in a slot that was free, has its index for its id, and every
-- other actor keeps its slot.
pub record Registered {Loop : Type 0} (p : Ptr) (s t : Sched Loop) : Type 0 where
  pub id : ℕ
  pub has_id : (t.actor p).aid ≡ pos id
  pub in_table : get_elem? t.actors id ≡ some (some p)
  pub kept : (j q : ℕ) → get_elem? s.actors j ≡ some (some q) → get_elem? t.actors j ≡ some (some q)
  pub was_free : (q : ℕ) → get_elem? s.actors id ≢ some (some q)
  pub one_more : t.curractors ≡ s.curractors + 1

module _ {Loop : Type 0} where
  -- In a table with a slot at least, `reg_actor` puts the actor into a slot that was free and sets
  -- its id to that slot's index, adds one to the count, and every other actor keeps its slot.
  pub reg_actor-Registered :
      (p : Ptr) (s : Sched Loop) → 0 < length s.actors → Registered p s (reg_actor p s)
  unfolding reg_actor
  reg_actor-Registered p s h =
      let r = room-Room s.actors h in
      let ys = (room s.actors).0 in
      let i = (room s.actors).1 in
      let lt = get_elem?-lt ys i none r.free in
      record {
        id = i;
        has_id = ground arith;
        in_table = ground (arith, get_elem?-set ys i i (some p) lt);
        kept = λ j q e. ground (arith, get_elem?-set ys i j (some p) lt, r.kept j q e, r.free);
        was_free = λ q e. ground (arith, r.kept i q e, r.free);
        one_more = refl;
      }

  -- `reg_actor` of an actor that is allocated and in no slot keeps the table in order: ids are
  -- indices of slots, and the count is the number of actors in the table.
  pub reg_actor-Indexed :
      (p : Ptr) (s : Sched Loop)
      → p < s.next_actor
      → ((i : ℕ) → get_elem? s.actors i ≢ some (some p))
      → Indexed s
      → Indexed (reg_actor p s)
  unfolding reg_actor
  reg_actor-Indexed p s lt new v =
      let r = room-Room s.actors v.some_room in
      let ys = (room s.actors).0 in
      let id = (room s.actors).1 in
      let below = get_elem?-lt ys id none r.free in
      record {
        ids = λ i q e.
            ground (arith, get_elem?-set ys id i (some p) below, r.no_more i q, v.ids i q, new i);
        allocated = λ i q e.
            ground (arith, get_elem?-set ys id i (some p) below, r.no_more i q, v.allocated i q);
        counted = omega (arith, occupied-fill ys id p r.free, r.same_count, v.counted);
        some_room = omega (arith, length-set ys id (some p), below);
      }

  clear_slot-Indexed :
      (rid : ℤ) (o : Option (Option Ptr)) (s : Sched Loop)
      → slot rid s ≡ o
      → Indexed s
      → Indexed (clear_slot rid o s)
  unfolding clear_slot
  clear_slot-Indexed (pos i) (some (some p)) s e v =
      let below = get_elem?-lt s.actors i (some p) e in
      record {
        ids = λ j q f. ground (arith, get_elem?-set s.actors i j none below, v.ids j q);
        allocated = λ j q f. ground (arith, get_elem?-set s.actors i j none below, v.allocated j q);
        counted = omega (arith, occupied-clear s.actors i p e, v.counted);
        some_room = omega (arith, length-set s.actors i none, v.some_room);
      }
  clear_slot-Indexed rid o s e v = v

  -- `unreg_actor` keeps the table in order, whatever the id: ids are indices of slots, and the
  -- count is the number of actors in the table.
  pub unreg_actor-Indexed : (rid : ℤ) (s : Sched Loop) → Indexed s → Indexed (unreg_actor rid s)
  unfolding unreg_actor
  unreg_actor-Indexed rid s v = clear_slot-Indexed rid (slot rid s) s refl v

  cleared :
      (rid : ℤ) (o : Option (Option Ptr)) (s : Sched Loop) → deref o ≡ none → clear_slot rid o s ≡ s
  unfolding clear_slot
  cleared (pos i) (some (some p)) s e = cc
  cleared rid o s e = refl

  -- An id in the table: its slot is freed.
  pub unreg_actor-hit :
      (i p : ℕ) (s : Sched Loop)
      → get_elem? s.actors i ≡ some (some p)
      → unreg_actor (pos i) s
        ≡ record s { actors = set s.actors i none; curractors = s.curractors - 1 }
  unfolding unreg_actor clear_slot
  unreg_actor-hit i p s e = rw (e, clear_slot)

  -- Registering an actor and unregistering it by its id frees the slot that it took and gives the
  -- old count back; every other actor stays where it was.
  pub unreg_actor-reg_actor :
      (p : Ptr) (s : Sched Loop)
      → Indexed s
      → let t = reg_actor p s in
        let u = unreg_actor (t.actor p).aid t in
        (u.curractors ≡ s.curractors)
        × ((j q : ℕ) → get_elem? s.actors j ≡ some (some q) → get_elem? u.actors j ≡ some (some q))
        × ((j : ℕ) → (t.actor p).aid ≡ pos j → get_elem? u.actors j ≡ some none)
  unreg_actor-reg_actor p s v =
      let t = reg_actor p s in
      let r = reg_actor-Registered p s v.some_room in
      let lt = get_elem?-lt t.actors r.id (some p) r.in_table in
      let free = get_elem?-set t.actors r.id in
      rw (r.has_id, unreg_actor-hit r.id p t r.in_table)
        (
          omega (arith, r.one_more),
          (λ j q e. ground (arith, free j none lt, r.kept j q e, r.was_free q)),
          λ j e. ground (arith, free j none lt, r.has_id),
        )

  -- An id that is out of range, or whose slot is NULL, changes nothing.
  pub unreg_actor-miss :
      (rid : ℤ) (s : Sched Loop) → deref (slot rid s) ≡ none → unreg_actor rid s ≡ s
  unfolding unreg_actor
  unreg_actor-miss rid s e = cleared rid (slot rid s) s e

  pub setready-Indexed : (p : Ptr) (s : Sched Loop) → Indexed s → Indexed (setready p s)
  unfolding setready
  setready-Indexed p s v = record {
    ids = λ i q e. ground (arith, v.ids i q);
    allocated = λ i q e. ground (arith, v.allocated i q);
    counted = ground (arith, v.counted);
    some_room = ground (arith, v.some_room);
  }

  pub put_actor-Indexed :
      (p : Ptr) (a : Actor) (s : Sched Loop)
      → Indexed s
      → a.aid ≡ (s.actor p).aid
      → Indexed (put_actor p a s)
  put_actor-Indexed p a s v e = record {
    ids = λ i q f. ground (arith, v.ids i q);
    allocated = v.allocated;
    counted = v.counted;
    some_room = v.some_room;
  }

  alloc_actor-Indexed : (f : Prog) (s : Sched Loop) → Indexed s → Indexed (alloc_actor f s)
  unfolding alloc_actor
  alloc_actor-Indexed f s v = record {
    ids = λ i q e. ground (arith, v.ids i q, v.allocated i q);
    allocated = λ i q e. ground (arith, v.allocated i q);
    counted = v.counted;
    some_room = v.some_room;
  }

  fresh_alloc :
      (f : Prog) (s : Sched Loop)
      → Indexed s
      → (s.next_actor < (alloc_actor f s).next_actor)
        × ((i : ℕ) → get_elem? (alloc_actor f s).actors i ≢ some (some s.next_actor))
  unfolding alloc_actor
  fresh_alloc f s v = (omega arith, λ i e. omega (arith, v.allocated i s.next_actor e))

  -- `sherry_spawn` keeps the table in order: ids are indices of slots, and the count is the number
  -- of actors in the table.
  pub sherry_spawn-Indexed : (f : Prog) (s : Sched Loop) → Indexed s → Indexed (sherry_spawn f s).1
  unfolding sherry_spawn
  sherry_spawn-Indexed f s v =
      let p = s.next_actor in
      let new = fresh_alloc f s v in
      let t = setready p (reg_actor p (alloc_actor f s)) in
      put_actor-Indexed p (record (t.actor p) { ctx = entry }) t
        (setready-Indexed p (reg_actor p (alloc_actor f s))
          (reg_actor-Indexed p (alloc_actor f s) new.0 new.1 (alloc_actor-Indexed f s v)))
        refl
