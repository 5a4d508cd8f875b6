-- ===== src/Queues/Switch.antt =====
-- The switches between actors keep every actor where its status says.
use sherry.Base.{
  suc, ◌≤◌, ◌≡◌, refl, true, Option, some, List, [], ◌∷◌, arith, ◌==◌, count-cons, ltb, ℤ, pos,
  Bool-cases, inl, inr,
}
use sherry.Actor.{Ptr, Status, Prog, Point, Actor, entry, after_main, in_exit}
use sherry.Sched.{
  Sched, put_actor, setready, setrunning, alloc_actor, reg_actor, unreg_actor, clear_slot, slot,
}
use sherry.Switch.{Cpu, in_actor, in_schdule, stopped, Machine, current, sherry_yield, sherry_spawn}
use sherry.Step.{finish, exit_round}
use sherry.Queues.{Queued}
use sherry.Queues.Ready.{is_out, setready-At}

-- The actor that has the processor is the one that runs.
abbrev pub Active : {Loop : Type 0} → Cpu → Sched Loop → Type 0
Active (in_actor pt) s = (current s).status ≡ Status.running
Active in_schdule s = Unit {0}
Active stopped s = Unit {0}

pub record Placed {Loop : Type 0} (m : Machine Loop) : Type 0 where
  pub queued : Queued [] m.sche
  pub active : Active m.cpu m.sche

module _ {Loop : Type 0} where
  pub setready-Queued :
      (p : Ptr) (ps : List Ptr) (s : Sched Loop)
      → Queued ps s
      → is_out (s.actor p).status ≡ true
      → suc p ≤ s.next_actor
      → Queued ps (setready p s)
  unfolding setready
  setready-Queued p ps s v out ne = record {
    place = λ q. setready-At p ps s q (v.place q) out;
    unused = λ q h. ground (arith, v.unused q, v.unused p);
  }

  pub setrunning-Queued :
      (p : Ptr) (ps : List Ptr) (s : Sched Loop)
      → s.readyq ≡ p ∷ ps
      → Queued [] s
      → Queued [] (setrunning p (record s { readyq = ps }))
  unfolding setrunning
  setrunning-Queued p ps s e v = record {
    place = λ q. ground (arith, v.place q, v.place p, count-cons q p ps, count-cons p p ps);
    unused = λ q h. ground (arith, v.unused q, v.unused p, v.place p, count-cons p p ps);
  }

  -- A write to an actor that keeps its status.
  pub put_actor-Queued :
      (p : Ptr) (a : Actor) (ps : List Ptr) (s : Sched Loop)
      → Queued ps s
      → a.status ≡ (s.actor p).status
      → Queued ps (put_actor p a s)
  put_actor-Queued p a ps s v e = record {
    place = λ q. ground (arith, v.place q);
    unused = λ q h. ground (arith, v.unused q);
  }

  clear_slot-Queued :
      (rid : ℤ) (o : Option (Option Ptr)) (s : Sched Loop)
      → Queued [] s
      → Queued [] (clear_slot rid o s)
  unfolding clear_slot
  clear_slot-Queued (pos i) (some (some p)) s v = record {
    place = λ q. ground (arith, v.place q);
    unused = v.unused;
  }
  clear_slot-Queued rid o s v = v

  pub unreg_actor-Queued : (rid : ℤ) (s : Sched Loop) → Queued [] s → Queued [] (unreg_actor rid s)
  unfolding unreg_actor
  unreg_actor-Queued rid s v = clear_slot-Queued rid (slot rid s) s v

  pub sherry_yield-Placed :
      (pt : Point) (s : Sched Loop)
      → Queued [] s
      → (current s).status ≡ Status.running
      → Placed (sherry_yield pt s)
  unfolding sherry_yield
  sherry_yield-Placed pt s v run =
      let t = setready s.running s in
      record {
        queued =
            put_actor-Queued t.running (record (current t) { ctx = pt }) [] t
              (setready-Queued s.running [] s v (rw run) (ground (arith, v.unused s.running))) refl;
        active = tt;
      }

  pub finish-Placed :
      (s : Sched Loop) → Queued [] s → (current s).status ≡ Status.running → Placed (finish s)
  unfolding finish
  finish-Placed s v run = elim (Bool-cases (s.running == s.main)) [
    | inl main ↦ rw main (record { queued = v; active = tt })
    | inr other ↦
        let t = unreg_actor (current s).aid s in
        rw other (record {
          queued =
              put_actor-Queued t.running (record (current t) { ctx = after_main }) [] t
                (unreg_actor-Queued (current s).aid s v) refl;
          active = tt;
        })
  ]

  pub exit_round-Placed :
      (s : Sched Loop) → Queued [] s → (current s).status ≡ Status.running → Placed (exit_round s)
  unfolding exit_round
  exit_round-Placed s v run = elim (Bool-cases (ltb 1 s.curractors)) [
    | inl more ↦ rw more (sherry_yield-Placed in_exit s v run)
    | inr last ↦
        rw last (record { queued = unreg_actor-Queued (s.actor s.main).aid s v; active = tt })
  ]

  pub reg_actor-Queued :
      (p : Ptr) (ps : List Ptr) (s : Sched Loop) → Queued ps s → Queued ps (reg_actor p s)
  unfolding reg_actor
  reg_actor-Queued p ps s v = record {
    place = λ q. ground (arith, v.place q);
    unused = λ q h. ground (arith, v.unused q);
  }

  pub alloc_actor-Queued :
      (f : Prog) (ps : List Ptr) (s : Sched Loop) → Queued ps s → Queued ps (alloc_actor f s)
  unfolding alloc_actor
  alloc_actor-Queued f ps s v = record {
    place = λ q. ground (arith, v.place q, v.unused s.next_actor);
    unused = λ q h. ground (arith, v.unused q);
  }

  fresh_out :
      (f : Prog) (s : Sched Loop)
      → is_out ((reg_actor s.next_actor (alloc_actor f s)).actor s.next_actor).status ≡ true
  unfolding reg_actor alloc_actor
  fresh_out f s = ground arith

  fresh_allocated :
      (f : Prog) (s : Sched Loop)
      → suc s.next_actor ≤ (reg_actor s.next_actor (alloc_actor f s)).next_actor
  unfolding reg_actor alloc_actor
  fresh_allocated f s = ground arith

  -- A new actor is put into the ready queue, and no other moves.
  pub sherry_spawn-Queued :
      (f : Prog) (s : Sched Loop) → Queued [] s → Queued [] (sherry_spawn f s).1
  unfolding sherry_spawn
  sherry_spawn-Queued f s v =
      let p = s.next_actor in
      let t = setready p (reg_actor p (alloc_actor f s)) in
      put_actor-Queued p (record (t.actor p) { ctx = entry }) [] t
        (setready-Queued p [] (reg_actor p (alloc_actor f s))
          (reg_actor-Queued p [] (alloc_actor f s) (alloc_actor-Queued f [] s v)) (fresh_out f s)
          (fresh_allocated f s))
        refl

  -- The running actor runs on.
  pub sherry_spawn-Active :
      (f : Prog) (s : Sched Loop)
      → Queued [] s
      → (current s).status ≡ Status.running
      → (current (sherry_spawn f s).1).status ≡ Status.running
  unfolding sherry_spawn setready reg_actor alloc_actor
  sherry_spawn-Active f s v run = ground (arith, v.unused s.running)
