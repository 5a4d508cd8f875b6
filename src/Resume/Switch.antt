-- ===== src/Resume/Switch.antt =====
-- The switches between actors leave every actor able to go on.
use sherry.Base.{
  ℤ, ◌≡◌, refl, true, Option, some, List, [], ◌∷◌, arith, ◌==◌, Bool-cases, inl, inr, ltb, pos,
  count-cons,
}
use sherry.Actor.{Ptr, Status, Prog, Point, Actor, after_main, in_exit}
use sherry.Sched.{
  Sched, put_actor, setready, setrunning, alloc_actor, reg_actor, unreg_actor, clear_slot, slot,
}
use sherry.Switch.{current, goes_on, yield, sherry_yield, sherry_spawn}
use sherry.Step.{finish, exit_round}
use sherry.Queues.{Queued}
use sherry.Resume.{can_resume, fits, Fits, Resumes}

module _ {Loop : Type 0} where
  pub sherry_yield-Resumes :
      (pt : Point) (s : Sched Loop)
      → Fits s
      → (current s).status ≡ Status.running
      → can_resume pt (current s).mailbox ≡ true
      → Resumes (sherry_yield pt s)
  unfolding sherry_yield setready
  sherry_yield-Resumes pt s v run ok = record {
    contexts = record { at = λ q. ground (arith, v.at q) };
    now = tt;
  }

  clear_slot-Fits :
      (rid : ℤ) (o : Option (Option Ptr)) (s : Sched Loop) → Fits s → Fits (clear_slot rid o s)
  unfolding clear_slot
  clear_slot-Fits (pos i) (some (some p)) s v = record { at = v.at }
  clear_slot-Fits rid o s v = v

  pub unreg_actor-Fits : (rid : ℤ) (s : Sched Loop) → Fits s → Fits (unreg_actor rid s)
  unfolding unreg_actor
  unreg_actor-Fits rid s v = clear_slot-Fits rid (slot rid s) s v

  -- Only the table of actors changes.
  record SameActors (s t : Sched Loop) : Type 0 where
    actor : t.actor ≡ s.actor
    running : t.running ≡ s.running

  clear_slot-same :
      (rid : ℤ) (o : Option (Option Ptr)) (s : Sched Loop) → SameActors s (clear_slot rid o s)
  unfolding clear_slot
  clear_slot-same (pos i) (some (some p)) s = record { actor = refl; running = refl }
  clear_slot-same rid o s = record { actor = refl; running = refl }

  unreg_actor-same : (rid : ℤ) (s : Sched Loop) → SameActors s (unreg_actor rid s)
  unfolding unreg_actor
  unreg_actor-same rid s = clear_slot-same rid (slot rid s) s

  put_actor-Fits :
      (p : Ptr) (a : Actor) (s : Sched Loop)
      → Fits s
      → fits a.status a.ctx a.mailbox ≡ true
      → Fits (put_actor p a s)
  put_actor-Fits p a s v e = record { at = λ q. ground (arith, v.at q) }

  -- A context is saved while its actor keeps the status of a running one.
  yield-Fits :
      (pt : Point) (s t : Sched Loop)
      → SameActors s t
      → Fits t
      → (current s).status ≡ Status.running
      → Fits (yield pt t).sche
  yield-Fits pt s t same v run =
      put_actor-Fits t.running (record (current t) { ctx = pt }) t v
        (rw (same.running, same.actor, run))

  pub finish-Resumes :
      (s : Sched Loop) → Fits s → (current s).status ≡ Status.running → Resumes (finish s)
  unfolding finish
  finish-Resumes s v run = elim (Bool-cases (s.running == s.main)) [
    | inl main ↦ rw main (record { contexts = v; now = tt })
    | inr other ↦
        let t = unreg_actor (current s).aid s in
        rw other (record {
          contexts =
              yield-Fits after_main s t (unreg_actor-same (current s).aid s)
                (unreg_actor-Fits (current s).aid s v) run;
          now = tt;
        })
  ]

  pub exit_round-Resumes :
      (s : Sched Loop) → Fits s → (current s).status ≡ Status.running → Resumes (exit_round s)
  unfolding exit_round
  exit_round-Resumes s v run = elim (Bool-cases (ltb 1 s.curractors)) [
    | inl more ↦ rw more (sherry_yield-Resumes in_exit s v run refl)
    | inr last ↦ rw last (record { contexts = unreg_actor-Fits (s.actor s.main).aid s v; now = tt })
  ]

  pub sherry_spawn-Fits : (f : Prog) (s : Sched Loop) → Fits s → Fits (sherry_spawn f s).1
  unfolding sherry_spawn setready reg_actor alloc_actor
  sherry_spawn-Fits f s v = record { at = λ q. ground (arith, v.at q) }

  -- The oldest ready actor goes on where it stopped.
  pub setrunning-Resumes :
      (p : Ptr) (ps : List Ptr) (s : Sched Loop)
      → s.readyq ≡ p ∷ ps
      → Queued [] s
      → Fits s
      → Resumes (goes_on (s.actor p).ctx (setrunning p (record s { readyq = ps })))
  unfolding setrunning
  setrunning-Resumes p ps s e q v = record {
    contexts = record { at = λ r. ground (arith, v.at r) };
    now = ground (arith, v.at p, q.place p, count-cons p p ps);
  }
