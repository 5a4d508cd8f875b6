-- ===== src/Queues/Ready.antt =====
-- `setready`, `setrunning` and `unblock_all` keep every actor where its status says.
use sherry.Base.{◌≡◌, Bool, true, false, List, ◌∷◌, arith, count-cons, count-snoc}
use sherry.Actor.{Ptr, Status}
use sherry.Sched.{Sched, setready}
use sherry.Queues.{At, Queued}

-- Does an actor with this status hang in no queue.
abbrev pub is_out : Status → Bool
is_out Status.none = true
is_out Status.dead = true
is_out Status.running = true
is_out _ = false

module _ {Loop : Type 0} where
  pub setready-At :
      (p : Ptr) (ps : List Ptr) (s : Sched Loop) (q : Ptr)
      → At ps s q
      → is_out (s.actor p).status ≡ true
      → At ps (setready p s) q
  unfolding setready
  setready-At p ps s q a out = ground (arith, count-snoc q s.readyq p)

  -- The head of a list of unblocked actors is made ready.
  pub setready-unblocked :
      (p : Ptr) (ps : List Ptr) (s : Sched Loop) (q : Ptr)
      → At (p ∷ ps) s p
      → At (p ∷ ps) s q
      → At ps (setready p s) q
  unfolding setready
  setready-unblocked p ps s q b a =
      ground (arith, count-snoc q s.readyq p, count-cons q p ps, count-cons p p ps)

  pub unblocked :
      (p : Ptr) (ps : List Ptr) (s : Sched Loop) → Queued (p ∷ ps) s → Queued ps (setready p s)
  unfolding setready
  unblocked p ps s v = record {
    place = λ q. setready-unblocked p ps s q (v.place p) (v.place q);
    unused = λ q h. ground (arith, v.unused q, v.unused p, v.place p, count-cons p p ps);
  }
