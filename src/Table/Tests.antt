-- ===== src/Table/Tests.antt =====
-- The table of actors at a small size.
use sherry.Base.{ℕ, zero, suc, ◌<◌, ◌≡◌, refl, pos, none, some, [], ◌∷◌, arith, get_elem?}
use sherry.Actor.{Prog, Status, new_actor}
use sherry.Sched.{Sched, reg_actor, unreg_actor}
use sherry.Table.{Indexed, occupied}
use sherry.Table.Run.{run-Indexed}
use sherry.Step.{steps, boot}
use sherry.Queues.{Holds}
use sherry.Examples.{bench_switch}
use sherry.Examples.Quiet.{quiet}
use sherry.Table.Register.{unreg_actor-reg_actor}

-- A table of one slot, which `main` has: the next actor makes it grow.
abbrev small : Sched (Unit {0})
small = record {
  actor = λ p. record (new_actor Prog.done) { aid = pos 0; status = Status.running };
  next_actor = 2;
  actors = some 0 ∷ [];
  curractors = 1;
  main = 0;
  running = 0;
  readyq = [];
  waitingmsg = [];
  fds = [];
  requests = [];
  loop = tt;
  printed = [];
}

small-ids : (i p : ℕ) → get_elem? small.actors i ≡ some (some p) → (small.actor p).aid ≡ pos i
small-ids zero p e = refl
small-ids (suc i) p e = ground arith

small-allocated : (i p : ℕ) → get_elem? small.actors i ≡ some (some p) → p < small.next_actor
small-allocated zero p e = ground arith
small-allocated (suc i) p e = ground arith

small-Indexed : Indexed small
unfolding occupied
small-Indexed = record {
  ids = small-ids;
  allocated = small-allocated;
  counted = refl;
  some_room = omega arith;
}

run-Indexed_example : Holds (λ m. Indexed m.sche) (steps quiet 10 (boot quiet (bench_switch 2 3)))
run-Indexed_example = run-Indexed quiet (bench_switch 2 3) 10

unreg_actor-reg_actor_example :
    ((unreg_actor ((reg_actor 1 small).actor 1).aid (reg_actor 1 small)).curractors ≡ 1)
    × ((j q : ℕ)
        → get_elem? small.actors j ≡ some (some q)
        → get_elem? (unreg_actor ((reg_actor 1 small).actor 1).aid (reg_actor 1 small)).actors j
          ≡ some (some q))
    × ((j : ℕ)
        → ((reg_actor 1 small).actor 1).aid ≡ pos j
        → get_elem? (unreg_actor ((reg_actor 1 small).actor 1).aid (reg_actor 1 small)).actors j
          ≡ some none)
unreg_actor-reg_actor_example = unreg_actor-reg_actor 1 small small-Indexed
