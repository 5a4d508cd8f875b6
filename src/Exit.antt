-- ===== src/Exit.antt =====
-- `sherry_exit` against actors that wait: sherry.c, lines 379 to 390 and 686 to 692.
mod Tests
use sherry.Base.{
  ℕ, zero, suc, ◌+◌, ◌<◌, ◌≡◌, refl, ◌⊎◌, inl, inr, Bool, true, false, Option, none, some, List, [],
  ◌∷◌, arith, ltb, and_then, if◌then◌else◌, ◌==◌, Bool-cases,
}
use sherry.Actor.{Ptr, Status, Point, in_exit, is_ready}
use sherry.Uv.{Uv}
use sherry.Sched.{Sched, setready, setrunning}
use sherry.Switch.{Cpu, in_actor, in_schdule, stopped, Machine, current, sherry_yield}
use sherry.Step.{exec, exit_round, schdule, step_at, step, steps}
use sherry.Queues.{Surely, Surely-then}

-- Where `main` stands in the loop of `sherry_exit`: it waits alone in the ready queue, or it has
-- just been taken out of it.
abbrev pub Turn : {Loop : Type 0} → Cpu → Sched Loop → Type 0
Turn in_schdule s = (s.readyq ≡ s.main ∷ []) × ((s.actor s.main).ctx ≡ in_exit)
Turn (in_actor pt) s =
    (s.readyq ≡ [])
    × (pt ≡ in_exit)
    × (s.running ≡ s.main)
    × ((s.actor s.main).status ≡ Status.running)
Turn stopped s = ⊥

-- `main` is in `sherry_exit`, no other actor is ready, and some have not finished.
pub record Waiting {Loop : Type 0} (l : Loop) (m : Machine Loop) : Type 0 where
  pub turn : Turn m.cpu m.sche
  pub others : 1 < m.sche.curractors
  pub untouched : m.sche.loop ≡ l

module _ {Loop : Type 0} where
  schdule-Waiting :
      (uv : Uv Loop) (l : Loop) (ps : List Ptr) (s : Sched Loop)
      → s.readyq ≡ ps
      → Waiting l (record { cpu = in_schdule; sche = s })
      → Surely (Waiting l) (schdule uv ps s)
  unfolding schdule setrunning
  schdule-Waiting uv l [] s e w = ground (arith, w.turn)
  schdule-Waiting uv l (p ∷ ps) s e w = record {
    turn = (
      ground (arith, w.turn),
      ground (arith, w.turn),
      ground (arith, w.turn),
      ground (arith, w.turn),
    );
    others = w.others;
    untouched = w.untouched;
  }

  more : (s : Sched Loop) → 1 < s.curractors → ltb 1 s.curractors ≡ true
  more s h = ground arith

  yield_again :
      (l : Loop) (s : Sched Loop)
      → Waiting l (record { cpu = in_actor in_exit; sche = s })
      → Waiting l (sherry_yield in_exit s)
  unfolding sherry_yield setready
  yield_again l s w = record {
    turn = (ground (arith, w.turn), ground (arith, w.turn));
    others = ground (arith, w.others);
    untouched = ground (arith, w.untouched);
  }

  exit_round-Waiting :
      (l : Loop) (s : Sched Loop)
      → Waiting l (record { cpu = in_actor in_exit; sche = s })
      → Waiting l (exit_round s)
  unfolding exit_round
  exit_round-Waiting l s w = rw (more s w.others) (yield_again l s w)

  step_at-Waiting :
      (uv : Uv Loop) (l : Loop) (cpu : Cpu) (s : Sched Loop)
      → Waiting l (record { cpu = cpu; sche = s })
      → Surely (Waiting l) (step_at uv cpu s)
  unfolding step_at exec
  step_at-Waiting uv l (in_actor pt) s w = rw (w.turn.1) (
      exit_round-Waiting l s (record {
        turn = (w.turn.0, refl, w.turn.2, w.turn.3);
        others = w.others;
        untouched = w.untouched;
      }))
  step_at-Waiting uv l in_schdule s w = schdule-Waiting uv l s.readyq s refl w
  step_at-Waiting uv l stopped s w = absurd w.turn

  step-Waiting :
      (uv : Uv Loop) (l : Loop) (m : Machine Loop) → Waiting l m → Surely (Waiting l) (step uv m)
  unfolding step
  step-Waiting uv l m w = step_at-Waiting uv l m.cpu m.sche w

  -- While `main` is in `sherry_exit`, no other actor is ready and some have not finished, libuv is
  -- never run: after any number of steps there is no fault, `main` is still there, and the loop of
  -- libuv is as it was. So an actor that waits for the network or for a message is not woken again,
  -- and `sherry_exit` does not return.
  pub exit_starves :
      (uv : Uv Loop) (l : Loop) (n : ℕ) (m : Machine Loop)
      → Waiting l m
      → Surely (Waiting l) (steps uv n m)
  unfolding steps
  exit_starves uv l zero m w = w
  exit_starves uv l (suc n) m w =
      Surely-then (Waiting l) (Waiting l) (step uv m) (steps uv n) (step-Waiting uv l m w)
        (exit_starves uv l n)
