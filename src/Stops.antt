-- ===== src/Stops.antt =====
-- Programs that end: actors that print, yield and spawn a bounded number of times, from the loop in
-- `sherry_exit` on (sherry.c, lines 378 to 424 and 686 to 692). What is left to do is counted.
pub mod Work
pub mod Spawn
pub mod Yield
pub mod End
pub mod Step
pub mod Round
pub mod Run
mod Tests
use sherry.Base.{
  ℕ, ◌+◌, ◌*◌, ◌≤◌, ◌<◌, ◌≡◌, ◌≢◌, ◌⊎◌, ℤ, Bool, true, false, some, List, [], ◌∷◌, ◌==◌,
  if◌then◌else◌, count, length,
}
use sherry.Actor.{Ptr, Prog, Point, entry, in_fn, in_exit, Actor}
use sherry.Sched.{Sched, slot}
use sherry.Switch.{Cpu, in_actor, in_schdule, stopped, Machine, current}
use sherry.Table.{Indexed}

-- The code that is left counts at most `n`: one for each print, yield and return and for `sherry_exit`, two for a spawn,
-- and what the actors count that it spawns. Only `main` calls `sherry_exit`, and
-- it does so in the end.
abbrev pub Ends : (is_main : Bool) → Prog → ℕ → Type 0
Ends is_main Prog.done n = (is_main ≡ false) × (0 < n)
Ends is_main Prog.exit n = (is_main ≡ true) × (0 < n)
Ends is_main (Prog.printf i j k) n = (m : ℕ) × (m < n) × Ends is_main k m
Ends is_main (Prog.sched_yield k) n = (m : ℕ) × (m < n) × Ends is_main k m
Ends is_main (Prog.spawn f k) n =
    (a : ℕ) × (b : ℕ) × (a + b + 1 < n) × Ends false f a × ((id : ℤ) → Ends is_main (k id) b)
Ends is_main p n = ⊥

-- The same at a place in the code; the loop of `sherry_exit` only waits.
abbrev pub Left : (is_main : Bool) → (fn : Prog) → Point → ℕ → Type 0
Left is_main fn entry n = (m : ℕ) × (m < n) × Ends is_main fn m
Left is_main fn (in_fn p) n = Ends is_main p n
Left is_main fn in_exit n = is_main ≡ true
Left is_main fn pt n = ⊥

-- The actors of a queue have at most `n` steps left together.
abbrev pub Work : (main : Ptr) → (Ptr → Actor) → List Ptr → ℕ → Type 0
Work main actor [] n = Unit {0}
Work main actor (p ∷ ps) n =
    (a : ℕ) × (b : ℕ) × (a + b ≤ n)
    × Left (p == main) (actor p).fn (actor p).ctx a
    × Work main actor ps b

-- Of the steps that do none of the work: a round of `schdule`, and one of the loop in `sherry_exit`.
abbrev pub phase_at : (main : Ptr) → List Ptr → ℕ
phase_at main [] = 1
phase_at main (p ∷ ps) = if p == main then 3 else 1

module _ {Loop : Type 0} where
  -- The actors that have not ended, in the order of their turns.
  abbrev pub alive : Cpu → Sched Loop → List Ptr
  alive (in_actor pt) s = s.running ∷ s.readyq
  alive in_schdule s = s.readyq
  alive stopped s = []

  -- They are the actors in the table, each at its id, and `main` is one of them.
  pub record Listed (ps : List Ptr) (s : Sched Loop) : Type 0 where
    pub table : Indexed s
    pub at_id : (p : Ptr) → count p ps ≢ 0 → slot (s.actor p).aid s ≡ some (some p)
    pub counted : s.curractors ≡ length ps
    pub main_in : count s.main ps ≢ 0

  abbrev pub WorkAt : Cpu → Sched Loop → ℕ → Type 0
  WorkAt (in_actor pt) s n =
      (a : ℕ) × (b : ℕ) × (a + b ≤ n)
      × Left (s.running == s.main) (current s).fn pt a
      × Work s.main s.actor s.readyq b
  WorkAt in_schdule s n = Work s.main s.actor s.readyq n
  WorkAt stopped s n = ⊥

  pub record Winds (n : ℕ) (m : Machine Loop) : Type 0 where
    pub listed : Listed (alive m.cpu m.sche) m.sche
    pub work : WorkAt m.cpu m.sche n

  abbrev pub phase : Cpu → Sched Loop → ℕ
  phase (in_actor pt) s = if s.running == s.main then 2 else 0
  phase in_schdule s = phase_at s.main s.readyq
  phase stopped s = 0

  abbrev pub measure : ℕ → Machine Loop → ℕ
  measure n m = 4 * n + phase m.cpu m.sche

  -- A step ends the run with nobody in the table, or there is less to do after it.
  abbrev pub Next : ℕ → Machine Loop → Machine Loop → Type 0
  Next n m t =
      ((t.cpu ≡ stopped) × (t.sche.curractors ≡ 0))
      ⊎ ((k : ℕ) × (measure k t < measure n m) × Winds k t)
