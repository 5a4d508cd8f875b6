-- ===== src/Table/Start.antt =====
-- The table that `sherry_init` makes: `main` is the only actor in it.
use sherry.Base.{
  ℕ, zero, suc, ◌<◌, ◌≡◌, refl, ◌≢◌, sym, Option, none, some, [], replicate, length-replicate,
  get_elem?, arith,
}
use sherry.Actor.{Ptr, Prog}
use sherry.Uv.{Uv}
use sherry.Sched.{Sched, alloc_actor, reg_actor, setrunning, slot}
use sherry.Step.{blank, init_with}
use sherry.Table.{Indexed}
use sherry.Table.Slots.{occupied-replicate}
use sherry.Table.Register.{reg_actor-Registered, reg_actor-Indexed}

get_elem?-replicate : (n i p : ℕ) → get_elem? (replicate n none) i ≢ some (some p)
get_elem?-replicate zero i p = cc
get_elem?-replicate (suc n) zero p = cc
get_elem?-replicate (suc n) (suc i) p = get_elem?-replicate n i p

module _ {Loop : Type 0} where
  pub setrunning-Indexed : (p : Ptr) (s : Sched Loop) → Indexed s → Indexed (setrunning p s)
  unfolding setrunning
  setrunning-Indexed p s v = record {
    ids = λ i q e. ground (arith, v.ids i q);
    allocated = v.allocated;
    counted = v.counted;
    some_room = v.some_room;
  }

  -- The state in which `main` is registered.
  abbrev pub alloc_main : Uv Loop → ℕ → Sched Loop
  alloc_main uv sz = alloc_actor Prog.done (blank uv sz)

  alloc_main-Indexed : (uv : Uv Loop) (sz : ℕ) → 0 < sz → Indexed (alloc_main uv sz)
  unfolding alloc_actor blank
  alloc_main-Indexed uv sz lt = record {
    ids = λ i q e. absurd (get_elem?-replicate sz i q e);
    allocated = λ i q e. absurd (get_elem?-replicate sz i q e);
    counted = sym (occupied-replicate sz);
    some_room = rw (length-replicate {A = Option Ptr} sz none) lt;
  }

  not_in : (uv : Uv Loop) (sz i p : ℕ) → get_elem? (alloc_main uv sz).actors i ≢ some (some p)
  unfolding alloc_actor blank
  not_in uv sz i p = get_elem?-replicate sz i p

  main_allocated : (uv : Uv Loop) (sz : ℕ) → 0 < (alloc_main uv sz).next_actor
  unfolding alloc_actor blank
  main_allocated uv sz = omega arith

  -- `sherry_init` registers `main` in an array that is free.
  pub init_with-Indexed : (uv : Uv Loop) (sz : ℕ) → 0 < sz → Indexed (init_with uv sz)
  unfolding init_with
  init_with-Indexed uv sz lt =
      let t = alloc_main uv sz in
      setrunning-Indexed 0 (reg_actor 0 t) (
        reg_actor-Indexed 0 t (main_allocated uv sz) (λ i. not_in uv sz i 0)
          (alloc_main-Indexed uv sz lt))

  -- `main` is the actor that runs, and the only one.
  pub record Started (s : Sched Loop) : Type 0 where
    pub running : s.running ≡ 0
    pub main : s.main ≡ 0
    pub readyq : s.readyq ≡ []
    pub curractors : s.curractors ≡ 1
    pub at_id : slot (s.actor 0).aid s ≡ some (some 0)

  alloc_main-same :
      (uv : Uv Loop) (sz : ℕ)
      → let t = reg_actor 0 (alloc_main uv sz) in
        (t.main ≡ 0) × (t.readyq ≡ []) × ((alloc_main uv sz).curractors ≡ 0)
  unfolding reg_actor alloc_actor blank
  alloc_main-same uv sz = (refl, refl, refl)

  pub init_with-Started : (uv : Uv Loop) (sz : ℕ) → 0 < sz → Started (init_with uv sz)
  unfolding init_with setrunning
  init_with-Started uv sz lt =
      let t = alloc_main uv sz in
      let r = reg_actor-Registered 0 t (alloc_main-Indexed uv sz lt).some_room in
      record {
        running = refl;
        main = (alloc_main-same uv sz).0;
        readyq = (alloc_main-same uv sz).1;
        curractors = omega (arith, r.one_more, (alloc_main-same uv sz).2);
        at_id = ground (arith, r.has_id, r.in_table);
      }
