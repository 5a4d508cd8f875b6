-- ===== src/Stops/Run.antt =====
-- A run of actors that end, from `sherry_init` to the end of `sherry_exit`.
use sherry.Base.{
  ℕ, zero, suc, ◌+◌, ◌*◌, ◌≤◌, ◌<◌, ◌≡◌, refl, true, [], ◌==◌, count-cons, count-nil, arith, inl,
  inr, Bool-cases, ==-true,
}
use sherry.Actor.{Prog, in_fn}
use sherry.Uv.{Uv}
use sherry.Sched.{Sched}
use sherry.Switch.{Cpu, stopped, Machine, goes_on}
use sherry.Step.{step_at, step, steps, init_with, boot, sherry_init, initial_size}
use sherry.Table.{Indexed}
use sherry.Table.Start.{Started, init_with-Started, init_with-Indexed}
use sherry.Queues.{Surely, Surely-then}
use sherry.Queues.Switch.{Placed}
use sherry.Queues.Step.{step-Placed, boot-Placed}
use sherry.Progress.Run.{Surely-both}
use sherry.Stops.{Ends, Winds, measure, Next}
use sherry.Stops.Round.{step-Next}

module _ {Loop : Type 0} where
  -- The machine has stopped, and no actor is in the table.
  abbrev pub Emptied : Machine Loop → Type 0
  Emptied m = (m.cpu ≡ stopped) × (m.sche.curractors ≡ 0)

  module _ (uv : Uv Loop) where
    step_at-stopped :
        (cpu : Cpu) (s : Sched Loop)
        → (cpu ≡ stopped) × (s.curractors ≡ 0)
        → Surely Emptied (step_at uv cpu s)
    unfolding step_at
    step_at-stopped cpu s (e, z) = rw e (refl, z)

    steps-stopped : (n : ℕ) (m : Machine Loop) → Emptied m → Surely Emptied (steps uv n m)
    unfolding steps step
    steps-stopped zero m e = e
    steps-stopped (suc n) m e =
        Surely-then Emptied Emptied (step uv m) (steps uv n) (step_at-stopped m.cpu m.sche e)
          (steps-stopped n)

    -- With more steps than there is left to do the machine stops.
    pub steps-Emptied :
        (n k : ℕ) (m : Machine Loop)
        → Placed m
        → Winds k m
        → measure k m < n
        → Surely Emptied (steps uv n m)
    unfolding steps
    steps-Emptied zero k m v w lt = absurd (omega (arith, lt))
    steps-Emptied (suc n) k m v w lt =
        Surely-then (λ t. Next k m t × Placed t) Emptied (step uv m) (steps uv n)
          (Surely-both (Next k m) Placed (step uv m) (step-Next uv k m v w) (step-Placed uv m v))
          (λ t (next, placed). elim next [
            | inl e ↦ steps-stopped n t e
            | inr (j, less, u) ↦ steps-Emptied n j t placed u (omega (arith, lt, less))
          ])

    main_turn :
        (p : Prog) (w : ℕ) (s : Sched Loop)
        → Started s
        → Indexed s
        → Ends true p w
        → Winds w (goes_on (in_fn p) s)
    main_turn p w s g v ends = record {
      listed = record {
        table = v;
        at_id = λ q ne. elim (Bool-cases (0 == q)) [
          | inl e ↦ rw (← ==-true 0 q e) g.at_id
          | inr e ↦
              absurd (ne (ground (arith, e, g.running, g.readyq, count-cons q 0 [], count-nil q)))
        ];
        counted = rw g.readyq g.curractors;
        main_in = λ z. ground (arith, z, g.running, g.main, g.readyq, count-cons 0 0 []);
      };
      work = (w, 0, omega arith, rw (g.running, g.main) ends, rw g.readyq tt);
    }

    boot-Winds : (p : Prog) (w : ℕ) → Ends true p w → Winds w (boot uv p)
    unfolding boot sherry_init
    boot-Winds p w ends =
        main_turn p w (init_with uv initial_size) (init_with-Started uv initial_size (omega arith))
          (init_with-Indexed uv initial_size (omega arith)) ends

    boot-measure : (p : Prog) (w : ℕ) → measure w (boot uv p) ≤ 4 * w + 2
    unfolding boot
    boot-measure p w = ground arith

    pub boot-Emptied :
        (p : Prog) (w n : ℕ)
        → Ends true p w
        → 4 * w + 2 < n
        → Surely Emptied (steps uv n (boot uv p))
    boot-Emptied p w n ends lt =
        steps-Emptied n w (boot uv p) (boot-Placed uv p) (boot-Winds p w ends)
          (omega (arith, lt, boot-measure p w))
