-- ===== src/Stops/Step.antt =====
-- One step of a machine whose actors end: it stops with an empty table, or less is left to do.
use sherry.Base.{
  ℕ, ◌+◌, ◌*◌, ◌≤◌, ◌<◌, ◌≡◌, refl, ap, sym, ◌∙◌, true, false, ℤ, [], ◌∷◌, ◌++◌, ◌==◌, count,
  length, ltb, arith, Bool-cases, inl, inr, ==-true,
}
use sherry.Actor.{Status, Prog, Point, in_fn, in_exit}
use sherry.Sched.{Sched, unreg_actor}
use sherry.Switch.{in_actor, in_schdule, Machine, current, goes_on, sherry_yield, sherry_spawn}
use sherry.Step.{finish, exit_round}
use sherry.Table.Register.{sherry_spawn-Indexed}
use sherry.Stops.{Ends, Left, Work, phase_at, Listed, phase, Next}
use sherry.Stops.Work.{phase_at-le, phase_at-snoc}
use sherry.Stops.Spawn.{sherry_spawn-Spawned, Spawned-Listed, Spawned-Work}
use sherry.Stops.Yield.{sherry_yield-Work, slot-same}
use sherry.Stops.End.{unreg_actor-curractors, finish-Work}

-- The actor that has the processor has `a` steps left, and those in the ready queue `b`.
pub record Turn {Loop : Type 0} (pt : Point) (a b : ℕ) (s : Sched Loop) : Type 0 where
  pub listed : Listed (s.running ∷ s.readyq) s
  pub left : Left (s.running == s.main) (current s).fn pt a
  pub others : Work s.main s.actor s.readyq b
  pub alone : count s.running s.readyq ≡ 0
  pub active : (current s).status ≡ Status.running

module _ {Loop : Type 0} where
  -- The same actor goes on, with fewer steps left.
  pub goes_on-Next :
      (n a b c : ℕ) (pt qt : Point) (s t : Sched Loop)
      → a + b ≤ n
      → c < a
      → (t.running ≡ s.running) × (t.main ≡ s.main)
      → Listed (t.running ∷ t.readyq) t
      → Left (t.running == t.main) (current t).fn qt c
      → Work t.main t.actor t.readyq b
      → Next n (goes_on pt s) (goes_on qt t)
  goes_on-Next n a b c pt qt s t le lt (run, main) l left w = inr (
    c + b,
    rw (run, main) (omega (arith, le, lt)),
    record { listed = l; work = (c, b, omega arith, left, w) },
  )

  -- `schdule` goes on, with the same or fewer steps left in the queue.
  in_schdule-Next :
      (n k : ℕ) (pt : Point) (s : Sched Loop) (t : Machine Loop)
      → t.cpu ≡ in_schdule
      → k * 4 + phase_at t.sche.main t.sche.readyq < n * 4 + phase (in_actor pt) s
      → Listed t.sche.readyq t.sche
      → Work t.sche.main t.sche.actor t.sche.readyq k
      → Next n (goes_on pt s) t
  in_schdule-Next n k pt s t e lt l w =
      inr (k, rw e (omega (arith, lt)), record { listed = rw e l; work = rw e w })

  main_out :
      (pt : Point) (a b : ℕ) (s : Sched Loop)
      → Turn pt a b s
      → (s.running == s.main) ≡ true
      → count s.main s.readyq ≡ 0
  main_out pt a b s v e = ap (λ p. count p s.readyq) (sym (==-true s.running s.main e)) ∙ v.alone

  finish-cpu : (s : Sched Loop) → (s.running == s.main) ≡ false → (finish s).cpu ≡ in_schdule
  unfolding finish
  finish-cpu s other = rw other refl

  pub finish-Next :
      (n a b : ℕ) (pt : Point) (s : Sched Loop)
      → a + b ≤ n
      → 0 < a
      → (s.running == s.main) ≡ false
      → Turn pt a b s
      → Next n (goes_on pt s) (finish s)
  finish-Next n a b pt s le lt other v =
      let (l, w, queue, main) = finish-Work s b other v.alone v.listed v.others in
      let cpu : (finish s).cpu ≡ in_schdule = finish-cpu s other in
      in_schdule-Next n b pt s (finish s) cpu
        (omega (arith, le, lt, phase_at-le (finish s).sche.main (finish s).sche.readyq)) l w

  pub sherry_yield-Next :
      (n a b c : ℕ) (pt qt : Point) (s : Sched Loop)
      → a + b ≤ n
      → c < a
      → Turn pt a b s
      → Left (s.running == s.main) (current s).fn qt c
      → Next n (goes_on pt s) (sherry_yield qt s)
  unfolding sherry_yield
  sherry_yield-Next n a b c pt qt s le lt v left =
      let (l, w, queue, main) =
        sherry_yield-Work qt s c b v.active v.alone v.listed left v.others in
      in_schdule-Next n (b + c) pt s (sherry_yield qt s) refl
        (omega (
          arith,
          le,
          lt,
          phase_at-le (sherry_yield qt s).sche.main (sherry_yield qt s).sche.readyq,
        ))
        l w

  exit_round-more :
      (n a b : ℕ) (s : Sched Loop)
      → a + b ≤ n
      → (s.running == s.main) ≡ true
      → 0 < length s.readyq
      → Turn in_exit a b s
      → Next n (goes_on in_exit s) (sherry_yield in_exit s)
  unfolding sherry_yield
  exit_round-more n a b s le main lt v =
      let (l, w, queue, same) =
        sherry_yield-Work in_exit s a b v.active v.alone v.listed v.left v.others in
      let t = (sherry_yield in_exit s).sche in
      let last : phase_at t.main t.readyq ≡ 1 =
        rw (queue, same, ==-true s.running s.main main)
          (phase_at-snoc s.main s.readyq (main_out in_exit a b s v main) lt) in
      in_schdule-Next n (b + a) in_exit s (sherry_yield in_exit s) refl
        (ground (arith, le, last, main)) l w

  -- The last round: `main` is the only actor in the table, and leaves it.
  exit_round-last :
      (s : Sched Loop)
      → ltb 1 s.curractors ≡ false
      → Listed (s.running ∷ s.readyq) s
      → (unreg_actor (s.actor s.main).aid s).curractors ≡ 0
  exit_round-last s last l =
      ground (
        arith,
        last,
        unreg_actor-curractors (s.actor s.main).aid s.main s (l.at_id s.main l.main_in),
      )

  pub exit_round-Next :
      (n a b : ℕ) (s : Sched Loop)
      → a + b ≤ n
      → Turn in_exit a b s
      → Next n (goes_on in_exit s) (exit_round s)
  unfolding exit_round
  exit_round-Next n a b s le v = elim (Bool-cases (ltb 1 s.curractors)) [
    | inl more ↦
        rw more (exit_round-more n a b s le v.left (ground (arith, more, v.listed.counted)) v)
    | inr last ↦ rw last (inl (refl, exit_round-last s last v.listed))
  ]

  pub printf-Next :
      (n a b c i j : ℕ) (pt : Point) (k : Prog) (s : Sched Loop)
      → a + b ≤ n
      → c < a
      → Turn pt a b s
      → Ends (s.running == s.main) k c
      → Next n (goes_on pt s) (goes_on (in_fn k) (record s { printed = s.printed ++ (i, j) ∷ [] }))
  printf-Next n a b c i j pt k s le lt v ends =
      goes_on-Next n a b c pt (in_fn k) s (record s { printed = s.printed ++ (i, j) ∷ [] }) le lt
        (refl, refl)
        (record {
          table = record {
            ids = v.listed.table.ids;
            allocated = v.listed.table.allocated;
            counted = v.listed.table.counted;
            some_room = v.listed.table.some_room;
          };
          at_id = λ q ne. slot-same (s.actor q).aid s _ refl ∙ v.listed.at_id q ne;
          counted = v.listed.counted;
          main_in = v.listed.main_in;
        })
        ends v.others

  pub spawn-Next :
      (n a b c d : ℕ) (f : Prog) (k : ℤ → Prog) (s : Sched Loop)
      → a + b ≤ n
      → c + d + 1 < a
      → Turn (in_fn (Prog.spawn f k)) a b s
      → Ends false f c
      → ((id : ℤ) → Ends (s.running == s.main) (k id) d)
      → Next n
          (goes_on (in_fn (Prog.spawn f k)) s)
          (goes_on (in_fn (k (sherry_spawn f s).0)) (sherry_spawn f s).1)
  spawn-Next n a b c d f k s le lt v ends rest =
      let r = sherry_spawn f s in
      let g = sherry_spawn-Spawned f s v.listed.table in
      let l = Spawned-Listed f s r.1 g (sherry_spawn-Indexed f s v.listed.table) v.listed in
      let w = Spawned-Work f s r.1 c b g v.listed ends v.others in
      inr (
        d + (b + (c + 1)),
        rw (g.running, g.main) (omega (arith, le, lt)),
        record {
          listed = l;
          work = (d, b + (c + 1), omega arith, rw (g.running, g.main) (rest r.0), w);
        },
      )
