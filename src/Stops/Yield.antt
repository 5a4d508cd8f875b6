-- ===== src/Stops/Yield.antt =====
-- What the ends of a turn leave: `sherry_yield`, the end of an actor, and the loop of `sherry_exit`.
use sherry.Base.{
  ℕ, ◌+◌, ◌≡◌, refl, ◌≢◌, ap, sym, ◌∙◌, ℤ, pos, negsuc, [], ◌∷◌, ◌++◌, ◌==◌, count, count-cons,
  count-snoc, length-append, get_elem?, arith,
}
use sherry.Actor.{Ptr, Point, Status}
use sherry.Sched.{Sched, setready, slot}
use sherry.Switch.{current, sherry_yield}
use sherry.Table.{Indexed}
use sherry.Table.Register.{setready-Indexed, put_actor-Indexed}
use sherry.Stops.{Left, Work, Listed}
use sherry.Stops.Work.{Work-frame, Work-snoc}

pub record Yielded {Loop : Type 0} (pt : Point) (s t : Sched Loop) : Type 0 where
  pub queue : t.readyq ≡ s.readyq ++ s.running ∷ []
  pub main : t.main ≡ s.main
  pub curractors : t.curractors ≡ s.curractors
  pub actors : t.actors ≡ s.actors
  pub others : (q : Ptr) → q ≢ s.running → t.actor q ≡ s.actor q
  pub context : (t.actor s.running).ctx ≡ pt
  pub function : (t.actor s.running).fn ≡ (s.actor s.running).fn
  pub ids : (q : Ptr) → (t.actor q).aid ≡ (s.actor q).aid

module _ {Loop : Type 0} where
  sherry_yield-Yielded :
      (pt : Point) (s : Sched Loop)
      → (current s).status ≡ Status.running
      → Yielded pt s (sherry_yield pt s).sche
  unfolding sherry_yield setready
  sherry_yield-Yielded pt s run = record {
    queue = ground (arith, run);
    main = ground (arith, run);
    curractors = ground (arith, run);
    actors = ground (arith, run);
    others = λ q ne. ground (arith, ne);
    context = ground arith;
    function = ground (arith, run);
    ids = λ q. ground (arith, run);
  }

  sherry_yield-Indexed :
      (pt : Point) (s : Sched Loop) → Indexed s → Indexed (sherry_yield pt s).sche
  unfolding sherry_yield
  sherry_yield-Indexed pt s v =
      let t = setready s.running s in
      put_actor-Indexed t.running (record (current t) { ctx = pt }) t
        (setready-Indexed s.running s v) refl

  pub slot-same : (id : ℤ) (s t : Sched Loop) → t.actors ≡ s.actors → slot id t ≡ slot id s
  slot-same (pos i) s t e = ap (λ xs. get_elem? xs i) e
  slot-same (negsuc i) s t e = refl

  Yielded-Listed :
      (pt : Point) (s t : Sched Loop)
      → Yielded pt s t
      → Indexed t
      → Listed (s.running ∷ s.readyq) s
      → Listed t.readyq t
  Yielded-Listed pt s t y table l =
      let same : (q : Ptr) → count q t.readyq ≡ count q (s.running ∷ s.readyq) = λ q.
        rw y.queue
          (omega (arith, count-snoc q s.readyq s.running, count-cons q s.running s.readyq)) in
      record {
        table = table;
        at_id = λ q ne.
            rw (y.ids q)
              (slot-same (s.actor q).aid s t y.actors ∙ l.at_id q (λ z. ne (same q ∙ z)));
        counted =
            rw y.queue
              (omega (arith, y.curractors, l.counted, length-append s.readyq (s.running ∷ [])));
        main_in = λ z. l.main_in (sym (same s.main) ∙ ap (λ m. count m t.readyq) (sym y.main) ∙ z);
      }

  Yielded-Work :
      (pt : Point) (s t : Sched Loop) (a b : ℕ)
      → Yielded pt s t
      → count s.running s.readyq ≡ 0
      → Left (s.running == s.main) (current s).fn pt a
      → Work s.main s.actor s.readyq b
      → Work t.main t.actor t.readyq (b + a)
  Yielded-Work pt s t a b y out l w =
      let left : Left (s.running == s.main) (t.actor s.running).fn (t.actor s.running).ctx a =
        rw (y.context, y.function) l in
      let old : (q : Ptr) → count q s.readyq ≢ 0 → t.actor q ≡ s.actor q =
        λ q ne. y.others q (λ e. ne (ap (λ p. count p s.readyq) e ∙ out)) in
      rw (y.queue, y.main)
        (Work-snoc s.main t.actor s.readyq s.running b a
          (Work-frame s.main s.actor t.actor s.readyq b old w) left)

  -- The running actor goes to the end of the queue, with what it has left.
  pub sherry_yield-Work :
      (pt : Point) (s : Sched Loop) (a b : ℕ)
      → (current s).status ≡ Status.running
      → count s.running s.readyq ≡ 0
      → Listed (s.running ∷ s.readyq) s
      → Left (s.running == s.main) (current s).fn pt a
      → Work s.main s.actor s.readyq b
      → let t = (sherry_yield pt s).sche in
        Listed t.readyq t
        × Work t.main t.actor t.readyq (b + a)
        × (t.readyq ≡ s.readyq ++ s.running ∷ [])
        × (t.main ≡ s.main)
  sherry_yield-Work pt s a b run out l left w =
      let t = (sherry_yield pt s).sche in
      let y = sherry_yield-Yielded pt s run in
      (
        Yielded-Listed pt s t y (sherry_yield-Indexed pt s l.table) l,
        Yielded-Work pt s t a b y out left w,
        y.queue,
        y.main,
      )
