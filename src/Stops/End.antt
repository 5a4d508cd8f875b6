-- ===== src/Stops/End.antt =====
-- An actor that ends leaves the table, and the last round of `sherry_exit` empties it.
use sherry.Base.{
  ℕ, ◌-◌, ◌≡◌, refl, ◌≢◌, ap, ◌∙◌, false, ℤ, pos, negsuc, none, some, ◌∷◌, ◌==◌, count, count-cons,
  get_elem?, get_elem?-set, get_elem?-lt, set, arith,
}
use sherry.Actor.{Ptr, after_main}
use sherry.Sched.{Sched, slot, unreg_actor}
use sherry.Switch.{current}
use sherry.Step.{finish}
use sherry.Table.{Indexed}
use sherry.Table.Register.{put_actor-Indexed, unreg_actor-Indexed, unreg_actor-hit}
use sherry.Stops.{Work, Listed}
use sherry.Stops.Work.{Work-frame}

-- The index of the slot that an id names.
pub record Slot {Loop : Type 0} (id : ℤ) (p : Ptr) (s : Sched Loop) : Type 0 where
  pub index : ℕ
  pub is_id : id ≡ pos index
  pub holds : get_elem? s.actors index ≡ some (some p)

module _ {Loop : Type 0} where
  slot-Slot : (id : ℤ) (p : Ptr) (s : Sched Loop) → slot id s ≡ some (some p) → Slot id p s
  slot-Slot (pos i) p s e = record { index = i; is_id = refl; holds = e }
  slot-Slot (negsuc i) p s e = cc

  pub unreg_actor-curractors :
      (id : ℤ) (p : Ptr) (s : Sched Loop)
      → slot id s ≡ some (some p)
      → (unreg_actor id s).curractors ≡ s.curractors - 1
  unreg_actor-curractors id p s e =
      let k = slot-Slot id p s e in rw (k.is_id, unreg_actor-hit k.index p s k.holds) refl

  -- What is left of the table and of the queue when the running actor has ended.
  pub record Ended (s t : Sched Loop) : Type 0 where
    pub queue : t.readyq ≡ s.readyq
    pub main : t.main ≡ s.main
    pub one_less : t.curractors ≡ s.curractors - 1
    pub others : (q : Ptr) → q ≢ s.running → t.actor q ≡ s.actor q
    pub kept :
        (q : Ptr)
        → q ≢ s.running
        → slot (s.actor q).aid s ≡ some (some q)
        → slot (s.actor q).aid t ≡ some (some q)

  slot-set :
      (id : ℤ) (q r i : ℕ) (s t : Sched Loop)
      → t.actors ≡ set s.actors i none
      → get_elem? s.actors i ≡ some (some r)
      → q ≢ r
      → slot id s ≡ some (some q)
      → slot id t ≡ some (some q)
  slot-set (pos j) q r i s t new e ne k =
      ground
        (arith, new, get_elem?-set s.actors i j none (get_elem?-lt s.actors i (some r) e), e, k, ne)
  slot-set (negsuc j) q r i s t new e ne k = cc

  finish-Ended :
      (s : Sched Loop)
      → (s.running == s.main) ≡ false
      → slot (current s).aid s ≡ some (some s.running)
      → Ended s (finish s).sche
  unfolding finish
  finish-Ended s other e =
      let k = slot-Slot (current s).aid s.running s e in
      let hit = ap (λ id. unreg_actor id s) k.is_id ∙ unreg_actor-hit k.index s.running s k.holds in
      rw (other, hit)
        (record {
          queue = refl;
          main = refl;
          one_less = refl;
          others = λ q ne. ground (arith, ne);
          kept = λ q ne h. slot-set (s.actor q).aid q s.running k.index s _ refl k.holds ne h;
        })

  finish-Indexed :
      (s : Sched Loop) → (s.running == s.main) ≡ false → Indexed s → Indexed (finish s).sche
  unfolding finish
  finish-Indexed s other v =
      let t = unreg_actor (current s).aid s in
      rw other (
        put_actor-Indexed t.running (record (current t) { ctx = after_main }) t
          (unreg_actor-Indexed (current s).aid s v) refl)

  Ended-Listed :
      (s t : Sched Loop)
      → Ended s t
      → Indexed t
      → s.running ≢ s.main
      → count s.running s.readyq ≡ 0
      → Listed (s.running ∷ s.readyq) s
      → Listed t.readyq t
  Ended-Listed s t g table other out l = record {
    table = table;
    at_id = λ q ne.
        let same = ap (λ ps. count q ps) g.queue in
        let not_it : q ≢ s.running = λ e. ne (same ∙ ap (λ r. count r s.readyq) e ∙ out) in
        rw (g.others q not_it) (
          g.kept q not_it
            (l.at_id q (λ z. ne (omega (arith, z, same, count-cons q s.running s.readyq)))));
    counted = rw g.queue (omega (arith, g.one_less, l.counted));
    main_in =
        rw (g.queue, g.main)
          (λ z. l.main_in (ground (arith, z, other, count-cons s.main s.running s.readyq)));
  }

  Ended-Work :
      (s t : Sched Loop) (b : ℕ)
      → Ended s t
      → count s.running s.readyq ≡ 0
      → Work s.main s.actor s.readyq b
      → Work t.main t.actor t.readyq b
  Ended-Work s t b g out w =
      rw (g.queue, g.main)
        (Work-frame s.main s.actor t.actor s.readyq b
          (λ q ne. g.others q (λ e. ne (ap (λ r. count r s.readyq) e ∙ out))) w)

  -- An actor but `main` that ends leaves the others and their work.
  pub finish-Work :
      (s : Sched Loop) (b : ℕ)
      → (s.running == s.main) ≡ false
      → count s.running s.readyq ≡ 0
      → Listed (s.running ∷ s.readyq) s
      → Work s.main s.actor s.readyq b
      → let t = (finish s).sche in
        Listed t.readyq t
        × Work t.main t.actor t.readyq b
        × (t.readyq ≡ s.readyq)
        × (t.main ≡ s.main)
  finish-Work s b other out l w =
      let t = (finish s).sche in
      let here : count s.running (s.running ∷ s.readyq) ≢ 0 =
        λ z. ground (arith, z, count-cons s.running s.running s.readyq) in
      let g = finish-Ended s other (l.at_id s.running here) in
      (
        Ended-Listed s t g (finish-Indexed s other l.table) (ground (arith, other)) out l,
        Ended-Work s t b g out w,
        g.queue,
        g.main,
      )
