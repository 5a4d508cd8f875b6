-- ===== src/Stops/Spawn.antt =====
-- What `sherry_spawn` leaves: the new actor is the last of those that have not ended.
use sherry.Base.{
  ℕ, ◌+◌, ◌<◌, ◌≡◌, ◌≢◌, ap, false, ℤ, pos, negsuc, some, List, [], ◌∷◌, ◌++◌, ◌==◌, to_nat, count,
  count-cons, count-snoc, length-append, get_elem?, arith, Bool-cases, inl, inr, ==-true,
}
use sherry.Actor.{Ptr, Prog, entry}
use sherry.Sched.{Sched, alloc_actor, reg_actor, setready, slot}
use sherry.Switch.{sherry_spawn}
use sherry.Table.{Indexed}
use sherry.Table.Register.{Registered, reg_actor-Registered}
use sherry.Stops.{Ends, Left, Work, Listed}
use sherry.Stops.Work.{Work-frame, Work-snoc}

-- The new actor is at the end of the ready queue, at the start of its function, and in the table.
pub record Spawned {Loop : Type 0} (f : Prog) (s t : Sched Loop) : Type 0 where
  pub queue : t.readyq ≡ s.readyq ++ s.next_actor ∷ []
  pub main : t.main ≡ s.main
  pub running : t.running ≡ s.running
  pub one_more : t.curractors ≡ s.curractors + 1
  pub others : (q : Ptr) → q ≢ s.next_actor → t.actor q ≡ s.actor q
  pub at_entry : (t.actor s.next_actor).ctx ≡ entry
  pub function : (t.actor s.next_actor).fn ≡ f
  pub at_id : slot (t.actor s.next_actor).aid t ≡ some (some s.next_actor)
  pub kept : (j q : ℕ) → get_elem? s.actors j ≡ some (some q) → get_elem? t.actors j ≡ some (some q)

module _ {Loop : Type 0} where
  registered :
      (f : Prog) (s : Sched Loop)
      → Indexed s
      → Registered s.next_actor (alloc_actor f s) (reg_actor s.next_actor (alloc_actor f s))
  unfolding alloc_actor
  registered f s v = reg_actor-Registered s.next_actor (alloc_actor f s) v.some_room

  pub sherry_spawn-Spawned :
      (f : Prog) (s : Sched Loop) → Indexed s → Spawned f s (sherry_spawn f s).1
  unfolding sherry_spawn setready reg_actor alloc_actor
  sherry_spawn-Spawned f s v =
      let r = registered f s v in
      record {
        queue = ground arith;
        main = ground arith;
        running = ground arith;
        one_more = ground arith;
        others = λ q ne. ground (arith, ne);
        at_entry = ground arith;
        function = ground arith;
        at_id = ground (arith, r.has_id, r.in_table);
        kept = λ j q e. ground (arith, r.kept j q e);
      }

  in_slot :
      (id : ℤ) (q : Ptr) (s : Sched Loop) → Indexed s → slot id s ≡ some (some q) → q < s.next_actor
  in_slot (pos i) q s v e = v.allocated i q e
  in_slot (negsuc i) q s v e = cc

  pub Listed-lt :
      (ps : List Ptr) (s : Sched Loop) (q : Ptr) → Listed ps s → count q ps ≢ 0 → q < s.next_actor
  Listed-lt ps s q l ne = in_slot (s.actor q).aid q s l.table (l.at_id q ne)

  slot-kept :
      (id : ℤ) (q : Ptr) (s t : Sched Loop)
      → ((j r : ℕ) → get_elem? s.actors j ≡ some (some r) → get_elem? t.actors j ≡ some (some r))
      → slot id s ≡ some (some q)
      → slot id t ≡ some (some q)
  slot-kept (pos i) q s t kept e = kept i q e
  slot-kept (negsuc i) q s t kept e = cc

  alive-count :
      (f : Prog) (s t : Sched Loop)
      → Spawned f s t
      → (q : Ptr)
      → count q (t.running ∷ t.readyq) ≡ count q (s.running ∷ s.readyq) + to_nat (s.next_actor == q)
  alive-count f s t g q =
      rw (g.running, g.queue)
        (omega (
          arith,
          count-cons q s.running (s.readyq ++ s.next_actor ∷ []),
          count-cons q s.running s.readyq,
          count-snoc q s.readyq s.next_actor,
        ))

  pub Spawned-Listed :
      (f : Prog) (s t : Sched Loop)
      → Spawned f s t
      → Indexed t
      → Listed (s.running ∷ s.readyq) s
      → Listed (t.running ∷ t.readyq) t
  Spawned-Listed f s t g table l = record {
    table = table;
    at_id = λ q ne. elim (Bool-cases (s.next_actor == q)) [
      | inl e ↦ let same = ==-true s.next_actor q e in rw (← same) g.at_id
      | inr e ↦
          let old : count q (s.running ∷ s.readyq) ≢ 0 =
            λ z. ne (ground (arith, z, e, alive-count f s t g q)) in
          rw (g.others q (ground (arith, e)))
            (slot-kept (s.actor q).aid q s t g.kept (l.at_id q old))
    ];
    counted =
        rw g.queue
          (omega (arith, g.one_more, l.counted, length-append s.readyq (s.next_actor ∷ [])));
    main_in = λ z. l.main_in (
        omega
          (arith, z, ap (λ m. count m (t.running ∷ t.readyq)) g.main, alive-count f s t g s.main));
  }

  -- The work of the code, of the new actor and of the others.
  pub Spawned-Work :
      (f : Prog) (s t : Sched Loop) (a b : ℕ)
      → Spawned f s t
      → Listed (s.running ∷ s.readyq) s
      → Ends false f a
      → Work s.main s.actor s.readyq b
      → Work t.main t.actor t.readyq (b + (a + 1))
  Spawned-Work f s t a b g l ends w =
      let real : s.next_actor ≢ s.main =
        λ e. omega (arith, e, Listed-lt (s.running ∷ s.readyq) s s.main l l.main_in) in
      let not_main : (s.next_actor == s.main) ≡ false = ground (arith, real) in
      let new_left : Left (s.next_actor == s.main) (t.actor s.next_actor).fn
          (t.actor s.next_actor).ctx (a + 1) =
        rw (g.at_entry, g.function, not_main) (a, omega arith, ends) in
      let old : (q : Ptr) → count q s.readyq ≢ 0 → t.actor q ≡ s.actor q = λ q ne. g.others q (λ e.
        omega (
          arith,
          e,
          Listed-lt (s.running ∷ s.readyq) s q l
              (λ z. ne (omega (arith, z, count-cons q s.running s.readyq))),
        )) in
      rw (g.queue, g.main)
        (Work-snoc s.main t.actor s.readyq s.next_actor b (a + 1)
          (Work-frame s.main s.actor t.actor s.readyq b old w) new_left)
