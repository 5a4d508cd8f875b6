-- ===== src/Owns/Round.antt =====
-- Every step of the machine keeps the discipline.
use sherry.Base.{◌≡◌, refl, Option, none, some, List, [], ◌∷◌, ◌++◌, arith}
use sherry.Actor.{Ptr}
use sherry.Uv.{Uv}
use sherry.Sched.{Sched, setrunning}
use sherry.Switch.{Cpu, in_actor, in_schdule, stopped, Machine, goes_on}
use sherry.Step.{to_schdule, callbacks, schdule, step_at}
use sherry.Queues.{Queued, Holds, Holds-both}
use sherry.Queues.Switch.{Active}
use sherry.Frame.Callbacks.{idle_round-Frame}
use sherry.Owns.{place, Owned, Keeps, closed_at, CalmRound, Calm}
use sherry.Owns.Share.{Shares-kept}
use sherry.Owns.Lives.{LivesKept}
use sherry.Owns.Frees.{idle_round-LivesKept}
use sherry.Owns.Others.{Unmoved, Unmoved-WakeFrame}
use sherry.Owns.Exec.{exec-Keeps, running-UsesAt}
use sherry.Owns.Legal.{running-lt}

to_schdule-cpu :
    {Loop : Type 0} (o : Option (Sched Loop)) → Holds (λ m. m.cpu ≡ in_schdule) (to_schdule o)
to_schdule-cpu none = tt
to_schdule-cpu (some s) = refl

module _ {Loop : Type 0} where
  setrunning-fn : (p a : Ptr) (s : Sched Loop) → ((setrunning p s).actor a).fn ≡ (s.actor a).fn
  unfolding setrunning
  setrunning-fn p a s = ground arith

  setrunning-place :
      (p a : Ptr) (s : Sched Loop)
      → place (in_actor (s.actor p).ctx) (setrunning p s) a ≡ (s.actor a).ctx
  unfolding setrunning
  setrunning-place p a s = ground arith

  module _ (uv : Uv Loop) where
    -- The callbacks of libuv free what nobody owns.
    round-Owned :
        (own : Ptr → List Ptr) (closed : List Ptr) (s : Sched Loop) (o : Option (Machine Loop))
        → Owned own closed (record { cpu = in_schdule; sche = s })
        → Holds (λ m. (m.cpu ≡ in_schdule) × (LivesKept closed s m.sche × Unmoved s m.sche)) o
        → Holds (Keeps closed) o
    round-Owned own closed s none v h = tt
    round-Owned own closed s (some m) v (e, (k, u)) = (
      own,
      record {
        shares =
            Shares-kept own closed s m.sche k.kept k.longer (omega (arith, u.same_next)) v.shares;
        uses =
            λ a lt. rw (e, u.contexts a, u.functions a) (v.uses a (omega (arith, lt, u.same_next)));
      },
    )

    setrunning-Owned :
        (own : Ptr → List Ptr) (closed : List Ptr) (p : Ptr) (ps : List Ptr) (s : Sched Loop)
        → Owned own closed (record { cpu = in_schdule; sche = s })
        → Owned own closed (goes_on (s.actor p).ctx (setrunning p (record s { readyq = ps })))
    unfolding setrunning
    setrunning-Owned own closed p ps s v = record {
      shares = record {
        live = v.shares.live;
        once = v.shares.once;
        apart = v.shares.apart;
        gone = v.shares.gone;
        made = v.shares.made;
        fresh = v.shares.fresh;
      };
      uses = λ a lt.
          rw
            (
              setrunning-fn p a (record s { readyq = ps }),
              setrunning-place p a (record s { readyq = ps }),
            )
            (v.uses a lt);
    }

    idle-cpu : (s : Sched Loop) → Holds (λ m. m.cpu ≡ in_schdule) (schdule uv [] s)
    unfolding schdule
    idle-cpu s =
        let r = uv.run_once s.loop in to_schdule-cpu (callbacks r.0 (record s { loop = r.1 }))

    schdule-Keeps :
        (own : Ptr → List Ptr) (closed ps : List Ptr) (s : Sched Loop)
        → Owned own closed (record { cpu = in_schdule; sche = s })
        → CalmRound uv closed ps s
        → Holds (Keeps closed) (schdule uv ps s)
    unfolding schdule
    schdule-Keeps own closed [] s v only = round-Owned own closed s (schdule uv [] s) v (
        Holds-both (λ m. m.cpu ≡ in_schdule) (λ m. LivesKept closed s m.sche × Unmoved s m.sche)
          (schdule uv [] s) (idle-cpu s)
          (Holds-both (λ m. LivesKept closed s m.sche) (λ m. Unmoved s m.sche) (schdule uv [] s)
            (idle_round-LivesKept closed uv s only)
            (idle_round-Frame Unmoved Unmoved-WakeFrame uv s)))
    schdule-Keeps own closed (p ∷ ps) s v only = (own, setrunning-Owned own closed p ps s v)

    pub step_at-Keeps :
        (own : Ptr → List Ptr) (closed : List Ptr) (cpu : Cpu) (s : Sched Loop)
        → Owned own closed (record { cpu = cpu; sche = s })
        → Queued [] s
        → Active cpu s
        → Calm uv closed cpu s
        → Holds (Keeps (closed_at cpu ++ closed)) (step_at uv cpu s)
    unfolding step_at closed_at
    step_at-Keeps own closed (in_actor pt) s v q run calm =
        let lt = running-lt s q run in
        exec-Keeps uv own closed pt s v lt (running-UsesAt uv own closed pt s v lt)
    step_at-Keeps own closed in_schdule s v q run (legal, only) =
        schdule-Keeps own closed s.readyq s v only
    step_at-Keeps own closed stopped s v q run calm = (own, v)
