-- ===== src/Owns/Step.antt =====
-- One call of an actor keeps the discipline.
use sherry.Base.{
  ℕ, zero, suc, ◌<◌, ◌≡◌, ◌≢◌, ℤ, pos, true, Option, none, some, List, [], ◌∷◌, ◌==◌, count-nil,
  get_elem?, length, arith, Bool-cases, inl, inr, ==-true,
}
use sherry.Actor.{Ptr, Prog, Point, in_fn}
use sherry.Uv.{Uv}
use sherry.Sched.{Fd, Sched}
use sherry.Switch.{Cpu, in_actor, in_schdule, stopped, Machine, current, goes_on}
use sherry.Net.{flat, get_fd, sherry_fd_close}
use sherry.Step.{call, exec}
use sherry.Queues.{Holds}
use sherry.Progress.{is_some}
use sherry.Frame.Exec.{exec-Frame}
use sherry.Owns.{Uses, UsesAt, place, Shares, Owned, Keeps}
use sherry.Owns.Share.{put, Shares-kept, Shares-shrink, Shares-close}
use sherry.Owns.Lives.{LivesKept}
use sherry.Owns.Calls.{exec-LivesKept}
use sherry.Owns.Others.{Others, Others-FdFrame, Others-FullFrame}
use sherry.Owns.Lands.{Lands, LandsAt, live_call-Lands}

flat-lt-live :
    (xs : List (Option Fd)) (q : ℕ) → is_some (flat (get_elem? xs q)) ≡ true → q < length xs
flat-lt-live [] q h = ground (arith, h)
flat-lt-live (x ∷ xs) zero h = omega arith
flat-lt-live (x ∷ xs) (suc q) h = omega (arith, flat-lt-live xs q h)

pub live-lt :
    {Loop : Type 0} (q : Ptr) (s : Sched Loop) → is_some (get_fd q s) ≡ true → q < length s.fds
live-lt q s h = flat-lt-live s.fds q h

module _ {Loop : Type 0} (own : Ptr → List Ptr) (l : List Ptr) where
  landed_at :
      (r a : Ptr) (cpu : Cpu) (t : Sched Loop)
      → t.running ≡ r
      → LandsAt l (t.actor r).fn r cpu t
      → (a ≢ r → UsesAt (own a) (t.actor a).fn (t.actor a).ctx)
      → UsesAt (put r l own a) (t.actor a).fn (place cpu t a)
  landed_at r a (in_actor pt) t run lands old = elim (Bool-cases (r == a)) [
    | inl e ↦ rw (run, e, ← ==-true r a e) lands
    | inr e ↦ rw (run, e) (old (λ z. ground (arith, e, z)))
  ]
  landed_at r a in_schdule t run lands old = elim (Bool-cases (r == a)) [
    | inl e ↦ rw (e, ← ==-true r a e) lands
    | inr e ↦ rw e (old (λ z. ground (arith, e, z)))
  ]
  landed_at r a stopped t run lands old = tt

module _ {Loop : Type 0} (uv : Uv Loop) (own : Ptr → List Ptr) (closed : List Ptr) where
  pub place-other :
      (pt : Point) (s : Sched Loop) (a : Ptr)
      → a ≢ s.running
      → place (in_actor pt) s a ≡ (s.actor a).ctx
  place-other pt s a ne = ground (arith, ne)

  -- The running actor goes on with `l`, the others as they were.
  pub landed-Owned :
      (pt : Point) (s : Sched Loop) (m : Machine Loop) (l : List Ptr) (closed' : List Ptr)
      → Owned own closed (goes_on pt s)
      → Shares (put s.running l own) closed' m.sche
      → Others s m.sche
      → Lands l (current s).fn s.running m
      → Owned (put s.running l own) closed' m
  landed-Owned pt s m l closed' v shares o lands = record {
    shares = shares;
    uses = λ a lt.
        landed_at own l s.running a m.cpu m.sche o.runs (rw (o.functions s.running) lands) (λ ne.
          rw (o.functions a, o.contexts a ne, ← place-other pt s a ne)
            (v.uses a (omega (arith, lt, o.same_next))));
  }

  pub run-Keeps :
      (pt : Point) (s : Sched Loop) (l gone : List Ptr) (o : Option (Machine Loop))
      → Owned own closed (goes_on pt s)
      → Holds (λ m. Shares (put s.running l own) gone m.sche) o
      → Holds (λ m. Others s m.sche) o
      → Holds (Lands l (current s).fn s.running) o
      → Holds (Keeps gone) o
  run-Keeps pt s l gone none v sh o la = tt
  run-Keeps pt s l gone (some m) v sh o la =
      (put s.running l own, landed-Owned pt s m l gone v sh o la)

  kept_run :
      (s : Sched Loop) (new : Ptr → List Ptr) (gone : List Ptr) (o : Option (Machine Loop))
      → Shares new gone s
      → Holds (λ m. LivesKept [] s m.sche) o
      → Holds (λ m. Others s m.sche) o
      → Holds (λ m. Shares new gone m.sche) o
  kept_run s new gone none sh k o = tt
  kept_run s new gone (some m) sh k o =
      Shares-kept new gone s m.sche (λ p z. k.kept p (count-nil p)) k.longer
        (omega (arith, o.same_next)) sh

  -- A step that makes, closes and hands on nothing.
  pub stay-Keeps :
      (pt : Point) (s : Sched Loop)
      → Owned own closed (goes_on pt s)
      → ((f : Prog) (k : ℤ → Prog) → pt ≢ in_fn (Prog.spawn f k))
      → Holds (Lands (own s.running) (current s).fn s.running) (exec uv pt s)
      → Holds (Keeps closed) (exec uv pt s)
  stay-Keeps pt s v plain la =
      let o =
        exec-Frame Others Others-FullFrame Others-FdFrame uv pt s (λ f k e. absurd (plain f k e)) in
      let sh = Shares-shrink own closed s s.running (own s.running) (λ p. omega arith) v.shares in
      run-Keeps pt s (own s.running) closed (exec uv pt s) v
        (kept_run s (put s.running (own s.running) own) closed (exec uv pt s) sh
          (exec-LivesKept uv pt s) o)
        o la

  close-Lands :
      (q : Ptr) (k : ℤ → Prog) (s : Sched Loop) (l : List Ptr)
      → ((err : ℤ) → Uses l (k err))
      → Holds (Lands l (current s).fn s.running) (exec uv (in_fn (Prog.fd_close q k)) s)
  unfolding exec call sherry_fd_close
  close-Lands q k s l rest =
      live_call-Lands l (current s).fn s.running k (get_fd q s)
        (pos 0, record s { loop = uv.close q s.loop }) rest

  -- `sherry_fd_close`, which drops its descriptor.
  pub close-Keeps :
      (q : Ptr) (k : ℤ → Prog) (s : Sched Loop)
      → Owned own closed (goes_on (in_fn (Prog.fd_close q k)) s)
      → Uses (own s.running) (Prog.fd_close q k)
      → Holds (Keeps (q ∷ closed)) (exec uv (in_fn (Prog.fd_close q k)) s)
  close-Keeps q k s v (l, had, drops, less, rest) =
      let pt = in_fn (Prog.fd_close q k) in
      let o = exec-Frame Others Others-FullFrame Others-FdFrame uv pt s (λ f j e. cc) in
      let sh =
        Shares-close own closed s s.running q l had drops less
          (live-lt q s (v.shares.live s.running q had)) v.shares in
      run-Keeps pt s l (q ∷ closed) (exec uv pt s) v
        (kept_run s (put s.running l own) (q ∷ closed) (exec uv pt s) sh (exec-LivesKept uv pt s) o)
        o (close-Lands q k s l rest)
