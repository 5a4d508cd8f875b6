-- ===== src/Owns/Make.antt =====
-- `sherry_fd_tcp` and `sherry_spawn` keep the discipline.
use sherry.Base.{
  suc, ◌<◌, ◌≡◌, ◌≢◌, refl, ℤ, true, false, length-append, Option, some, List, [], ◌∷◌, ◌++◌, ◌==◌,
  get_elem?, length, arith, Bool-cases, inl, inr, ==-true,
}
use sherry.Actor.{Ptr, Prog, entry, in_fn}
use sherry.Uv.{Uv}
use sherry.Sched.{Fd, Sched, setready, reg_actor, alloc_actor}
use sherry.Switch.{goes_on, sherry_spawn}
use sherry.Net.{flat, fdnew, fd_tcp_type, sherry_fd_tcp}
use sherry.Step.{call, exec}
use sherry.Queues.{Holds}
use sherry.Progress.{is_some}
use sherry.Owns.{Uses, Owned, Keeps}
use sherry.Owns.Share.{put, Shares-make, Shares-hand}
use sherry.Owns.Calls.{live-snoc}
use sherry.Owns.Step.{live-lt, landed-Owned, place-other}

made_live :
    (xs : List (Option Fd))
    → is_some (flat (get_elem? (xs ++ some (fdnew fd_tcp_type) ∷ []) (length xs))) ≡ true
made_live [] = refl
made_live (x ∷ xs) = made_live xs

-- What `sherry_spawn` does to the other actors and to the new one.
record Handed {Loop : Type 0} (f : Prog) (s t : Sched Loop) : Type 0 where
  pub next : t.next_actor ≡ suc s.next_actor
  pub fds : t.fds ≡ s.fds
  pub runs : t.running ≡ s.running
  pub function : (t.actor s.next_actor).fn ≡ f
  pub context : (t.actor s.next_actor).ctx ≡ entry
  pub contexts : (a : Ptr) → a ≢ s.next_actor → (t.actor a).ctx ≡ (s.actor a).ctx
  pub functions : (a : Ptr) → a ≢ s.next_actor → (t.actor a).fn ≡ (s.actor a).fn

sherry_spawn-Handed : {Loop : Type 0} (f : Prog) (s : Sched Loop) → Handed f s (sherry_spawn f s).1
unfolding sherry_spawn setready reg_actor alloc_actor
sherry_spawn-Handed f s = record {
  next = ground arith;
  fds = ground arith;
  runs = ground arith;
  function = ground arith;
  context = ground arith;
  contexts = λ a ne. ground (arith, ne);
  functions = λ a ne. ground (arith, ne);
}

module _ {Loop : Type 0} (uv : Uv Loop) (own : Ptr → List Ptr) (closed : List Ptr) where
  -- `sherry_fd_tcp`, which makes one.
  pub make-Keeps :
      (k : Ptr → Prog) (s : Sched Loop)
      → Owned own closed (goes_on (in_fn (Prog.fd_tcp k)) s)
      → s.running < s.next_actor
      → Uses (own s.running) (Prog.fd_tcp k)
      → Holds (Keeps closed) (exec uv (in_fn (Prog.fd_tcp k)) s)
  unfolding exec call sherry_fd_tcp
  make-Keeps k s v lt rest =
      let q = length s.fds in
      let t = (sherry_fd_tcp uv s).1 in
      let new = some (fdnew fd_tcp_type) in
      (
        put s.running (q ∷ own s.running) own,
        landed-Owned uv own closed (in_fn (Prog.fd_tcp k)) s (goes_on (in_fn (k q)) t)
            (q ∷ own s.running) closed v
            (Shares-make own closed s t s.running q refl
              (omega (arith, length-append s.fds (new ∷ []))) (λ p h. live-lt p s h)
              (λ p h. live-snoc s.fds new p h) (made_live s.fds) refl lt v.shares)
            (record {
              contexts = λ a ne. refl;
              functions = λ a. refl;
              runs = refl;
              same_next = refl;
            })
            (rest q),
      )

  pub hand-Keeps :
      (f : Prog) (k : ℤ → Prog) (s : Sched Loop)
      → Owned own closed (goes_on (in_fn (Prog.spawn f k)) s)
      → s.running < s.next_actor
      → Uses (own s.running) (Prog.spawn f k)
      → Holds (Keeps closed) (exec uv (in_fn (Prog.spawn f k)) s)
  unfolding exec call
  hand-Keeps f k s v lt (m, l, less, ends, rest) =
      let n = s.next_actor in
      let t = (sherry_spawn f s).1 in
      let h = sherry_spawn-Handed f s in
      (
        put n m (put s.running l own),
        record {
          shares = Shares-hand own closed s t s.running n m l refl lt h.next h.fds less v.shares;
          uses = λ a lt2. elim (Bool-cases (n == a)) [
            | inl e ↦
                let ra : (t.running == a) ≡ false = ground (arith, h.runs, e, lt) in
                rw (e, ra, ← ==-true n a e, h.function, h.context) ends
            | inr e ↦ elim (Bool-cases (s.running == a)) [
              | inl g ↦
                  let ra : (t.running == a) ≡ true = rw h.runs g in
                  rw (e, g, ra) (rest (sherry_spawn f s).0)
              | inr g ↦
                  let ra : (t.running == a) ≡ false = rw h.runs g in
                  rw
                    (
                      e,
                      g,
                      ra,
                      h.functions a (ground (arith, e)),
                      h.contexts a (ground (arith, e)),
                      ← place-other uv own closed (in_fn (Prog.spawn f k)) s a (ground (arith, g)),
                    )
                    (v.uses a (ground (arith, lt2, h.next, e)))
            ]
          ];
        },
      )
