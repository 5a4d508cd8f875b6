-- ===== src/Stream/Reads.antt =====
-- The bytes that `sherry_read` returns to the code of an actor; sherry.c, lines 614 to 635.
use sherry.Base.{
  ℕ, ◌≡◌, refl, ap, sym, pos, ℤ, is_zero, int_eq, Option, none, some, List, [], if◌then◌else◌, ◌⊎◌,
  inl, inr, length, ltb, Bool-cases,
}
use sherry.Actor.{
  Prog, Point, unset, entry, in_fn, after_recv, in_accept, in_read, after_write, in_exit,
  after_main,
}
use sherry.Uv.{Uv}
use sherry.Sched.{Fd, Sched}
use sherry.Switch.{Cpu, in_actor, in_schdule, stopped, Machine}
use sherry.Net.{
  get_fd, buffered, read_size, sherry_accept, if_live, read_begin, sherry_read, read_fd, read_loop,
  block_fd,
}
use sherry.Step.{call, exec, step_at, step}
use sherry.Queues.{Holds}
use sherry.Runs.{Holds-unit, self-true}
use sherry.Read.Outcome.{length-read}
use sherry.Stream.{given_by, given_at}
use sherry.Stream.Read.{
  read_fd-freed, read_fd-error, read_fd-bytes, read_fd-block, given_by-empty, given_by-error,
}

-- A read either returns: `bytes` are in the buffer of its caller, and it returns a number, which is
-- that of the bytes where there are any; or it goes to sleep, and there are none.
pub record Returns (k : ℤ → List ℕ → Prog) (bytes : List ℕ) (next : Cpu) : Type 0 where
  pub ret : ℤ
  pub code : next ≡ in_actor (in_fn (k ret bytes))
  pub number : (ret ≡ pos (length bytes)) ⊎ (bytes ≡ [])

abbrev pub ReadsOrSleeps : (ℤ → List ℕ → Prog) → List ℕ → Cpu → Type 0
ReadsOrSleeps k bytes next = Returns k bytes next ⊎ ((next ≡ in_schdule) × (bytes ≡ []))

module _ {Loop : Type 0} where
  abbrev pub ReadsFrom : Cpu → Sched Loop → Cpu → Type 0
  ReadsFrom (in_actor (in_read q count k)) s next =
      ReadsOrSleeps k (given_at q (in_actor (in_read q count k)) s) next
  ReadsFrom (in_actor (in_fn (Prog.read q count k))) s next =
      Returns k [] next ⊎ (next ≡ in_actor (in_read q count k))
  ReadsFrom _ s next = Unit

  -- Where the running actor calls `sherry_read`, it gets no bytes or comes to its loop; in the loop, its code goes on with the bytes that
  -- are given from the stream of the file descriptor, or it sleeps and none are given.
  abbrev pub Reads : Machine Loop → Machine Loop → Type 0
  Reads m t = ReadsFrom m.cpu m.sche t.cpu

  read_fd-ReadsFrom :
      (uv : Uv Loop) (q count : ℕ) (k : ℤ → List ℕ → Prog) (o : Option Fd) (s : Sched Loop)
      → Holds (λ t. ReadsOrSleeps k (given_by count o) t.cpu) (read_fd uv q count k o s)
  unfolding block_fd
  read_fd-ReadsFrom uv q count k none s = rw (read_fd-freed q uv q count k s) tt
  read_fd-ReadsFrom uv q count k (some f) s = elim (Bool-cases (is_zero f.rerror)) [
    | inl ok ↦ elim (Bool-cases (ltb f.roffset (length (buffered f.rbuf)))) [
      | inl more ↦
          rw (read_fd-bytes q uv q count k f s ok more, ok)
            (inl (record {
              ret = pos (read_size count f);
              code = refl;
              number = inl (ap pos (sym (length-read count f)));
            }))
      | inr empty ↦
          rw (read_fd-block q uv q count k f s ok empty)
            (inr (refl, given_by-empty count f ok empty))
    ]
    | inr err ↦
        let ret = if int_eq f.rerror uv.eof then pos 0 else f.rerror in
        rw (read_fd-error q uv q count k f s err, given_by-error count f err)
          (inl (record { ret = ret; code = refl; number = inr refl }))
  ]

  read_begin-ReadsFrom :
      (uv : Uv Loop) (q count : ℕ) (k : ℤ → List ℕ → Prog) (s : Sched Loop)
      → let next = (read_begin uv q count k s).cpu in
        Returns k [] next ⊎ (next ≡ in_actor (in_read q count k))
  unfolding read_begin
  read_begin-ReadsFrom uv q count k s =
      let err = (uv.read_start q s.loop).0 in
      elim (Bool-cases (is_zero err)) [
        | inl ok ↦ rw ok (inr refl)
        | inr failed ↦ rw failed (inl (record { ret = err; code = refl; number = inr refl }))
      ]

  if_live-ReadsFrom :
      (uv : Uv Loop) (q count : ℕ) (k : ℤ → List ℕ → Prog) (o : Option Fd) (s : Sched Loop)
      → Holds
          (λ t. Returns k [] t.cpu ⊎ (t.cpu ≡ in_actor (in_read q count k)))
          (if_live o (read_begin uv q count k s))
  if_live-ReadsFrom uv q count k none s = tt
  if_live-ReadsFrom uv q count k (some f) s = read_begin-ReadsFrom uv q count k s

  call-ReadsFrom :
      (uv : Uv Loop) (pr : Prog) (s : Sched Loop)
      → Holds (λ t. ReadsFrom (in_actor (in_fn pr)) s t.cpu) (call uv pr s)
  unfolding call sherry_read
  call-ReadsFrom uv (Prog.read q count k) s = if_live-ReadsFrom uv q count k (get_fd q s) s
  call-ReadsFrom uv pr s = Holds-unit (call uv pr s)

  exec-ReadsFrom :
      (uv : Uv Loop) (pt : Point) (s : Sched Loop)
      → Holds (λ t. ReadsFrom (in_actor pt) s t.cpu) (exec uv pt s)
  unfolding exec given_at read_loop
  exec-ReadsFrom uv unset s = tt
  exec-ReadsFrom uv entry s = tt
  exec-ReadsFrom uv (in_fn pr) s = call-ReadsFrom uv pr s
  exec-ReadsFrom uv (after_recv k) s = tt
  exec-ReadsFrom uv (in_accept srv cli k) s = Holds-unit (sherry_accept uv srv cli k s)
  exec-ReadsFrom uv (in_read q n k) s = rw (self-true q) (read_fd-ReadsFrom uv q n k (get_fd q s) s)
  exec-ReadsFrom uv (after_write n k) s = tt
  exec-ReadsFrom uv in_exit s = tt
  exec-ReadsFrom uv after_main s = tt

  step_at-ReadsFrom :
      (uv : Uv Loop) (cpu : Cpu) (s : Sched Loop)
      → Holds (λ t. ReadsFrom cpu s t.cpu) (step_at uv cpu s)
  unfolding step_at
  step_at-ReadsFrom uv (in_actor pt) s = exec-ReadsFrom uv pt s
  step_at-ReadsFrom uv in_schdule s = Holds-unit (step_at uv in_schdule s)
  step_at-ReadsFrom uv stopped s = tt

  pub step-Reads : (uv : Uv Loop) (m : Machine Loop) → Holds (Reads m) (step uv m)
  unfolding step
  step-Reads uv m = step_at-ReadsFrom uv m.cpu m.sche
