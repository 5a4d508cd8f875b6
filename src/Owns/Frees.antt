-- ===== src/Owns/Frees.antt =====
-- The callbacks of libuv free only descriptors that were closed.
use sherry.Base.{
  ℕ, ◌≡◌, ◌≢◌, refl, ℤ, ◌||◌, is_neg, is_zero, Option, none, some, List, [], ◌∷◌, count, get_elem?,
  remove_at, Bool-cases, inl, inr,
}
use sherry.Actor.{Ptr}
use sherry.Uv.{Uv, Callback, on_listen, on_read, on_write, on_close}
use sherry.Sched.{Fd, Sched, setready, unblock_all}
use sherry.Net.{
  get_fd, put_fd, fdfree, close_cb, unblock_fd, listen_cb, store_read, read_cb, finish_write,
  write_cb, callback, kept_offset,
}
use sherry.Step.{callbacks, schdule, to_schdule}
use sherry.Queues.{Holds, Holds-then}
use sherry.Read.Arrive.{unblock_all-fds}
use sherry.Stream.Fds.{FdsKept-Frame}
use sherry.Owns.{ClosesOnly}
use sherry.Owns.Lives.{LivesKept, LivesKept-trans, fds-LivesKept, put_fd-LivesKept, free-LivesKept}

module _ {Loop : Type 0} (closed : List Ptr) where
  woken-LivesKept :
      (ps : List Ptr) (s t : Sched Loop)
      → LivesKept closed s t
      → LivesKept closed s (unblock_all ps t)
  woken-LivesKept ps s t k =
      LivesKept-trans closed s t (unblock_all ps t) k
        (fds-LivesKept closed t (unblock_all ps t) (unblock_all-fds ps t))

  unblock_fd-LivesKept :
      (q : Ptr) (o : Option Fd) (f : Fd) (s : Sched Loop)
      → get_fd q s ≡ some f
      → Holds (LivesKept closed s) (unblock_fd q o s)
  unfolding unblock_fd
  unblock_fd-LivesKept q none f s e = tt
  unblock_fd-LivesKept q (some g) f s e =
      let h = record g { wait_read = [] } in
      woken-LivesKept g.wait_read s (put_fd q h s) (put_fd-LivesKept closed q f h s e)

  no_fd-LivesKept : (q : Ptr) (s : Sched Loop) → Holds (LivesKept closed s) (unblock_fd q none s)
  unfolding unblock_fd
  no_fd-LivesKept q s = tt

  listen_cb-LivesKept :
      (q : Ptr) (o : Option Fd) (s : Sched Loop)
      → get_fd q s ≡ o
      → Holds (LivesKept closed s) (unblock_fd q o s)
  listen_cb-LivesKept q none s e = no_fd-LivesKept q s
  listen_cb-LivesKept q (some f) s e = unblock_fd-LivesKept q (some f) f s e

  store_read-LivesKept :
      (q : Ptr) (n : ℤ) (buf : List ℕ) (o : Option Fd) (s : Sched Loop)
      → get_fd q s ≡ o
      → Holds (LivesKept closed s) (store_read q n buf o s)
  unfolding store_read
  store_read-LivesKept q n buf none s e = tt
  store_read-LivesKept q n buf (some f) s e = elim (Bool-cases (is_neg n || is_zero n)) [
    | inl err ↦ rw err (put_fd-LivesKept closed q f (record f { rerror = n }) s e)
    | inr got ↦ rw got (
        unblock_fd-LivesKept q (some (record f { rbuf = some buf; roffset = kept_offset f })) f s e)
  ]

  fdfree-LivesKept :
      (q : Ptr) (o : Option Fd) (s : Sched Loop)
      → get_fd q s ≡ o
      → count q closed ≢ 0
      → Holds (LivesKept closed s) (fdfree q o s)
  unfolding fdfree
  fdfree-LivesKept q none s e was = tt
  fdfree-LivesKept q (some f) s e was = free-LivesKept closed q f s e was

  finish_write-LivesKept :
      (i : ℕ) (st : ℤ) (o : Option Ptr) (s : Sched Loop)
      → Holds (LivesKept closed s) (finish_write i st o s)
  unfolding finish_write
  finish_write-LivesKept i st none s = fds-LivesKept closed s s refl
  finish_write-LivesKept i st (some q) s = elim (Bool-cases (is_zero st)) [
    | inl e ↦
        let t = record s { requests = remove_at i s.requests } in
        rw e (fds-LivesKept closed s (setready q t) (FdsKept-Frame.ready q t))
    | inr e ↦ rw e tt
  ]

  callback-LivesKept :
      (c : Callback) (cs : List Callback) (s : Sched Loop)
      → ClosesOnly closed (c ∷ cs)
      → Holds (LivesKept closed s) (callback c s) × ClosesOnly closed cs
  unfolding callback listen_cb read_cb write_cb close_cb
  callback-LivesKept (on_listen q status) cs s o = (listen_cb-LivesKept q (get_fd q s) s refl, o)
  callback-LivesKept (on_read q n buf) cs s o =
      (store_read-LivesKept q n buf (get_fd q s) s refl, o)
  callback-LivesKept (on_write i st) cs s o =
      (finish_write-LivesKept i st (get_elem? s.requests i) s, o)
  callback-LivesKept (on_close q) cs s (was, o) = (fdfree-LivesKept q (get_fd q s) s refl was, o)

  callbacks-LivesKept :
      (s0 : Sched Loop) (cs : List Callback) (s : Sched Loop)
      → ClosesOnly closed cs
      → LivesKept closed s0 s
      → Holds (LivesKept closed s0) (callbacks cs s)
  unfolding callbacks
  callbacks-LivesKept s0 [] s o k = k
  callbacks-LivesKept s0 (c ∷ cs) s o k =
      let (h, rest) = callback-LivesKept c cs s o in
      Holds-then (LivesKept closed s) (LivesKept closed s0) (callback c s) (callbacks cs) h
        (λ t l. callbacks-LivesKept s0 cs t rest (LivesKept-trans closed s0 s t k l))

  to_schdule-LivesKept :
      (s : Sched Loop) (o : Option (Sched Loop))
      → Holds (LivesKept closed s) o
      → Holds (λ m. LivesKept closed s m.sche) (to_schdule o)
  to_schdule-LivesKept s none h = tt
  to_schdule-LivesKept s (some t) h = h

  pub idle_round-LivesKept :
      (uv : Uv Loop) (s : Sched Loop)
      → ClosesOnly closed (uv.run_once s.loop).0
      → Holds (λ m. LivesKept closed s m.sche) (schdule uv [] s)
  unfolding schdule
  idle_round-LivesKept uv s o =
      let r = uv.run_once s.loop in
      let t = record s { loop = r.1 } in
      to_schdule-LivesKept s (callbacks r.0 t)
        (callbacks-LivesKept s r.0 t o (fds-LivesKept closed s t refl))
