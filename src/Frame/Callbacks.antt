-- ===== src/Frame/Callbacks.antt =====
-- The callbacks of libuv, made of the writes of a `Frame`.
use sherry.Base.{
  ℕ, ℤ, ◌||◌, is_neg, is_zero, Option, none, some, List, [], ◌∷◌, Bool-cases, inl, inr, get_elem?,
  remove_at, set,
}
use sherry.Actor.{Ptr}
use sherry.Uv.{Uv, Callback, on_listen, on_read, on_write, on_close}
use sherry.Sched.{Fd, Sched, setready, unblock_all}
use sherry.Net.{
  get_fd, put_fd, kept_offset, fdfree, close_cb, unblock_fd, listen_cb, store_read, read_cb,
  finish_write, write_cb, callback,
}
use sherry.Step.{callbacks, schdule, to_schdule}
use sherry.Queues.{Holds, Holds-then}
use sherry.Frame.{WakeFrame}

module _ {Loop : Type 0} (R : Sched Loop → Sched Loop → Type 0) (w : WakeFrame R) where
  unblock_all-Frame : (ps : List Ptr) (s : Sched Loop) → R s (unblock_all ps s)
  unfolding unblock_all
  unblock_all-Frame [] s = w.same s
  unblock_all-Frame (p ∷ ps) s =
      w.after s (setready p s) (unblock_all ps (setready p s)) (w.ready p s)
        (unblock_all-Frame ps (setready p s))

  unblock_fd-Frame : (p : Ptr) (o : Option Fd) (s : Sched Loop) → Holds (R s) (unblock_fd p o s)
  unfolding unblock_fd
  unblock_fd-Frame p none s = tt
  unblock_fd-Frame p (some fd) s =
      let t = put_fd p (record fd { wait_read = [] }) s in
      w.after s t (unblock_all fd.wait_read t) (w.fds t.fds s) (unblock_all-Frame fd.wait_read t)

  store_read-Frame :
      (p : Ptr) (n : ℤ) (buf : List ℕ) (o : Option Fd) (s : Sched Loop)
      → Holds (R s) (store_read p n buf o s)
  unfolding store_read
  store_read-Frame p n buf none s = tt
  store_read-Frame p n buf (some fd) s = elim (Bool-cases (is_neg n || is_zero n)) [
    | inl e ↦ rw e (w.fds (put_fd p (record fd { rerror = n }) s).fds s)
    | inr e ↦
        rw e (unblock_fd-Frame p (some (record fd { rbuf = some buf; roffset = kept_offset fd })) s)
  ]

  finish_write-Frame :
      (i : ℕ) (st : ℤ) (o : Option Ptr) (s : Sched Loop) → Holds (R s) (finish_write i st o s)
  unfolding finish_write
  finish_write-Frame i st none s = w.same s
  finish_write-Frame i st (some p) s = elim (Bool-cases (is_zero st)) [
    | inl e ↦
        let t = record s { requests = remove_at i s.requests } in
        rw e (
          w.after s t (setready p t)
            (w.outside (remove_at i s.requests) s.waitingmsg s.loop s.printed s) (w.ready p t))
    | inr e ↦ rw e tt
  ]

  fdfree-Frame : (p : Ptr) (o : Option Fd) (s : Sched Loop) → Holds (R s) (fdfree p o s)
  unfolding fdfree
  fdfree-Frame p none s = tt
  fdfree-Frame p (some fd) s = w.fds (set s.fds p none) s

  callback-Frame : (c : Callback) (s : Sched Loop) → Holds (R s) (callback c s)
  unfolding callback listen_cb read_cb write_cb close_cb
  callback-Frame (on_listen p status) s = unblock_fd-Frame p (get_fd p s) s
  callback-Frame (on_read p n buf) s = store_read-Frame p n buf (get_fd p s) s
  callback-Frame (on_write i st) s = finish_write-Frame i st (get_elem? s.requests i) s
  callback-Frame (on_close p) s = fdfree-Frame p (get_fd p s) s

  callbacks-Frame :
      (s0 : Sched Loop) (cs : List Callback) (s : Sched Loop)
      → R s0 s
      → Holds (R s0) (callbacks cs s)
  unfolding callbacks
  callbacks-Frame s0 [] s k = k
  callbacks-Frame s0 (c ∷ cs) s k =
      Holds-then (R s) (R s0) (callback c s) (callbacks cs) (callback-Frame c s)
        (λ t l. callbacks-Frame s0 cs t (w.after s0 s t k l))

  to_schdule-Frame :
      (s : Sched Loop) (o : Option (Sched Loop))
      → Holds (R s) o
      → Holds (λ m. R s m.sche) (to_schdule o)
  to_schdule-Frame s none h = tt
  to_schdule-Frame s (some t) h = h

  -- A round of `schdule` where no actor is ready.
  pub idle_round-Frame : (uv : Uv Loop) (s : Sched Loop) → Holds (λ m. R s m.sche) (schdule uv [] s)
  unfolding schdule
  idle_round-Frame uv s =
      let r = uv.run_once s.loop in
      to_schdule-Frame s (callbacks r.0 (record s { loop = r.1 })) (
        callbacks-Frame s r.0 (record s { loop = r.1 })
          (w.outside s.requests s.waitingmsg r.1 s.printed s))
