-- ===== src/Stream/Callbacks.antt =====
-- What the callbacks of libuv do to a stream.
use sherry.Base.{
  ℕ, ◌+◌, ◌≡◌, refl, ap, ◌∙◌, ℤ, true, false, ◌||◌, is_neg, is_zero, Option, none, some, List, [],
  ◌∷◌, ◌++◌, ◌==◌, if◌then◌else◌, drop, get_elem?, remove_at, set, Bool-cases, inl, inr, ==-true,
  and_then,
}
use sherry.Actor.{Ptr}
use sherry.Uv.{Uv, Callback, on_listen, on_read, on_write, on_close}
use sherry.Sched.{Fd, Sched, setready, setrunning, unblock_all}
use sherry.Net.{
  get_fd, put_fd, kept_offset, fdfree, close_cb, unblock_fd, listen_cb, store_read, read_cb,
  finish_write, write_cb, callback,
}
use sherry.Step.{callbacks, schdule, to_schdule}
use sherry.Queues.{Holds}
use sherry.Read.Outcome.{unread}
use sherry.Read.Arrive.{unblock_all-fds}
use sherry.Stream.{
  unread_of, Drains, arrived_by, arrived_by_all, lost_to, lost_by, lost_by_all, count_after, stream,
  arrived_round, lost_round,
}
use sherry.Stream.Order.{Drains-same, Drains-lost, Drains-arrived, Drains-then}
use sherry.Stream.Fds.{FdsKept-stream, FdsKept-Frame, flat-put, put_fd-stream}

module _ {Loop : Type 0} (p : Ptr) where
  -- A step of the stream of `p`.
  abbrev pub Flow : (given arrived : List ℕ) → (lost : ℕ) → Sched Loop → Sched Loop → Type 0
  Flow given arrived lost s t = Drains given arrived lost (stream p s) (stream p t)

  pub Flow-kept : (s t : Sched Loop) → stream p t ≡ stream p s → Flow [] [] 0 s t
  Flow-kept s t e = Drains-same (stream p s) (stream p t) e

  unblock_all-stream : (ps : List Ptr) (s : Sched Loop) → stream p (unblock_all ps s) ≡ stream p s
  unblock_all-stream ps s = FdsKept-stream p s (unblock_all ps s) (unblock_all-fds ps s)

  unblock_fd-Flow :
      (q : Ptr) (o : Option Fd) (s : Sched Loop)
      → get_fd q s ≡ o
      → Holds (Flow [] [] 0 s) (unblock_fd q o s)
  unfolding unblock_fd
  unblock_fd-Flow q none s e = tt
  unblock_fd-Flow q (some f) s e =
      let g = record f { wait_read = [] } in
      Flow-kept s (unblock_all f.wait_read (put_fd q g s))
        (unblock_all-stream f.wait_read (put_fd q g s) ∙ put_fd-stream p q f g s e refl)

  -- Another descriptor.
  pub put_fd-other :
      (q : Ptr) (f g : Fd) (s : Sched Loop)
      → get_fd q s ≡ some f
      → (p == q) ≡ false
      → stream p (put_fd q g s) ≡ stream p s
  put_fd-other q f g s e other = ap unread_of (flat-put s.fds p q f (some g) e) ∙ rw other refl

  pub put_fd-this :
      (q : Ptr) (f g : Fd) (s : Sched Loop)
      → get_fd q s ≡ some f
      → (p == q) ≡ true
      → stream p (put_fd q g s) ≡ unread g
  put_fd-this q f g s e this = ap unread_of (flat-put s.fds p q f (some g) e) ∙ rw this refl

  pub stream-this :
      (q : Ptr) (f : Fd) (s : Sched Loop)
      → get_fd q s ≡ some f
      → (p == q) ≡ true
      → stream p s ≡ unread f
  stream-this q f s e this = ap unread_of (ap (λ r. get_fd r s) (==-true p q this) ∙ e)

  stored-Flow :
      (q : Ptr) (buf : List ℕ) (f : Fd) (s : Sched Loop)
      → get_fd q s ≡ some f
      → let g = record f { rbuf = some buf; roffset = kept_offset f; wait_read = [] } in
        Flow []
          (if p == q then buf else [])
          (if p == q then lost_to buf (some f) else 0)
          s
          (unblock_all f.wait_read (put_fd q g s))
  stored-Flow q buf f s e =
      let g = record f { rbuf = some buf; roffset = kept_offset f; wait_read = [] } in
      let t = unblock_all f.wait_read (put_fd q g s) in
      elim (Bool-cases (p == q)) [
        | inl this ↦
            let left : stream p t ≡ drop (kept_offset f) buf =
              unblock_all-stream f.wait_read (put_fd q g s) ∙ put_fd-this q f g s e this in
            rw (this, left, stream-this q f s e this)
              (Drains-arrived (unread f) buf (kept_offset f))
        | inr other ↦ rw other (
            Flow-kept s t
              (unblock_all-stream f.wait_read (put_fd q g s) ∙ put_fd-other q f g s e other))
      ]

  store_read-Flow :
      (q : Ptr) (n : ℤ) (buf : List ℕ) (o : Option Fd) (s : Sched Loop)
      → get_fd q s ≡ o
      → Holds
          (Flow [] (arrived_by p (on_read q n buf)) (lost_by p (on_read q n buf) s) s)
          (store_read q n buf o s)
  unfolding store_read arrived_by lost_by unblock_fd
  store_read-Flow q n buf none s e = tt
  store_read-Flow q n buf (some f) s e = elim (Bool-cases (is_neg n || is_zero n)) [
    | inl err ↦
        let g = record f { rerror = n } in
        let k = Flow-kept s (put_fd q g s) (put_fd-stream p q f g s e refl) in
        rw err (elim (Bool-cases (p == q)) [ inl this ↦ rw this k | inr other ↦ rw other k ])
    | inr got ↦ rw (got, e) (stored-Flow q buf f s e)
  ]

  fdfree-Flow :
      (q : Ptr) (o : Option Fd) (s : Sched Loop)
      → get_fd q s ≡ o
      → Holds (Flow [] [] (lost_by p (on_close q) s) s) (fdfree q o s)
  unfolding fdfree lost_by
  fdfree-Flow q none s e = tt
  fdfree-Flow q (some f) s e =
      let t = record s { fds = set s.fds q none } in
      let left = ap unread_of (flat-put s.fds p q f none e) in
      elim (Bool-cases (p == q)) [
        | inl this ↦
            let gone : stream p t ≡ [] = left ∙ rw this refl in
            rw (this, gone) (Drains-lost (stream p s))
        | inr other ↦ rw other (Flow-kept s t (left ∙ rw other refl))
      ]

  finish_write-Flow :
      (i : ℕ) (st : ℤ) (o : Option Ptr) (s : Sched Loop)
      → Holds (Flow [] [] 0 s) (finish_write i st o s)
  unfolding finish_write
  finish_write-Flow i st none s = Flow-kept s s refl
  finish_write-Flow i st (some q) s = elim (Bool-cases (is_zero st)) [
    | inl e ↦
        let t = record s { requests = remove_at i s.requests } in
        rw e
          (Flow-kept s (setready q t) (FdsKept-stream p s (setready q t) (FdsKept-Frame.ready q t)))
    | inr e ↦ rw e tt
  ]

  callback-Flow :
      (c : Callback) (s : Sched Loop)
      → Holds (Flow [] (arrived_by p c) (lost_by p c s) s) (callback c s)
  unfolding callback listen_cb read_cb write_cb close_cb arrived_by lost_by
  callback-Flow (on_listen q status) s = unblock_fd-Flow q (get_fd q s) s refl
  callback-Flow (on_read q n buf) s = store_read-Flow q n buf (get_fd q s) s refl
  callback-Flow (on_write i st) s = finish_write-Flow i st (get_elem? s.requests i) s
  callback-Flow (on_close q) s = fdfree-Flow q (get_fd q s) s refl

  rest-Flow :
      (a0 a1 : List ℕ) (l0 l1 : ℕ) (s t : Sched Loop) (o : Option (Sched Loop))
      → Flow [] a0 l0 s t
      → Holds (Flow [] a1 l1 t) o
      → Holds (Flow [] (a0 ++ a1) (l0 + l1) s) o
  rest-Flow a0 a1 l0 l1 s t none f h = tt
  rest-Flow a0 a1 l0 l1 s t (some u) f h =
      Drains-then [] [] a0 a1 l0 l1 (stream p s) (stream p t) (stream p u) f h

  then-Flow :
      (cs : List Callback) (a : List ℕ) (l : ℕ) (s : Sched Loop) (o : Option (Sched Loop))
      → Holds (Flow [] a l s) o
      → ((t : Sched Loop)
          → Holds (Flow [] (arrived_by_all p cs) (lost_by_all p cs t) t) (callbacks cs t))
      → Holds
          (Flow [] (a ++ arrived_by_all p cs) (l + count_after (lost_by_all p cs) o) s)
          (and_then o (callbacks cs))
  then-Flow cs a l s none h rest = tt
  then-Flow cs a l s (some t) h rest =
      rest-Flow a (arrived_by_all p cs) l (lost_by_all p cs t) s t (callbacks cs t) h (rest t)

  callbacks-Flow :
      (cs : List Callback) (s : Sched Loop)
      → Holds (Flow [] (arrived_by_all p cs) (lost_by_all p cs s) s) (callbacks cs s)
  unfolding callbacks arrived_by_all lost_by_all
  callbacks-Flow [] s = Flow-kept s s refl
  callbacks-Flow (c ∷ cs) s =
      then-Flow cs (arrived_by p c) (lost_by p c s) s (callback c s) (callback-Flow c s)
        (callbacks-Flow cs)

  to_schdule-Flow :
      (a : List ℕ) (l : ℕ) (s : Sched Loop) (o : Option (Sched Loop))
      → Holds (Flow [] a l s) o
      → Holds (λ m. Flow [] a l s m.sche) (to_schdule o)
  to_schdule-Flow a l s none h = tt
  to_schdule-Flow a l s (some t) h = h

  pub schdule-Flow :
      (uv : Uv Loop) (qs : List Ptr) (s : Sched Loop)
      → Holds
          (λ m. Flow [] (arrived_round uv p qs s) (lost_round uv p qs s) s m.sche)
          (schdule uv qs s)
  unfolding schdule setrunning
  schdule-Flow uv [] s =
      let r = uv.run_once s.loop in
      let t = record s { loop = r.1 } in
      to_schdule-Flow (arrived_by_all p r.0) (lost_by_all p r.0 t) s (callbacks r.0 t)
        (callbacks-Flow r.0 t)
  schdule-Flow uv (q ∷ qs) s = Flow-kept s s refl
