-- ===== src/Waits/Callbacks.antt =====
-- The callbacks leave an actor that waits in a queue, but for those of a file descriptor that is freed.
use sherry.Base.{
  ℕ, ℤ, ◌≡◌, refl, Option, none, some, List, [], ◌∷◌, ◌++◌, arith, count-nil, count-cons,
  count-append, count-remove_at, Bool-cases, inl, inr, get_elem?, remove_at, is_neg, is_zero, ◌||◌,
  and_then, append_assoc,
}
use sherry.Actor.{Ptr}
use sherry.Uv.{Callback, on_listen, on_read, on_write, on_close}
use sherry.Sched.{Fd, Sched, setready, unblock_all}
use sherry.Net.{
  get_fd, put_fd, fdfree, close_cb, unblock_fd, listen_cb, store_read, read_cb, finish_write,
  write_cb, callback, kept_offset,
}
use sherry.Step.{callbacks}
use sherry.Queues.{Holds}
use sherry.Queues.Net.{waits-set, WaitersOf, own_waiters}
use sherry.Waits.{Waiting, waiters, deserted_by, deserted_by_all, then_list}

module _ {Loop : Type 0} where
  pub setready-Waiting :
      (p : Ptr) (ls : List Ptr) (s : Sched Loop) → Waiting ls s → Waiting ls (setready p s)
  unfolding setready
  setready-Waiting p ls s v q = ground (arith, v q)

  -- An actor that is made ready waits no more.
  taken_out :
      (p : Ptr) (ls : List Ptr) (s : Sched Loop) → Waiting (p ∷ ls) s → Waiting ls (setready p s)
  unfolding setready
  taken_out p ls s v q = ground (arith, v q, count-cons q p ls)

  unblock_all-Waiting :
      (ps ls : List Ptr) (s : Sched Loop) → Waiting (ps ++ ls) s → Waiting ls (unblock_all ps s)
  unfolding unblock_all
  unblock_all-Waiting [] ls s v = v
  unblock_all-Waiting (p ∷ ps) ls s v =
      unblock_all-Waiting ps ls (setready p s) (taken_out p (ps ++ ls) s v)

  module _ (ls : List Ptr) where
    readers-Waiting :
        (p : Ptr) (g : Fd) (s : Sched Loop)
        → WaitersOf p (some g) s
        → Waiting ls s
        → Waiting (g.wait_read ++ ls) (put_fd p (record g { wait_read = [] }) s)
    readers-Waiting p g s (f, e, r, w) v q =
        let g' = record g { wait_read = [] } in
        ground (
          arith,
          v q,
          waits-set q s.fds p f (some g') e,
          count-nil q,
          count-append q g.wait_read ls,
        )

    put_fd-Waiting :
        (p : Ptr) (g : Fd) (s : Sched Loop)
        → WaitersOf p (some g) s
        → Waiting ls s
        → Waiting ls (put_fd p g s)
    put_fd-Waiting p g s (f, e, r, w) v q = ground (arith, v q, waits-set q s.fds p f (some g) e)

    unblock_fd-Waiting :
        (p : Ptr) (o : Option Fd) (s : Sched Loop)
        → WaitersOf p o s
        → Waiting ls s
        → Holds (Waiting ls) (unblock_fd p o s)
    unfolding unblock_fd
    unblock_fd-Waiting p none s w v = tt
    unblock_fd-Waiting p (some g) s w v =
        unblock_all-Waiting g.wait_read ls (put_fd p (record g { wait_read = [] }) s)
          (readers-Waiting p g s w v)

    store_read-Waiting :
        (p : Ptr) (nread : ℤ) (buf : List ℕ) (o : Option Fd) (s : Sched Loop)
        → get_fd p s ≡ o
        → Waiting ls s
        → Holds (Waiting ls) (store_read p nread buf o s)
    unfolding store_read
    store_read-Waiting p nread buf none s e v = tt
    store_read-Waiting p nread buf (some f) s e v =
        elim (Bool-cases (is_neg nread || is_zero nread)) [
          | inl err ↦ rw err (put_fd-Waiting p (record f { rerror = nread }) s (f, e, refl, refl) v)
          | inr fine ↦
              let g = record f { rbuf = some buf; roffset = kept_offset f } in
              rw fine (unblock_fd-Waiting p (some g) s (f, e, refl, refl) v)
        ]

    finish_write-Waiting :
        (i : ℕ) (status : ℤ) (o : Option Ptr) (s : Sched Loop)
        → get_elem? s.requests i ≡ o
        → Waiting ls s
        → Holds (Waiting ls) (finish_write i status o s)
    unfolding finish_write
    finish_write-Waiting i status none s e v = v
    finish_write-Waiting i status (some p) s e v =
        let t = record s { requests = remove_at i s.requests } in
        let w =
          taken_out p ls t
            (λ q. ground (arith, v q, count-remove_at q s.requests i p e, count-cons q p ls)) in
        elim (Bool-cases (is_zero status)) [ inl ok ↦ rw ok w | inr bad ↦ rw bad tt ]

    fdfree-Waiting :
        (p : Ptr) (o : Option Fd) (s : Sched Loop)
        → get_fd p s ≡ o
        → Waiting ls s
        → Holds (Waiting (waiters o ++ ls)) (fdfree p o s)
    unfolding fdfree
    fdfree-Waiting p none s e v = tt
    fdfree-Waiting p (some f) s e v = λ q. ground (
      arith,
      v q,
      waits-set q s.fds p f none e,
      count-append q (f.wait_read ++ f.wait_write) ls,
      count-append q f.wait_read f.wait_write,
    )

    callback-Waiting :
        (c : Callback) (s : Sched Loop)
        → Waiting ls s
        → Holds (Waiting (deserted_by c s ++ ls)) (callback c s)
    unfolding callback listen_cb read_cb write_cb close_cb
    callback-Waiting (on_listen p status) s v =
        unblock_fd-Waiting p (get_fd p s) s (own_waiters p (get_fd p s) s refl) v
    callback-Waiting (on_read p nread buf) s v =
        store_read-Waiting p nread buf (get_fd p s) s refl v
    callback-Waiting (on_write i status) s v =
        finish_write-Waiting i status (get_elem? s.requests i) s refl v
    callback-Waiting (on_close p) s v = fdfree-Waiting p (get_fd p s) s refl v

  then_callbacks :
      (cs : List Callback) (d ls : List Ptr) (o : Option (Sched Loop))
      → Holds (Waiting (d ++ ls)) o
      → ((t : Sched Loop)
          → Waiting (d ++ ls) t
          → Holds (Waiting (deserted_by_all cs t ++ (d ++ ls))) (callbacks cs t))
      → Holds (Waiting ((then_list (deserted_by_all cs) o ++ d) ++ ls)) (and_then o (callbacks cs))
  then_callbacks cs d ls none h rest = tt
  then_callbacks cs d ls (some t) h rest = rw (append_assoc (deserted_by_all cs t) d ls) (rest t h)

  pub callbacks-Waiting :
      (cs : List Callback) (ls : List Ptr) (s : Sched Loop)
      → Waiting ls s
      → Holds (Waiting (deserted_by_all cs s ++ ls)) (callbacks cs s)
  unfolding callbacks
  callbacks-Waiting [] ls s v = v
  callbacks-Waiting (c ∷ cs) ls s v =
      let d = deserted_by c s in
      then_callbacks cs d ls (callback c s) (callback-Waiting ls c s v)
        (λ t w. callbacks-Waiting cs (d ++ ls) t w)
