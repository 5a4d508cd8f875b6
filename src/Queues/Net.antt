-- ===== src/Queues/Net.antt =====
-- Network calls and callbacks keep every actor where its status says.
use sherry.Base.{
  ℕ, zero, suc, ℤ, ◌+◌, ◌≡◌, refl, Option, none, some, List, [], ◌∷◌, ◌++◌, arith, count-nil,
  count-cons, count-remove_at, Bool-cases, inl, inr, get_elem?, set, remove_at, is_neg, is_zero,
  ◌||◌,
}
use sherry.Actor.{Ptr}
use sherry.Uv.{Callback, on_listen, on_read, on_write, on_close}
use sherry.Sched.{Fd, Sched, setready, unblock_all}
use sherry.Net.{
  flat, get_fd, put_fd, fdfree, close_cb, unblock_fd, listen_cb, store_read, read_cb, finish_write,
  write_cb, callback, kept_offset,
}
use sherry.Queues.{waits, waits_at, Holds, Queued}
use sherry.Queues.Ready.{unblocked}

-- A file descriptor that is replaced carries its waiters with it.
pub waits-set :
    (q : Ptr) (fds : List (Option Fd)) (i : Ptr) (f : Fd) (g : Option Fd)
    → flat (get_elem? fds i) ≡ some f
    → waits q (set fds i g) + waits_at q (some f) ≡ waits q fds + waits_at q g
unfolding waits
waits-set q [] i f g e = cc
waits-set q (x ∷ fds) zero f g e = ground arith
waits-set q (x ∷ fds) (suc i) f g e = ground (arith, waits-set q fds i f g e)

pub waits-append :
    (q : Ptr) (fds : List (Option Fd)) (f : Fd)
    → waits q (fds ++ some f ∷ []) ≡ waits q fds + waits_at q (some f)
unfolding waits
waits-append q [] f = ground arith
waits-append q (x ∷ fds) f = ground (arith, waits-append q fds f)

module _ {Loop : Type 0} where
  pub unblock_all-Queued :
      (ps : List Ptr) (s : Sched Loop) → Queued ps s → Queued [] (unblock_all ps s)
  unfolding unblock_all
  unblock_all-Queued [] s v = v
  unblock_all-Queued (p ∷ ps) s v = unblock_all-Queued ps (setready p s) (unblocked p ps s v)

  -- The file descriptor in hand has the waiters of the one in memory.
  abbrev pub WaitersOf : Ptr → Option Fd → Sched Loop → Type 0
  WaitersOf p none s = Unit {0}
  WaitersOf p (some g) s =
      (f : Fd) × (get_fd p s ≡ some f) × (g.wait_read ≡ f.wait_read) × (g.wait_write ≡ f.wait_write)

  pub own_waiters : (p : Ptr) (o : Option Fd) (s : Sched Loop) → get_fd p s ≡ o → WaitersOf p o s
  own_waiters p none s e = tt
  own_waiters p (some f) s e = (f, e, refl, refl)

  -- The readers of a file descriptor, taken out of its wait queue.
  pub readers_out :
      (p : Ptr) (g : Fd) (s : Sched Loop)
      → WaitersOf p (some g) s
      → Queued [] s
      → Queued g.wait_read (put_fd p (record g { wait_read = [] }) s)
  readers_out p g s (f, e, r, w) v =
      let g' = record g { wait_read = [] } in
      record {
        place = λ q. ground (arith, v.place q, waits-set q s.fds p f (some g') e, count-nil q);
        unused = v.unused;
      }

  -- The actor of a request, when libuv drops it.
  pub writer_out :
      (i : ℕ) (p : Ptr) (s : Sched Loop)
      → get_elem? s.requests i ≡ some p
      → Queued [] s
      → Queued (p ∷ []) (record s { requests = remove_at i s.requests })
  writer_out i p s e v = record {
    place = λ q.
        ground
          (arith, v.place q, count-remove_at q s.requests i p e, count-cons q p [], count-nil q);
    unused = v.unused;
  }

  unblock_fd-Queued :
      (p : Ptr) (o : Option Fd) (s : Sched Loop)
      → WaitersOf p o s
      → Queued [] s
      → Holds (Queued []) (unblock_fd p o s)
  unfolding unblock_fd
  unblock_fd-Queued p none s e v = tt
  unblock_fd-Queued p (some g) s w v =
      unblock_all-Queued g.wait_read (put_fd p (record g { wait_read = [] }) s)
        (readers_out p g s w v)

  listen_cb-Queued :
      (p : Ptr) (status : ℤ) (s : Sched Loop)
      → Queued [] s
      → Holds (Queued []) (listen_cb p status s)
  unfolding listen_cb
  listen_cb-Queued p status s =
      unblock_fd-Queued p (get_fd p s) s (own_waiters p (get_fd p s) s refl)

  -- A file descriptor is replaced, with the waiters that it had.
  pub put_fd-Queued :
      (p : Ptr) (g : Fd) (s : Sched Loop)
      → WaitersOf p (some g) s
      → Queued [] s
      → Queued [] (put_fd p g s)
  put_fd-Queued p g s (f, e, r, w) v = record {
    place = λ q. ground (arith, v.place q, waits-set q s.fds p f (some g) e);
    unused = v.unused;
  }

  store_read-Queued :
      (p : Ptr) (nread : ℤ) (buf : List ℕ) (o : Option Fd) (s : Sched Loop)
      → get_fd p s ≡ o
      → Queued [] s
      → Holds (Queued []) (store_read p nread buf o s)
  unfolding store_read
  store_read-Queued p nread buf none s e v = tt
  store_read-Queued p nread buf (some f) s e v = elim (Bool-cases (is_neg nread || is_zero nread)) [
    | inl err ↦ rw err (put_fd-Queued p (record f { rerror = nread }) s (f, e, refl, refl) v)
    | inr fine ↦
        let g = record f { rbuf = some buf; roffset = kept_offset f } in
        rw fine (unblock_fd-Queued p (some g) s (f, e, refl, refl) v)
  ]

  read_cb-Queued :
      (p : Ptr) (nread : ℤ) (buf : List ℕ) (s : Sched Loop)
      → Queued [] s
      → Holds (Queued []) (read_cb p nread buf s)
  unfolding read_cb
  read_cb-Queued p nread buf s = store_read-Queued p nread buf (get_fd p s) s refl

  fdfree-Queued :
      (p : Ptr) (o : Option Fd) (s : Sched Loop)
      → get_fd p s ≡ o
      → Queued [] s
      → Holds (Queued []) (fdfree p o s)
  unfolding fdfree
  fdfree-Queued p none s e v = tt
  fdfree-Queued p (some f) s e v = record {
    place = λ q. ground (arith, v.place q, waits-set q s.fds p f none e);
    unused = v.unused;
  }

  close_cb-Queued : (p : Ptr) (s : Sched Loop) → Queued [] s → Holds (Queued []) (close_cb p s)
  unfolding close_cb
  close_cb-Queued p s = fdfree-Queued p (get_fd p s) s refl

  finish_write-Queued :
      (i : ℕ) (status : ℤ) (o : Option Ptr) (s : Sched Loop)
      → get_elem? s.requests i ≡ o
      → Queued [] s
      → Holds (Queued []) (finish_write i status o s)
  unfolding finish_write
  finish_write-Queued i status none s e v = v
  finish_write-Queued i status (some p) s e v =
      let t =
        unblocked p [] (record s { requests = remove_at i s.requests }) (writer_out i p s e v) in
      elim (Bool-cases (is_zero status)) [ inl ok ↦ rw ok t | inr bad ↦ rw bad tt ]

  write_cb-Queued :
      (i : ℕ) (status : ℤ) (s : Sched Loop) → Queued [] s → Holds (Queued []) (write_cb i status s)
  unfolding write_cb
  write_cb-Queued i status s = finish_write-Queued i status (get_elem? s.requests i) s refl

  pub callback-Queued :
      (c : Callback) (s : Sched Loop) → Queued [] s → Holds (Queued []) (callback c s)
  unfolding callback
  callback-Queued (on_listen p status) s v = listen_cb-Queued p status s v
  callback-Queued (on_read p nread buf) s v = read_cb-Queued p nread buf s v
  callback-Queued (on_write i status) s v = write_cb-Queued i status s v
  callback-Queued (on_close p) s v = close_cb-Queued p s v
