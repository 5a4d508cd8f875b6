-- ===== src/Resume/Net.antt =====
-- Network calls and callbacks leave every actor able to go on.
use sherry.Base.{
  ℕ, ℤ, ◌≡◌, refl, true, Option, none, some, List, [], ◌∷◌, arith, Bool-cases, inl, inr, get_elem?,
  remove_at, is_neg, is_zero, not, ◌||◌, int_eq, ltb, length, count-cons,
}
use sherry.Actor.{Ptr, Prog, Point, in_accept, in_read}
use sherry.Uv.{Uv, Callback, on_listen, on_read, on_write, on_close}
use sherry.Sched.{Fd, Sched, setready, unblock_all}
use sherry.Net.{
  get_fd, put_fd, buffered, kept_offset, fdfree, close_cb, block_fd, accept_fd, read_fd, read_begin,
  sherry_read, write_begin, sherry_write, unblock_fd, listen_cb, store_read, read_cb, finish_write,
  write_cb, callback,
}
use sherry.Queues.{Holds, Queued}
use sherry.Queues.Ready.{unblocked}
use sherry.Queues.Net.{WaitersOf, own_waiters, readers_out, writer_out}
use sherry.Queues.Calls.{live-Holds}
use sherry.Resume.{is_io, Fits, Resumes}

module _ {Loop : Type 0} where
  setready-Fits :
      (p : Ptr) (ps : List Ptr) (s : Sched Loop) → Queued (p ∷ ps) s → Fits s → Fits (setready p s)
  unfolding setready
  setready-Fits p ps s v w = record {
    at = λ q. ground (arith, w.at q, v.place p, count-cons p p ps);
  }

  unblock_all-Fits :
      (ps : List Ptr) (s : Sched Loop) → Queued ps s → Fits s → Fits (unblock_all ps s)
  unfolding unblock_all
  unblock_all-Fits [] s v w = w
  unblock_all-Fits (p ∷ ps) s v w =
      unblock_all-Fits ps (setready p s) (unblocked p ps s v) (setready-Fits p ps s v w)

  unblock_fd-Fits :
      (p : Ptr) (o : Option Fd) (s : Sched Loop)
      → WaitersOf p o s
      → Queued [] s
      → Fits s
      → Holds Fits (unblock_fd p o s)
  unfolding unblock_fd
  unblock_fd-Fits p none s e v w = tt
  unblock_fd-Fits p (some g) s e v w =
      unblock_all-Fits g.wait_read (put_fd p (record g { wait_read = [] }) s)
        (readers_out p g s e v) (record { at = w.at })

  store_read-Fits :
      (p : Ptr) (nread : ℤ) (buf : List ℕ) (o : Option Fd) (s : Sched Loop)
      → get_fd p s ≡ o
      → Queued [] s
      → Fits s
      → Holds Fits (store_read p nread buf o s)
  unfolding store_read
  store_read-Fits p nread buf none s e v w = tt
  store_read-Fits p nread buf (some f) s e v w = elim (Bool-cases (is_neg nread || is_zero nread)) [
    | inl err ↦ rw err (record { at = w.at })
    | inr fine ↦
        let g = record f { rbuf = some buf; roffset = kept_offset f } in
        rw fine (unblock_fd-Fits p (some g) s (f, e, refl, refl) v w)
  ]

  fdfree-Fits : (p : Ptr) (o : Option Fd) (s : Sched Loop) → Fits s → Holds Fits (fdfree p o s)
  unfolding fdfree
  fdfree-Fits p none s w = tt
  fdfree-Fits p (some f) s w = record { at = w.at }

  finish_write-Fits :
      (i : ℕ) (status : ℤ) (o : Option Ptr) (s : Sched Loop)
      → get_elem? s.requests i ≡ o
      → Queued [] s
      → Fits s
      → Holds Fits (finish_write i status o s)
  unfolding finish_write
  finish_write-Fits i status none s e v w = w
  finish_write-Fits i status (some p) s e v w =
      let t =
        setready-Fits p [] (record s { requests = remove_at i s.requests }) (writer_out i p s e v)
          (record { at = w.at }) in
      elim (Bool-cases (is_zero status)) [ inl ok ↦ rw ok t | inr bad ↦ rw bad tt ]

  -- A callback wakes only actors that wait in a network call.
  pub callback-Fits :
      (c : Callback) (s : Sched Loop) → Queued [] s → Fits s → Holds Fits (callback c s)
  unfolding callback listen_cb read_cb write_cb close_cb
  callback-Fits (on_listen p status) s v w =
      unblock_fd-Fits p (get_fd p s) s (own_waiters p (get_fd p s) s refl) v w
  callback-Fits (on_read p nread buf) s v w = store_read-Fits p nread buf (get_fd p s) s refl v w
  callback-Fits (on_write i status) s v w =
      finish_write-Fits i status (get_elem? s.requests i) s refl v w
  callback-Fits (on_close p) s v w = fdfree-Fits p (get_fd p s) s w

  block_fd-Resumes :
      (p : Ptr) (f : Fd) (pt : Point) (s : Sched Loop)
      → is_io pt ≡ true
      → Fits s
      → Resumes (block_fd p f pt s)
  unfolding block_fd
  block_fd-Resumes p f pt s io w = record {
    contexts = record { at = λ q. ground (arith, w.at q) };
    now = tt;
  }

  pub accept_fd-Resumes :
      (uv : Uv Loop) (srv cli : Ptr) (k : ℤ → Prog) (o c : Option Fd) (s : Sched Loop)
      → Fits s
      → Holds Resumes (accept_fd uv srv cli k o c s)
  unfolding accept_fd
  accept_fd-Resumes uv srv cli k none c s w = tt
  accept_fd-Resumes uv srv cli k (some f) none s w = tt
  accept_fd-Resumes uv srv cli k (some f) (some c) s w =
      let r = uv.accept srv cli s.loop in
      elim (Bool-cases (not (is_neg r.0) || not (int_eq r.0 uv.eagain))) [
        | inl done ↦ rw done (record { contexts = record { at = w.at }; now = refl })
        | inr again ↦ rw again (
            block_fd-Resumes srv f (in_accept srv cli k) (record s { loop = r.1 }) refl
              (record { at = w.at }))
      ]

  pub read_fd-Resumes :
      (uv : Uv Loop) (p : Ptr) (count : ℕ) (k : ℤ → List ℕ → Prog) (o : Option Fd) (s : Sched Loop)
      → Fits s
      → Holds Resumes (read_fd uv p count k o s)
  unfolding read_fd
  read_fd-Resumes uv p count k none s w = tt
  read_fd-Resumes uv p count k (some f) s w = elim (Bool-cases (not (is_zero f.rerror))) [
    | inl err ↦ rw err (record { contexts = w; now = refl })
    | inr fine ↦ rw fine (elim (Bool-cases (ltb f.roffset (length (buffered f.rbuf)))) [
      | inl some_left ↦ rw some_left (record { contexts = record { at = w.at }; now = refl })
      | inr empty ↦ rw empty (block_fd-Resumes p f (in_read p count k) s refl w)
    ])
  ]

  pub sherry_read-Resumes :
      (uv : Uv Loop) (p : Ptr) (count : ℕ) (k : ℤ → List ℕ → Prog) (s : Sched Loop)
      → Fits s
      → Holds Resumes (sherry_read uv p count k s)
  unfolding sherry_read read_begin
  sherry_read-Resumes uv p count k s w =
      live-Holds Resumes (get_fd p s)
        (elim (Bool-cases (not (is_zero (uv.read_start p s.loop).0))) [
          | inl err ↦ rw err (record { contexts = record { at = w.at }; now = refl })
          | inr fine ↦ rw fine (record { contexts = record { at = w.at }; now = refl })
        ])

  pub sherry_write-Resumes :
      (uv : Uv Loop) (p : Ptr) (bytes : List ℕ) (k : ℕ → Prog) (s : Sched Loop)
      → Fits s
      → Holds Resumes (sherry_write uv p bytes k s)
  unfolding sherry_write write_begin
  sherry_write-Resumes uv p bytes k s w =
      live-Holds Resumes (get_fd p s)
        (record { contexts = record { at = λ q. ground (arith, w.at q) }; now = tt })
