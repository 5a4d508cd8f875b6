-- ===== src/Stream/Read.antt =====
-- What a round of the loop in `sherry_read` does to a stream.
use sherry.Base.{
  ℕ, ◌+◌, ◌≡◌, refl, true, false, pos, ℤ, is_zero, int_eq, Option, none, some, List, [], ◌==◌,
  if◌then◌else◌, length, ltb, take, arith, Bool-cases, inl, inr,
}
use sherry.Actor.{Ptr, Prog, in_fn, in_read}
use sherry.Uv.{Uv}
use sherry.Sched.{Fd, Sched}
use sherry.Switch.{goes_on}
use sherry.Net.{get_fd, put_fd, buffered, read_size, read_fd, block_fd}
use sherry.Queues.{Holds}
use sherry.Read.Outcome.{unread, take-nil, take-drop, drop-all}
use sherry.Stream.{given_by, stream}
use sherry.Stream.Order.{Drains-given}
use sherry.Stream.Fds.{block_fd-stream}
use sherry.Stream.Callbacks.{Flow, Flow-kept, put_fd-other, put_fd-this, stream-this}

-- What a read returns where the buffer is empty.
pub given_by-empty :
    (count : ℕ) (f : Fd)
    → is_zero f.rerror ≡ true
    → ltb f.roffset (length (buffered f.rbuf)) ≡ false
    → given_by count (some f) ≡ []
given_by-empty count f ok empty =
    rw (ok, drop-all f.roffset (buffered f.rbuf) (ground (arith, empty)))
      (take-nil (read_size count f))

pub given_by-error : (count : ℕ) (f : Fd) → is_zero f.rerror ≡ false → given_by count (some f) ≡ []
given_by-error count f err = rw err refl

module _ {Loop : Type 0} (p : Ptr) where
  -- A read of a file descriptor with an error, or without bytes, returns none.
  none_given :
      (q count : ℕ) (f : Fd) (s t : Sched Loop)
      → given_by count (some f) ≡ []
      → stream p t ≡ stream p s
      → Flow p (if p == q then given_by count (some f) else []) [] 0 s t
  none_given q count f s t e same = elim (Bool-cases (p == q)) [
    | inl this ↦ rw (this, e) (Flow-kept p s t same)
    | inr other ↦ rw other (Flow-kept p s t same)
  ]

  some_given :
      (q count : ℕ) (f : Fd) (s : Sched Loop)
      → get_fd q s ≡ some f
      → is_zero f.rerror ≡ true
      → Flow p
          (if p == q then given_by count (some f) else [])
          []
          0
          s
          (put_fd q (record f { roffset = f.roffset + read_size count f }) s)
  some_given q count f s e ok =
      let n = read_size count f in
      let g = record f { roffset = f.roffset + n } in
      elim (Bool-cases (p == q)) [
        | inl this ↦
            rw (this, ok, put_fd-this p q f g s e this, stream-this p q f s e this)
              (Drains-given (take n (unread f)) (unread f) (unread g)
                (take-drop f.roffset n (f.roffset + n) (buffered f.rbuf) refl))
        | inr other ↦ rw other (Flow-kept p s (put_fd q g s) (put_fd-other p q f g s e other))
      ]

  pub read_fd-freed :
      (uv : Uv Loop) (q count : ℕ) (k : ℤ → List ℕ → Prog) (s : Sched Loop)
      → read_fd uv q count k none s ≡ none
  unfolding read_fd
  read_fd-freed uv q count k s = refl

  module _ (uv : Uv Loop) (q count : ℕ) (k : ℤ → List ℕ → Prog) (f : Fd) (s : Sched Loop) where
    pub read_fd-error :
        is_zero f.rerror ≡ false
        → read_fd uv q count k (some f) s
          ≡ some (goes_on (in_fn (k (if int_eq f.rerror uv.eof then pos 0 else f.rerror) [])) s)
    unfolding read_fd
    read_fd-error err = rw err refl

    pub read_fd-bytes :
        is_zero f.rerror ≡ true
        → ltb f.roffset (length (buffered f.rbuf)) ≡ true
        → let n = read_size count f in
          read_fd uv q count k (some f) s
          ≡ some (
              goes_on
                (in_fn (k (pos n) (given_by count (some f))))
                (put_fd q (record f { roffset = f.roffset + n }) s))
    unfolding read_fd
    read_fd-bytes ok more = rw (ok, more) refl

    pub read_fd-block :
        is_zero f.rerror ≡ true
        → ltb f.roffset (length (buffered f.rbuf)) ≡ false
        → read_fd uv q count k (some f) s ≡ some (block_fd q f (in_read q count k) s)
    unfolding read_fd
    read_fd-block ok empty = rw (ok, empty) refl

  pub read_fd-Flow :
      (uv : Uv Loop) (q count : ℕ) (k : ℤ → List ℕ → Prog) (o : Option Fd) (s : Sched Loop)
      → get_fd q s ≡ o
      → Holds
          (λ m. Flow p (if p == q then given_by count o else []) [] 0 s m.sche)
          (read_fd uv q count k o s)
  read_fd-Flow uv q count k none s e = rw (read_fd-freed uv q count k s) tt
  read_fd-Flow uv q count k (some f) s e = elim (Bool-cases (is_zero f.rerror)) [
    | inl ok ↦ elim (Bool-cases (ltb f.roffset (length (buffered f.rbuf)))) [
      | inl more ↦ rw (read_fd-bytes uv q count k f s ok more) (some_given q count f s e ok)
      | inr empty ↦
          let t = (block_fd q f (in_read q count k) s).sche in
          rw (read_fd-block uv q count k f s ok empty) (
            none_given q count f s t (given_by-empty count f ok empty)
              (block_fd-stream p q f (in_read q count k) s e))
    ]
    | inr err ↦
        rw (read_fd-error uv q count k f s err)
          (none_given q count f s s (given_by-error count f err) refl)
  ]
