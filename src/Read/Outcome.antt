-- ===== src/Read/Outcome.antt =====
-- What a read returns: sherry.c, lines 586 to 635.
use sherry.Base.{
  ℕ, zero, suc, ◌+◌, ◌-◌, ◌≤◌, ◌<◌, ◌≡◌, refl, ap, ℤ, pos, is_zero, int_eq, Bool, true, false, some,
  List, [], ◌∷◌, ◌++◌, arith, ltb, if◌then◌else◌, length, take, drop, Bool-cases, inl, inr, ◌⊎◌,
  ◌≢◌, int_eq-true, int_eq-false, is_zero-true, is_zero-false,
}
use sherry.Actor.{Ptr, Prog, in_fn, in_read}
use sherry.Uv.{Uv}
use sherry.Queues.{Surely}
use sherry.Sched.{Fd, Sched}
use sherry.Switch.{Machine, goes_on}
use sherry.Net.{put_fd, buffered, read_size, read_fd, block_fd}

-- The bytes that are still to be read.
abbrev pub unread : Fd → List ℕ
unread f = drop f.roffset (buffered f.rbuf)

length-drop : (n : ℕ) (xs : List ℕ) → length (drop n xs) ≡ length xs - n
length-drop zero xs = omega arith
length-drop (suc n) [] = omega arith
length-drop (suc n) (x ∷ xs) = omega (arith, length-drop n xs)

length-take : (n : ℕ) (xs : List ℕ) → n ≤ length xs → length (take n xs) ≡ n
length-take zero xs h = refl
length-take (suc n) [] h = elim h [ ]
length-take (suc n) (x ∷ xs) h = ap suc (length-take n xs (omega arith))

pub take-nil : (n : ℕ) → take {A = ℕ} n [] ≡ []
take-nil zero = refl
take-nil (suc n) = refl

-- Taking `n` of what is left behind `m` leaves what stands behind `k`, their sum.
pub take-drop : (m n k : ℕ) (xs : List ℕ) → k ≡ m + n → take n (drop m xs) ++ drop k xs ≡ drop m xs
take-drop zero zero zero xs e = refl
take-drop zero zero (suc k) xs e = absurd (omega arith)
take-drop zero (suc n) zero xs e = absurd (omega arith)
take-drop zero (suc n) (suc k) [] e = refl
take-drop zero (suc n) (suc k) (x ∷ xs) e = ap (λ ys. x ∷ ys) (take-drop zero n k xs (omega arith))
take-drop (suc m) n zero xs e = absurd (omega arith)
take-drop (suc m) n (suc k) [] e = rw (take-nil n)
take-drop (suc m) n (suc k) (x ∷ xs) e = take-drop m n k xs (omega arith)

read_size-le :
    (count : ℕ) (f : Fd)
    → (read_size count f ≤ count) × (read_size count f ≤ length (buffered f.rbuf) - f.roffset)
unfolding read_size
read_size-le count f = ground arith

pub drop-all : (n : ℕ) (xs : List ℕ) → length xs ≤ n → drop n xs ≡ []
drop-all zero [] h = refl
drop-all zero (x ∷ xs) h = absurd (omega (arith, h))
drop-all (suc n) [] h = refl
drop-all (suc n) (x ∷ xs) h = drop-all n xs (omega arith)

-- As many bytes as a read says.
pub length-read :
    (count : ℕ) (f : Fd) → length (take (read_size count f) (unread f)) ≡ read_size count f
length-read count f =
    length-take (read_size count f) (unread f)
      (omega (arith, read_size-le count f, length-drop f.roffset (buffered f.rbuf)))

read_size-rest :
    (count : ℕ) (f : Fd)
    → ltb count (length (buffered f.rbuf) - f.roffset) ≡ false
    → read_size count f ≡ length (buffered f.rbuf) - f.roffset
unfolding read_size
read_size-rest count f e = rw e refl

read_size-full :
    (count : ℕ) (f : Fd)
    → (read_size count f ≡ count) ⊎ (drop (f.roffset + read_size count f) (buffered f.rbuf) ≡ [])
unfolding read_size
read_size-full count f = elim (Bool-cases (ltb count (length (buffered f.rbuf) - f.roffset))) [
  | inl e ↦ inl (rw e refl)
  | inr e ↦ inr (
      drop-all (f.roffset + read_size count f) (buffered f.rbuf)
        (omega (arith, read_size-rest count f e)))
]

-- What one round of the loop in `sherry_read` comes to, for a file descriptor `f` at `p`.
pub data ReadOutcome {Loop : Type 0} (uv : Uv Loop) (p : Ptr) (count : ℕ) (k : ℤ → List ℕ → Prog)
    (f : Fd) (s : Sched Loop) (m : Machine Loop) : Type 0 where
  -- The peer has closed the connection: 0.
  at_end :
      f.rerror ≢ pos 0
      → f.rerror ≡ uv.eof
      → m ≡ goes_on (in_fn (k (pos 0) [])) s
      → ReadOutcome uv p count k f s m
  -- Another error is returned as it is.
  failed :
      f.rerror ≢ pos 0
      → f.rerror ≢ uv.eof
      → m ≡ goes_on (in_fn (k f.rerror [])) s
      → ReadOutcome uv p count k f s m
  -- A prefix of the unread bytes, `count` of them or all.
  gets :
      f.rerror ≡ pos 0
      → unread f ≢ []
      → (n : ℕ) → (bytes : List ℕ) → n ≤ count
      → length bytes ≡ n
      → bytes ++ unread (record f { roffset = f.roffset + n }) ≡ unread f
      → (n ≡ count) ⊎ (unread (record f { roffset = f.roffset + n }) ≡ [])
      → m ≡ goes_on (in_fn (k (pos n) bytes)) (put_fd p (record f { roffset = f.roffset + n }) s)
      → ReadOutcome uv p count k f s m
  -- Nothing to read: the actor waits.
  blocks :
      f.rerror ≡ pos 0
      → unread f ≡ []
      → m ≡ block_fd p f (in_read p count k) s
      → ReadOutcome uv p count k f s m

unread-some : (f : Fd) → f.roffset < length (buffered f.rbuf) → unread f ≢ []
unread-some f h e = omega (arith, length-drop f.roffset (buffered f.rbuf), ap length e)

module _ {Loop : Type 0} (uv : Uv Loop) (p : Ptr) (count : ℕ) (k : ℤ → List ℕ → Prog) (f : Fd)
    (s : Sched Loop) where
  read_fd-errored :
      (b : Bool)
      → int_eq f.rerror uv.eof ≡ b
      → f.rerror ≢ pos 0
      → ReadOutcome uv p count k f s (goes_on (in_fn (k (if b then pos 0 else f.rerror) [])) s)
  read_fd-errored true e h = at_end h (int_eq-true f.rerror uv.eof e) refl
  read_fd-errored false e h = failed h (int_eq-false f.rerror uv.eof e) refl

  read_fd-buffered :
      f.rerror ≡ pos 0
      → f.roffset < length (buffered f.rbuf)
      → ReadOutcome uv p count k f s (
          goes_on
            (in_fn (k (pos (read_size count f)) (take (read_size count f) (unread f))))
            (put_fd p (record f { roffset = f.roffset + read_size count f }) s))
  read_fd-buffered e h =
      gets e (unread-some f h) (read_size count f) (take (read_size count f) (unread f))
        (read_size-le count f).0
        (length-take (read_size count f) (unread f)
          (omega (arith, (read_size-le count f).1, length-drop f.roffset (buffered f.rbuf))))
        (take-drop f.roffset (read_size count f) (f.roffset + read_size count f) (buffered f.rbuf)
          refl)
        (read_size-full count f) refl

  read_fd-tested :
      (b c : Bool)
      → is_zero f.rerror ≡ b
      → ltb f.roffset (length (buffered f.rbuf)) ≡ c
      → Surely (ReadOutcome uv p count k f s) (read_fd uv p count k (some f) s)
  unfolding read_fd
  read_fd-tested false c e h =
      rw e (read_fd-errored (int_eq f.rerror uv.eof) refl (is_zero-false f.rerror e))
  read_fd-tested true true e h =
      rw e (rw h (read_fd-buffered (is_zero-true f.rerror e) (ground (arith, h))))
  read_fd-tested true false e h = rw e (
      rw h (
        blocks (is_zero-true f.rerror e) (drop-all f.roffset (buffered f.rbuf) (ground (arith, h)))
          refl))

  -- A round of the loop of `sherry_read` on a live file descriptor never faults, and comes to one
  -- of four outcomes. At the end of the stream it returns 0; at another error that error. Else, if
  -- bytes are unread, it returns a prefix of them, as many as were asked for or all, and what is
  -- unread after it is the rest. Else the actor blocks.
  pub read_fd-ReadOutcome : Surely (ReadOutcome uv p count k f s) (read_fd uv p count k (some f) s)
  read_fd-ReadOutcome =
      read_fd-tested (is_zero f.rerror) (ltb f.roffset (length (buffered f.rbuf))) refl refl
