-- ===== src/Read/Stale.antt =====
-- How much of a received buffer a read returns: sherry.c, lines 585 to 635.
use sherry.Base.{
  ℕ, ◌+◌, ◌≤◌, ◌<◌, ◌≡◌, refl, ap, sym, ℤ, pos, is_neg, is_zero, true, ◌||◌, ◌∙◌, some, List, [],
  ◌∷◌, ◌++◌, append-nil, length-append, arith, length, drop, inl, inr, ◌⊎◌, ◌≢◌,
}
use sherry.Actor.{Ptr, Prog, in_fn}
use sherry.Uv.{Uv}
use sherry.Sched.{Fd, Sched}
use sherry.Switch.{Machine, in_actor}
use sherry.Net.{get_fd, kept_offset, read_fd, read_loop, read_cb}
use sherry.Queues.{Queued, Surely, Surely-map}
use sherry.Read.Outcome.{unread, ReadOutcome, at_end, failed, gets, blocks, read_fd-ReadOutcome}
use sherry.Read.Arrive.{Arrival, noted, stored, read_cb-Arrival}

-- A prefix that is the whole list when the rest is empty, or when it is as long.
append-full :
    (bytes rest whole : List ℕ)
    → bytes ++ rest ≡ whole
    → length whole ≤ length bytes
    → bytes ≡ whole
append-full bytes [] whole e h = sym (append-nil bytes) ∙ e
append-full bytes (x ∷ rest) whole e h =
    absurd (omega (arith, length-append bytes (x ∷ rest), ap length e))

-- The machine is in the actor's code, where `sherry_read` has returned these bytes.
abbrev pub Returned : {Loop : Type 0} → (ℤ → List ℕ → Prog) → List ℕ → Machine Loop → Type 0
Returned k bytes m = m.cpu ≡ in_actor (in_fn (k (pos (length bytes)) bytes))

module _ {Loop : Type 0} (uv : Uv Loop) (p : Ptr) (count : ℕ) (k : ℤ → List ℕ → Prog) where
  long_enough :
      (n : ℕ) (bytes rest buf : List ℕ)
      → bytes ++ rest ≡ buf
      → length bytes ≡ n
      → length buf ≤ count
      → (n ≡ count) ⊎ (rest ≡ [])
      → length buf ≤ length bytes
  long_enough n bytes rest buf e len h (inl all) = omega arith
  long_enough n bytes rest buf e len h (inr nil) =
      omega (arith, ap length e, length-append bytes rest, ap length nil)

  returned :
      (n : ℕ) (bytes buf : List ℕ)
      → n ≡ length bytes
      → bytes ≡ buf
      → in_actor (in_fn (k (pos n) bytes)) ≡ in_actor (in_fn (k (pos (length buf)) buf))
  returned n bytes buf len same = rw len (rw same refl)

  outcome-whole :
      (g : Fd) (s : Sched Loop) (buf : List ℕ) (m : Machine Loop)
      → g.rerror ≡ pos 0
      → unread g ≡ buf
      → buf ≢ []
      → length buf ≤ count
      → ReadOutcome uv p count k g s m
      → Returned k buf m
  outcome-whole g s buf m e u full h (at_end h' _ _) = absurd (h' e)
  outcome-whole g s buf m e u full h (failed h' _ _) = absurd (h' e)
  outcome-whole g s buf m e u full h (blocks _ none_left _) = absurd (full (sym u ∙ none_left))
  outcome-whole g s buf m e u full h (gets _ _ n bytes le len split all go) =
      let same = append-full bytes (unread (record g { roffset = g.roffset + n })) buf (split ∙ u) (
        long_enough n bytes (unread (record g { roffset = g.roffset + n })) buf (split ∙ u) len h
          all) in
      ap (λ t. t.cpu) go ∙ returned n bytes buf (sym len) same

  received : (n : ℕ) → 0 < n → (is_neg (pos n) || is_zero (pos n)) ≡ true → ⊥
  received n h b = ground (arith, h)

  kept_offset-zero : (f : Fd) → f.roffset ≡ 0 → kept_offset f ≡ 0
  unfolding kept_offset
  kept_offset-zero f e = ground (arith, e)

  read_stored :
      (g : Fd) (s : Sched Loop) (buf : List ℕ)
      → get_fd p s ≡ some g
      → g.rerror ≡ pos 0
      → unread g ≡ buf
      → buf ≢ []
      → length buf ≤ count
      → Surely (Returned k buf) (read_loop uv p count k s)
  unfolding read_loop
  read_stored g s buf e r u full h = rw e (
      Surely-map (ReadOutcome uv p count k g s) (Returned k buf) (read_fd uv p count k (some g) s)
        (read_fd-ReadOutcome uv p count k g s) (λ m. outcome-whole g s buf m r u full h))

  arrived :
      (f : Fd) (s : Sched Loop) (n : ℕ) (buf : List ℕ)
      → f.rerror ≡ pos 0
      → f.roffset ≡ 0
      → 0 < n
      → n < length buf
      → length buf ≤ count
      → (s' : Sched Loop) → Arrival p (pos n) buf f s s'
      → Surely (Returned k buf) (read_loop uv p count k s')
  arrived f s n buf r o pos_n lt le s' (noted b _ _ _) = absurd (received n pos_n b)
  arrived f s n buf r o pos_n lt le s' (stored b g _ _) =
      read_stored (record f { rbuf = some buf; roffset = kept_offset f; wait_read = [] }) s' buf g r
        (ap (λ i. drop i buf) (kept_offset-zero f o)) (λ z. omega (arith, lt, ap length z)) le

  -- A file descriptor has no error and its offset is 0, and libuv has received `n` bytes into the
  -- larger buffer `buf`. A read of at least the buffer's size that comes next returns the whole
  -- buffer, so more than the `n` bytes that were received.
  pub read_cb_stale :
      (f : Fd) (s : Sched Loop) (n : ℕ) (buf : List ℕ)
      → get_fd p s ≡ some f
      → Queued [] s
      → f.rerror ≡ pos 0
      → f.roffset ≡ 0
      → 0 < n
      → n < length buf
      → length buf ≤ count
      → Surely (λ s'. Surely (Returned k buf) (read_loop uv p count k s')) (read_cb p (pos n) buf s)
  read_cb_stale f s n buf e v r o pos_n lt le =
      Surely-map (Arrival p (pos n) buf f s)
        (λ s'. Surely (Returned k buf) (read_loop uv p count k s')) (read_cb p (pos n) buf s)
        (read_cb-Arrival p (pos n) buf f s e v) (λ s' a. arrived f s n buf r o pos_n lt le s' a)
