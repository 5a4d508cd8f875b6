-- ===== src/Progress/Callbacks.antt =====
-- Callbacks of libuv on handles that are not closed do not fault.
use sherry.Base.{
  ℕ, zero, suc, ℤ, ◌≡◌, refl, ap, sym, ◌∙◌, is_neg, is_zero, Bool, true, false, ◌&&◌, ◌||◌, Option,
  none, some, List, [], ◌∷◌, arith, Bool-cases, inl, inr, get_elem?, set,
}
use sherry.Actor.{Ptr}
use sherry.Uv.{Callback, on_listen, on_read, on_write, on_close}
use sherry.Sched.{Fd, Sched, setready}
use sherry.Net.{
  flat, get_fd, put_fd, kept_offset, fdfree, close_cb, unblock_fd, listen_cb, store_read, read_cb,
  finish_write, write_cb, callback,
}
use sherry.Step.{callbacks}
use sherry.Queues.{Surely, Surely-map, Surely-then}
use sherry.Read.Arrive.{unblock_all-fds}
use sherry.Progress.{is_some, lives_in, is_live, legal_callbacks}

is_live-get :
    (fds : List (Option Fd)) (p : Ptr) → is_live p (lives_in fds) ≡ is_some (flat (get_elem? fds p))
unfolding lives_in
is_live-get [] p = refl
is_live-get (none ∷ fds) zero = refl
is_live-get (some f ∷ fds) zero = refl
is_live-get (f ∷ fds) (suc p) = is_live-get fds p

lives_in-set :
    (fds : List (Option Fd)) (p : Ptr) (o : Option Fd)
    → lives_in (set fds p o) ≡ set (lives_in fds) p (is_some o)
unfolding lives_in
lives_in-set [] p o = refl
lives_in-set (f ∷ fds) zero o = refl
lives_in-set (f ∷ fds) (suc p) o = ap (λ bs. is_some f ∷ bs) (lives_in-set fds p o)

set-live : (bs : List Bool) (p : ℕ) → is_live p bs ≡ true → set bs p true ≡ bs
set-live [] p h = refl
set-live (b ∷ bs) zero h = rw h refl
set-live (b ∷ bs) (suc p) h = ap (λ cs. b ∷ cs) (set-live bs p h)

-- A live file descriptor is overwritten.
lives_in-put :
    (fds : List (Option Fd)) (p : Ptr) (f : Fd)
    → is_live p (lives_in fds) ≡ true
    → lives_in (set fds p (some f)) ≡ lives_in fds
lives_in-put fds p f h = lives_in-set fds p (some f) ∙ set-live (lives_in fds) p h

and_left : {a : Bool} (b : Bool) → (a && b) ≡ true → a ≡ true
and_left {a} b h = ground (arith, h)

and_right : (a : Bool) {b : Bool} → (a && b) ≡ true → b ≡ true
and_right a {b} h = ground (arith, h)

abbrev pub Lives : {Loop : Type 0} → List Bool → Sched Loop → Type 0
Lives bs s = lives_in s.fds ≡ bs

module _ {Loop : Type 0} where
  unblock_fd-Lives :
      (p : Ptr) (o : Option Fd) (s : Sched Loop)
      → is_some o ≡ true
      → is_live p (lives_in s.fds) ≡ true
      → Surely (Lives (lives_in s.fds)) (unblock_fd p o s)
  unfolding unblock_fd
  unblock_fd-Lives p none s h l = ground (arith, h)
  unblock_fd-Lives p (some f) s h l =
      let g = record f { wait_read = [] } in
      ap lives_in (unblock_all-fds f.wait_read (put_fd p g s)) ∙ lives_in-put s.fds p g l

  store_read-Lives :
      (p : Ptr) (nread : ℤ) (buf : List ℕ) (o : Option Fd) (s : Sched Loop)
      → is_some o ≡ true
      → is_live p (lives_in s.fds) ≡ true
      → Surely (Lives (lives_in s.fds)) (store_read p nread buf o s)
  unfolding store_read
  store_read-Lives p nread buf none s h l = ground (arith, h)
  store_read-Lives p nread buf (some f) s h l = elim (Bool-cases (is_neg nread || is_zero nread)) [
    | inl err ↦ rw err (lives_in-put s.fds p (record f { rerror = nread }) l)
    | inr fine ↦
        rw fine (
          unblock_fd-Lives p (some (record f { rbuf = some buf; roffset = kept_offset f })) s refl
            l)
  ]

  close-Lives :
      (p : Ptr) (o : Option Fd) (s : Sched Loop)
      → is_some o ≡ true
      → Surely (Lives (set (lives_in s.fds) p false)) (fdfree p o s)
  unfolding fdfree
  close-Lives p none s h = ground (arith, h)
  close-Lives p (some f) s h = lives_in-set s.fds p none

  finish_write-Lives :
      (i : ℕ) (status : ℤ) (o : Option Ptr) (s : Sched Loop)
      → is_zero status ≡ true
      → Surely (Lives (lives_in s.fds)) (finish_write i status o s)
  unfolding finish_write setready
  finish_write-Lives i status none s h = refl
  finish_write-Lives i status (some p) s h = rw h (ground arith)

  -- One callback, and what is asked of those behind it.
  callback-Lives :
      (c : Callback) (cs : List Callback) (s : Sched Loop)
      → legal_callbacks (c ∷ cs) (lives_in s.fds) ≡ true
      → Surely (λ t. legal_callbacks cs (lives_in t.fds) ≡ true) (callback c s)
  unfolding callback legal_callbacks listen_cb read_cb write_cb close_cb
  callback-Lives (on_listen p status) cs s h =
      let live = is_live-get s.fds p in
      Surely-map (Lives (lives_in s.fds)) (λ t. legal_callbacks cs (lives_in t.fds) ≡ true)
        (unblock_fd p (get_fd p s) s)
        (unblock_fd-Lives p (get_fd p s) s (sym live ∙ and_left _ h) (and_left _ h))
        (λ t e. rw e (and_right (is_live p (lives_in s.fds)) h))
  callback-Lives (on_read p nread buf) cs s h =
      let live = is_live-get s.fds p in
      Surely-map (Lives (lives_in s.fds)) (λ t. legal_callbacks cs (lives_in t.fds) ≡ true)
        (store_read p nread buf (get_fd p s) s)
        (store_read-Lives p nread buf (get_fd p s) s (sym live ∙ and_left _ h) (and_left _ h))
        (λ t e. rw e (and_right (is_live p (lives_in s.fds)) h))
  callback-Lives (on_write i status) cs s h =
      Surely-map (Lives (lives_in s.fds)) (λ t. legal_callbacks cs (lives_in t.fds) ≡ true)
        (finish_write i status (get_elem? s.requests i) s)
        (finish_write-Lives i status (get_elem? s.requests i) s (and_left _ h))
        (λ t e. rw e (and_right (is_zero status) h))
  callback-Lives (on_close p) cs s h =
      let live = is_live-get s.fds p in
      Surely-map (Lives (set (lives_in s.fds) p false))
        (λ t. legal_callbacks cs (lives_in t.fds) ≡ true) (fdfree p (get_fd p s) s)
        (close-Lives p (get_fd p s) s (sym live ∙ and_left _ h))
        (λ t e. rw e (and_right (is_live p (lives_in s.fds)) h))

  pub callbacks-finish :
      (cs : List Callback) (s : Sched Loop)
      → legal_callbacks cs (lives_in s.fds) ≡ true
      → Surely (λ t. Unit {0}) (callbacks cs s)
  unfolding callbacks
  callbacks-finish [] s h = tt
  callbacks-finish (c ∷ cs) s h =
      Surely-then (λ t. legal_callbacks cs (lives_in t.fds) ≡ true) (λ t. Unit {0}) (callback c s)
        (callbacks cs) (callback-Lives c cs s h) (callbacks-finish cs)
