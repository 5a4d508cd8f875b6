-- ===== src/Read/Arrive.antt =====
-- What the callback of libuv for received bytes leaves to the readers: sherry.c, lines 545 to 612.
use sherry.Base.{
  ℕ, zero, suc, ◌≡◌, refl, ap, sym, ℤ, is_neg, is_zero, Bool, true, false, ◌||◌, ◌∙◌, Option, some,
  List, [], ◌∷◌, ◌++◌, append-nil, append_assoc, arith, get_elem?, set, count-cons,
}
use sherry.Actor.{Ptr}
use sherry.Sched.{Fd, Sched, setready, unblock_all}
use sherry.Net.{get_fd, put_fd, flat, kept_offset, unblock_fd, store_read, read_cb}
use sherry.Queues.{Queued, Surely}
use sherry.Queues.Ready.{unblocked}
use sherry.Queues.Net.{readers_out, unblock_all-Queued}

module _ {Loop : Type 0} where
  pub unblock_all-fds : (ps : List Ptr) (s : Sched Loop) → (unblock_all ps s).fds ≡ s.fds
  unfolding unblock_all setready
  unblock_all-fds [] s = refl
  unblock_all-fds (p ∷ ps) s = unblock_all-fds ps (setready p s) ∙ ground arith

  setready-readyq :
      (p : Ptr) (ps : List Ptr) (s : Sched Loop)
      → Queued (p ∷ ps) s
      → (setready p s).readyq ≡ s.readyq ++ p ∷ []
  unfolding setready
  setready-readyq p ps s v = ground (arith, v.place p, count-cons p p ps)

  -- Actors that were taken out of a wait queue join the ready queue in the order in which they waited.
  unblock_all-readyq :
      (ps : List Ptr) (s : Sched Loop) → Queued ps s → (unblock_all ps s).readyq ≡ s.readyq ++ ps
  unfolding unblock_all
  unblock_all-readyq [] s v = sym (append-nil s.readyq)
  unblock_all-readyq (p ∷ ps) s v =
      unblock_all-readyq ps (setready p s) (unblocked p ps s v)
      ∙ rw (setready-readyq p ps s v) (append_assoc s.readyq (p ∷ []) ps)

flat-set :
    (xs : List (Option Fd)) (p : ℕ) (f g : Fd)
    → flat (get_elem? xs p) ≡ some f
    → flat (get_elem? (set xs p (some g)) p) ≡ some g
flat-set [] p f g e = ground arith
flat-set (x ∷ xs) zero f g e = refl
flat-set (x ∷ xs) (suc p) f g e = flat-set xs p f g e

-- What `read_cb` comes to, at a file descriptor `f`.
pub data Arrival {Loop : Type 0} (p : Ptr) (nread : ℤ) (buf : List ℕ) (f : Fd) (s s' : Sched Loop)
    : Type 0 where
  -- An error, the end of the stream, or nothing read: it is noted, and no reader is woken.
  noted :
      (is_neg nread || is_zero nread) ≡ true
      → get_fd p s' ≡ some (record f { rerror = nread })
      → s'.readyq ≡ s.readyq
      → ((q : Ptr) → s'.actor q ≡ s.actor q)
      → Arrival p nread buf f s s'
  -- Bytes: the buffer replaces what was not read yet, and all readers are woken in their order.
  stored :
      (is_neg nread || is_zero nread) ≡ false
      → get_fd p s' ≡ some (record f { rbuf = some buf; roffset = kept_offset f; wait_read = [] })
      → s'.readyq ≡ s.readyq ++ f.wait_read
      → Queued [] s'
      → Arrival p nread buf f s s'

module _ {Loop : Type 0} (p : Ptr) (nread : ℤ) (buf : List ℕ) (f : Fd) (s : Sched Loop) where
  store_read-Arrival :
      (b : Bool)
      → (is_neg nread || is_zero nread) ≡ b
      → get_fd p s ≡ some f
      → Queued [] s
      → Surely (Arrival p nread buf f s) (store_read p nread buf (some f) s)
  unfolding store_read unblock_fd
  store_read-Arrival true b e v =
      rw b (noted b (flat-set s.fds p f (record f { rerror = nread }) e) refl (λ q. refl))
  store_read-Arrival false b e v =
      let g = record f { rbuf = some buf; roffset = kept_offset f } in
      let g' = record g { wait_read = [] } in
      let out = readers_out p g s (f, e, refl, refl) v in
      rw b (
        stored b
          (ap (λ fds. flat (get_elem? fds p)) (unblock_all-fds f.wait_read (put_fd p g' s))
            ∙ flat-set s.fds p f g' e)
          (unblock_all-readyq f.wait_read (put_fd p g' s) out)
          (unblock_all-Queued f.wait_read (put_fd p g' s) out))

  -- On a live file descriptor, where every actor hangs in the queue that its status names,
  -- `read_cb` does not fault. For `nread` of 0 or less it notes the error and leaves every actor
  -- and the ready queue as they are; else the buffer takes the place of the old one, and the
  -- readers that wait join the ready queue in the order in which they blocked.
  pub read_cb-Arrival :
      get_fd p s ≡ some f → Queued [] s → Surely (Arrival p nread buf f s) (read_cb p nread buf s)
  unfolding read_cb
  read_cb-Arrival e v = rw e (store_read-Arrival (is_neg nread || is_zero nread) refl e v)
