-- ===== src/Stream/Fds.antt =====
-- The operations that write no file descriptor, and writes that keep what is unread.
use sherry.Base.{
  ℕ, zero, suc, ◌<◌, ◌≡◌, refl, sym, ap, ◌∙◌, ℤ, Option, some, List, [], ◌∷◌, ◌++◌, ◌==◌,
  if◌then◌else◌, length, get_elem?, get_elem?-set, set, arith, Bool-cases, inl, inr, ==-true,
}
use sherry.Actor.{Ptr, Prog, Point}
use sherry.Sched.{Fd, Sched, alloc_actor, reg_actor, clear_slot, unreg_actor, setready}
use sherry.Switch.{sherry_spawn}
use sherry.Message.{post}
use sherry.Net.{flat, get_fd, put_fd, block_fd, put_waitq, waitq, ev_read}
use sherry.Frame.{Frame, FullFrame}
use sherry.Read.Outcome.{unread}
use sherry.Stream.{unread_of, stream}

module _ {Loop : Type 0} where
  abbrev pub FdsKept : Sched Loop → Sched Loop → Type 0
  FdsKept s t = t.fds ≡ s.fds

  setready-fds : (p : Ptr) (s : Sched Loop) → FdsKept s (setready p s)
  unfolding setready
  setready-fds p s = ground arith

  pub sherry_spawn-fds : (f : Prog) (s : Sched Loop) → FdsKept s (sherry_spawn f s).1
  unfolding sherry_spawn setready reg_actor alloc_actor
  sherry_spawn-fds f s = ground arith

  unreg_actor-fds : (id : ℤ) (s : Sched Loop) → FdsKept s (unreg_actor id s)
  unfolding unreg_actor clear_slot
  unreg_actor-fds id s = ground arith

  pub FdsKept-Frame : Frame {Loop = Loop} FdsKept
  FdsKept-Frame = record {
    same = λ s. refl;
    after = λ s t u d e. e ∙ d;
    ready = setready-fds;
    status = λ st s. refl;
    context = λ pt s. refl;
    outside = λ rs ws l out s. refl;
  }

  pub FdsKept-FullFrame : FullFrame {Loop = Loop} FdsKept
  unfolding post
  FdsKept-FullFrame = record {
    table = record { frame = FdsKept-Frame; unreg = unreg_actor-fds };
    posted = λ ty payload p s. refl;
    taken = λ ms s. refl;
  }

  pub FdsKept-stream : (p : Ptr) (s t : Sched Loop) → FdsKept s t → stream p t ≡ stream p s
  FdsKept-stream p s t e = ap (λ fds. unread_of (flat (get_elem? fds p))) e

pub flat-lt :
    (xs : List (Option Fd)) (q : ℕ) (f : Fd) → flat (get_elem? xs q) ≡ some f → q < length xs
flat-lt [] q f e = cc
flat-lt (x ∷ xs) zero f e = omega arith
flat-lt (x ∷ xs) (suc q) f e = omega (arith, flat-lt xs q f e)

-- What stands at `p` when `q` is written.
pub flat-put :
    (xs : List (Option Fd)) (p q : ℕ) (f : Fd) (o : Option Fd)
    → flat (get_elem? xs q) ≡ some f
    → flat (get_elem? (set xs q o) p) ≡ (if p == q then o else flat (get_elem? xs p))
flat-put xs p q f o e = ground (arith, get_elem?-set xs q p o (flat-lt xs q f e))

module _ {Loop : Type 0} where
  -- A write that keeps the unread bytes.
  pub put_fd-stream :
      (p q : Ptr) (f g : Fd) (s : Sched Loop)
      → get_fd q s ≡ some f
      → unread g ≡ unread f
      → stream p (put_fd q g s) ≡ stream p s
  put_fd-stream p q f g s e same =
      ap unread_of (flat-put s.fds p q f (some g) e) ∙ elim (Bool-cases (p == q)) [
        | inl b ↦ rw b (same ∙ sym (ap unread_of (ap (λ r. get_fd r s) (==-true p q b) ∙ e)))
        | inr b ↦ rw b refl
      ]

  pub block_fd-stream :
      (p q : Ptr) (f : Fd) (pt : Point) (s : Sched Loop)
      → get_fd q s ≡ some f
      → stream p (block_fd q f pt s).sche ≡ stream p s
  unfolding block_fd
  block_fd-stream p q f pt s e =
      put_fd-stream p q f (put_waitq ev_read (waitq ev_read f ++ s.running ∷ []) f) s e refl
