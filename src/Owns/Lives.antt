-- ===== src/Owns/Lives.antt =====
-- A call frees no file descriptor, and a callback frees only one that was closed.
use sherry.Base.{
  ◌≤◌, ◌≡◌, ◌≢◌, refl, ap, sym, ◌∙◌, true, none, some, List, ◌==◌, count, length, length-set,
  get_elem?, set, arith, Bool-cases, inl, inr, ==-true,
}
use sherry.Actor.{Ptr}
use sherry.Sched.{Fd, Sched}
use sherry.Net.{flat, get_fd, put_fd}
use sherry.Progress.{is_some}
use sherry.Stream.Fds.{FdsKept, flat-put}

-- The descriptors that were not closed stay live.
pub record LivesKept {Loop : Type 0} (closed : List Ptr) (s t : Sched Loop) : Type 0 where
  pub kept :
      (p : Ptr) → count p closed ≡ 0 → is_some (get_fd p s) ≡ true → is_some (get_fd p t) ≡ true
  pub longer : length s.fds ≤ length t.fds

module _ {Loop : Type 0} (closed : List Ptr) where
  pub fds-LivesKept : (s t : Sched Loop) → FdsKept s t → LivesKept closed s t
  fds-LivesKept s t e = record {
    kept = λ p ne h. ap (λ fs. is_some (flat (get_elem? fs p))) e ∙ h;
    longer = omega (arith, ap length e);
  }

  pub LivesKept-trans :
      (s t u : Sched Loop) → LivesKept closed s t → LivesKept closed t u → LivesKept closed s u
  LivesKept-trans s t u d e = record {
    kept = λ p ne h. e.kept p ne (d.kept p ne h);
    longer = omega (arith, d.longer, e.longer);
  }

  pub put_fd-LivesKept :
      (q : Ptr) (f g : Fd) (s : Sched Loop)
      → get_fd q s ≡ some f
      → LivesKept closed s (put_fd q g s)
  put_fd-LivesKept q f g s e = record {
    kept = λ p ne h.
        ap is_some (flat-put s.fds p q f (some g) e)
        ∙ elim (Bool-cases (p == q)) [ inl this ↦ rw this refl | inr other ↦ rw other h ];
    longer = omega (arith, length-set s.fds q (some g));
  }

  pub free-LivesKept :
      (q : Ptr) (f : Fd) (s : Sched Loop)
      → get_fd q s ≡ some f
      → count q closed ≢ 0
      → LivesKept closed s (record s { fds = set s.fds q none })
  free-LivesKept q f s e was = record {
    kept = λ p ne h. ap is_some (flat-put s.fds p q f none e) ∙ elim (Bool-cases (p == q)) [
      | inl this ↦ absurd (was (ap (λ r. count r closed) (sym (==-true p q this)) ∙ ne))
      | inr other ↦ rw other h
    ];
    longer = omega (arith, length-set s.fds q none);
  }
