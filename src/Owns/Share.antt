-- ===== src/Owns/Share.antt =====
-- How the shares change: descriptors that are made, handed on and closed.
use sherry.Base.{
  suc, ◌+◌, ◌≤◌, ◌<◌, ◌≡◌, ◌≢◌, ap, ◌∙◌, true, List, ◌∷◌, ◌==◌, if◌then◌else◌, count, count-cons,
  get_elem?, length, arith, Bool-cases, inl, inr, ==-true,
}
use sherry.Actor.{Ptr}
use sherry.Sched.{Sched}
use sherry.Net.{flat, get_fd}
use sherry.Progress.{is_some}
use sherry.Owns.{Shares}

-- One actor's share is replaced.
abbrev pub put : Ptr → List Ptr → (Ptr → List Ptr) → Ptr → List Ptr
put a l own b = if a == b then l else own b

module _ {Loop : Type 0} (own : Ptr → List Ptr) (closed : List Ptr) where
  pub Shares-kept :
      (s t : Sched Loop)
      → ((p : Ptr) → count p closed ≡ 0 → is_some (get_fd p s) ≡ true → is_some (get_fd p t) ≡ true)
      → length s.fds ≤ length t.fds
      → s.next_actor ≤ t.next_actor
      → Shares own closed s
      → Shares own closed t
  Shares-kept s t kept longer more v = record {
    live = λ a p ne. kept p (ground (arith, v.gone a p, ne)) (v.live a p ne);
    once = v.once;
    apart = v.apart;
    gone = v.gone;
    made = λ p ne. omega (arith, v.made p ne, longer);
    fresh = λ a p le. v.fresh a p (omega (arith, le, more));
  }

  -- The actor drops some of its share.
  pub Shares-shrink :
      (s : Sched Loop) (r : Ptr) (l : List Ptr)
      → ((p : Ptr) → count p l ≤ count p (own r))
      → Shares own closed s
      → Shares (put r l own) closed s
  Shares-shrink s r l less v = record {
    live = λ a p ne. ground (arith, v.live a p, v.live r p, less p, ne);
    once = λ a p. ground (arith, v.once a p, v.once r p, less p);
    apart = λ a b p ne. ground (arith, v.apart a b p, less p, ne);
    gone = λ a p ne. ground (arith, v.gone a p, v.gone r p, less p, ne);
    made = v.made;
    fresh = λ a p le. ground (arith, v.fresh a p, v.fresh r p, less p, le);
  }

  -- The actor closes `q`, and drops it.
  pub Shares-close :
      (s : Sched Loop) (r q : Ptr) (l : List Ptr)
      → count q (own r) ≢ 0
      → count q l ≡ 0
      → ((p : Ptr) → count p l ≤ count p (own r))
      → q < length s.fds
      → Shares own closed s
      → Shares (put r l own) (q ∷ closed) s
  Shares-close s r q l had drops less lt v =
      let w = Shares-shrink s r l less v in
      record {
        live = w.live;
        once = w.once;
        apart = w.apart;
        gone = λ a p ne. elim (Bool-cases (p == q)) [
          | inl e ↦ rw (==-true p q e) (ground (arith, drops, had, v.apart a r q))
          | inr e ↦ w.gone a p (ground (arith, count-cons p q closed, e, ne))
        ];
        made = λ p ne. ground (arith, v.made p, count-cons p q closed, ne, lt);
        fresh = w.fresh;
      }

  -- The actor `r` makes the descriptor `q`.
  pub Shares-make :
      (s t : Sched Loop) (r q : Ptr)
      → q ≡ length s.fds
      → length t.fds ≡ suc (length s.fds)
      → ((p : Ptr) → is_some (get_fd p s) ≡ true → p < length s.fds)
      → ((p : Ptr) → is_some (get_fd p s) ≡ true → is_some (get_fd p t) ≡ true)
      → is_some (get_fd q t) ≡ true
      → t.next_actor ≡ s.next_actor
      → r < s.next_actor
      → Shares own closed s
      → Shares (put r (q ∷ own r) own) closed t
  Shares-make s t r q new longer within kept here same lt v =
      let none_yet : (a : Ptr) → count q (own a) ≡ 0 =
        λ a. ground (arith, v.live a q, within q, new) in
      record {
        live = λ a p ne. elim (Bool-cases (p == q)) [
          | inl e ↦ rw (==-true p q e) here
          | inr e ↦ kept p (ground (arith, v.live a p, v.live r p, count-cons p q (own r), ne, e))
        ];
        once = λ a p. ground (arith, v.once a p, v.once r p, none_yet r, count-cons p q (own r));
        apart = λ a b p ne. elim (Bool-cases (p == q)) [
          | inl e ↦
              rw (==-true p q e)
                (ground (arith, none_yet a, none_yet b, none_yet r, count-cons q q (own r), ne))
          | inr e ↦
              ground
                (arith, v.apart a b p, v.apart r b p, v.apart a r p, count-cons p q (own r), e, ne)
        ];
        gone = λ a p ne.
            ground (arith, v.gone a p, v.gone r p, v.made p, count-cons p q (own r), ne, new);
        made = λ p ne. omega (arith, v.made p ne, longer);
        fresh = λ a p le. ground (arith, v.fresh a p, le, same, lt);
      }

  -- The actor `r` hands `m` to the actor `n` that it spawns, and keeps `l`.
  pub Shares-hand :
      (s t : Sched Loop) (r n : Ptr) (m l : List Ptr)
      → n ≡ s.next_actor
      → r < n
      → t.next_actor ≡ suc n
      → t.fds ≡ s.fds
      → ((p : Ptr) → count p m + count p l ≤ count p (own r))
      → Shares own closed s
      → Shares (put n m (put r l own)) closed t
  Shares-hand s t r n m l new lt next fds less v = record {
    live = λ a p ne.
        let was : is_some (get_fd p s) ≡ true =
          ground (arith, v.live a p, v.live r p, less p, ne) in
        ap (λ fs. is_some (flat (get_elem? fs p))) fds ∙ was;
    once = λ a p. ground (arith, v.once a p, v.once r p, less p);
    apart = λ a b p ne.
        ground (arith, v.apart a b p, v.apart r b p, v.apart a r p, v.once r p, less p, ne);
    gone = λ a p ne. ground (arith, v.gone a p, v.gone r p, less p, ne);
    made = λ p ne. omega (arith, v.made p ne, ap length fds);
    fresh = λ a p le. ground (arith, v.fresh a p, less p, le, next, new, lt);
  }
