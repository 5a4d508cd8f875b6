-- ===== src/Stops/Work.antt =====
-- The work of a queue when an actor joins it, and when the record of another actor changes.
use sherry.Base.{
  ℕ, ◌+◌, ◌≤◌, ◌<◌, ◌≡◌, refl, ◌≢◌, List, [], ◌∷◌, ◌++◌, ◌==◌, if◌then◌else◌, count, count-cons,
  length, arith, Bool-cases, inl, inr, ==-true, ap, sym, ◌∙◌,
}
use sherry.Actor.{Ptr, Actor}
use sherry.Stops.{Left, Work, phase_at}

pub Work-mono :
    (main : Ptr) (act : Ptr → Actor) (ps : List Ptr) (n m : ℕ)
    → n ≤ m
    → Work main act ps n
    → Work main act ps m
Work-mono main act [] n m le w = tt
Work-mono main act (p ∷ ps) n m le (a, b, h, l, w) = (a, b, omega (arith, h, le), l, w)

pub Work-snoc :
    (main : Ptr) (act : Ptr → Actor) (ps : List Ptr) (p : Ptr) (n a : ℕ)
    → Work main act ps n
    → Left (p == main) (act p).fn (act p).ctx a
    → Work main act (ps ++ p ∷ []) (n + a)
Work-snoc main act [] p n a w l = (a, 0, omega arith, l, tt)
Work-snoc main act (q ∷ ps) p n a (c, d, h, k, w) l =
    (c, d + a, omega (arith, h), k, Work-snoc main act ps p d a w l)

-- Outside of these actors the records may change.
pub Work-frame :
    (main : Ptr) (act new : Ptr → Actor) (ps : List Ptr) (n : ℕ)
    → ((q : Ptr) → count q ps ≢ 0 → new q ≡ act q)
    → Work main act ps n
    → Work main new ps n
Work-frame main act new [] n same w = tt
Work-frame main act new (p ∷ ps) n same (a, b, h, l, w) =
    let here = same p (λ z. ground (arith, z, count-cons p p ps)) in
    (
      a,
      b,
      h,
      rw here l,
      Work-frame main act new ps b (λ q ne. same q (λ z. ne (omega (arith, z, count-cons q p ps))))
          w,
    )

pub Work-put :
    (main r : Ptr) (act : Ptr → Actor) (a : Actor) (ps : List Ptr) (n : ℕ)
    → count r ps ≡ 0
    → Work main act ps n
    → Work main (λ q. if r == q then a else act q) ps n
Work-put main r act a ps n out w =
    Work-frame main act (λ q. if r == q then a else act q) ps n
      (λ q ne. elim (Bool-cases (r == q)) [
        | inl e ↦ absurd (ne (ap (λ x. count x ps) (sym (==-true r q e)) ∙ out))
        | inr e ↦ rw e refl
      ])
      w

pub phase_at-le : (main : Ptr) (ps : List Ptr) → phase_at main ps ≤ 3
phase_at-le main [] = omega arith
phase_at-le main (p ∷ ps) = ground arith

-- Where an actor stands before it, `main` is not the next.
pub phase_at-snoc :
    (main : Ptr) (ps : List Ptr)
    → count main ps ≡ 0
    → 0 < length ps
    → phase_at main (ps ++ main ∷ []) ≡ 1
phase_at-snoc main [] out lt = absurd (omega (arith, lt))
phase_at-snoc main (p ∷ ps) out lt = ground (arith, out, count-cons main p ps)
