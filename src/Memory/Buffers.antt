-- ===== src/Memory/Buffers.antt =====
-- The blocks of a file descriptor from `fdnew` to `close_cb`: lines 489 to 518 and 580 to 610. The
-- callbacks of libuv between them are a list: where malloc puts the buffer, its size, and `nread`.
use sherry.Base.{
  ℕ, ◌+◌, ◌≤◌, ◌≡◌, refl, ◌||◌, ℤ, is_neg, is_zero, Option, some, List, [], ◌∷◌, ◌==◌,
  if◌then◌else◌, count, and_then, arith, Bool-cases, ==-true, inl, inr,
}
use sherry.Queues.{Surely, Surely-map, Surely-then}
use sherry.Dll.{Ptr, null}
use sherry.Memory.{Heap, srmalloc, srfree, rbuf_alloc, read_cb_at, fdfree_at}
use sherry.Memory.Counted.{owned, Freed, srfree-Freed, srmalloc-more, srmalloc_result}

pub record Arrival : Type 0 where
  pub place : Ptr
  pub size : ℕ
  pub nread : ℤ

-- libuv asks for a buffer and gives it to `read_cb`, time after time.
unfoldable pub arrivals : List Arrival → Ptr → Heap → Option (Ptr × Heap)
arrivals [] base h = some (base, h)
arrivals (e ∷ es) base h =
    let r = rbuf_alloc e.place e.size h in
    and_then (read_cb_at e.nread r.0.0 base r.1) λ (b, g). arrivals es b g

-- `fdnew`, what arrives, and `fdfree`; nothing where malloc fails in `fdnew`.
unfoldable pub fd_life : Ptr → List Arrival → Heap → Option Heap
fd_life fd es h =
    let r = srmalloc fd h in
    if r.0 == null
    then some r.1
    else and_then (arrivals es null r.1) λ (base, g). fdfree_at r.0 base g

-- The buffer `base` is all that is live more in `g` than in `h` without `old`.
pub record Holds (old base : Ptr) (h g : Heap) : Type 0 where
  pub blocks : (a : Ptr) → count a g.blocks + owned old a ≡ count a h.blocks + owned base a

-- A pointer owns one block at most, at itself.
owned-le :
    (p : Ptr) (h : Heap) → owned p p ≤ count p h.blocks → (a : Ptr) → owned p a ≤ count a h.blocks
owned-le p h live a = elim (Bool-cases (p == a)) [
  | inl e ↦ let same = ==-true p a e in rw (← same) live
  | inr e ↦ ground (arith, e)
]

-- One callback.
read_cb_at-Holds :
    (nread : ℤ) (p base : Ptr) (h : Heap)
    → owned base base ≤ count base h.blocks
    → Surely {A = Ptr × Heap} (λ r. Holds base r.0 h r.1) (read_cb_at nread p base (srmalloc p h).1)
unfolding read_cb_at
read_cb_at-Holds nread p base h live =
    let g = (srmalloc p h).1 in
    elim (Bool-cases (is_neg nread || is_zero nread)) [
      | inl e ↦ rw e (
          Surely-then (Freed p g) (λ r. Holds base r.0 h r.1) (srfree p g) (λ k. some (base, k))
            (srfree-Freed p g (omega (arith, srmalloc-more p h p)))
            (λ k f. record { blocks = λ a. omega (arith, f.fewer a, srmalloc-more p h a) }))
      | inr e ↦ rw e (
          Surely-then (Freed base g) (λ r. Holds base r.0 h r.1) (srfree base g) (λ k. some (p, k))
            (srfree-Freed base g (omega (arith, srmalloc-more p h base, live)))
            (λ k f. record { blocks = λ a. omega (arith, f.fewer a, srmalloc-more p h a) }))
    ]

arrivals-Holds :
    (es : List Arrival) (base : Ptr) (h : Heap)
    → owned base base ≤ count base h.blocks
    → Surely {A = Ptr × Heap} (λ r. Holds base r.0 h r.1) (arrivals es base h)
unfolding arrivals rbuf_alloc
arrivals-Holds [] base h live = record { blocks = λ a. refl }
arrivals-Holds (e ∷ es) base h live = rw (srmalloc_result e.place h) (
    Surely-then (λ r. Holds base r.0 h r.1) (λ r. Holds base r.0 h r.1)
      (read_cb_at e.nread e.place base (srmalloc e.place h).1) (λ (b, g). arrivals es b g)
      (read_cb_at-Holds e.nread e.place base h live)
      (λ (b, g) k.
        Surely-map (λ r. Holds b r.0 g r.1) (λ r. Holds base r.0 h r.1) (arrivals es b g)
          (arrivals-Holds es b g (omega (arith, k.blocks b, owned-le base h live b)))
          (λ r l. record { blocks = λ a. omega (arith, k.blocks a, l.blocks a) })))

fdfree_at-Balanced :
    (fd base : Ptr) (h k : Heap)
    → ((a : Ptr) → count a k.blocks ≡ count a h.blocks + owned fd a + owned base a)
    → Surely (λ g. (a : Ptr) → count a g.blocks ≡ count a h.blocks) (fdfree_at fd base k)
unfolding fdfree_at
fdfree_at-Balanced fd base h k all =
    Surely-then (Freed base k) (λ g. (a : Ptr) → count a g.blocks ≡ count a h.blocks)
      (srfree base k) (srfree fd) (srfree-Freed base k (omega (arith, all base)))
      (λ g f.
        Surely-map (Freed fd g) (λ g'. (a : Ptr) → count a g'.blocks ≡ count a h.blocks)
          (srfree fd g) (srfree-Freed fd g (omega (arith, all fd, f.fewer fd)))
          (λ g' f' a. omega (arith, all a, f.fewer a, f'.fewer a)))

-- From `fdnew` to `close_cb`, whatever `read_cb` is given and wherever malloc puts the buffers, or
-- fails, no block is freed twice and none is left: the live blocks afterwards are those of before.
pub fd_life-Balanced :
    (fd : Ptr) (es : List Arrival) (h : Heap)
    → Surely (λ g. (a : Ptr) → count a g.blocks ≡ count a h.blocks) (fd_life fd es h)
unfolding fd_life fdfree_at
fd_life-Balanced fd es h = elim (Bool-cases (fd == null)) [
  | inl e ↦ rw (srmalloc_result fd h, e) (λ a. ground (arith, srmalloc-more fd h a, e))
  | inr e ↦
      let g = (srmalloc fd h).1 in
      rw (srmalloc_result fd h, e)
        (Surely-then {A = Ptr × Heap} (λ r. Holds null r.0 g r.1)
          (λ k. (a : Ptr) → count a k.blocks ≡ count a h.blocks) (arrivals es null g)
          (λ (base, k). fdfree_at fd base k) (arrivals-Holds es null g (omega arith))
          (λ (base, k) held.
            fdfree_at-Balanced fd base h k
              (λ a. omega (arith, held.blocks a, srmalloc-more fd h a))))
]
