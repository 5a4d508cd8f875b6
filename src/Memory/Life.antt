-- ===== src/Memory/Life.antt =====
-- The blocks of the scheduler and of its actors, from `sherry_init` to `sherry_exit`: lines 318 to 320,
-- 411 to 413, 660 to 701. What happens between them is a list of the spawns and of the times that
-- `reg_actor` needs a larger array; `unreg_actor` frees nothing.
use sherry.Base.{
  ℕ, ◌+◌, ◌≤◌, ◌≡◌, ◌≢◌, false, Option, some, none, List, [], ◌∷◌, ◌==◌, if◌then◌else◌, count,
  and_then, arith,
}
use sherry.Queues.{Surely, Surely-map, Surely-then}
use sherry.Dll.{Ptr, null}
use sherry.Memory.{
  Heap, Blocks, srmalloc, srfree, srrealloc, new_actor_at, written_malloc, actor_stack, init_blocks,
  exit_blocks,
}
use sherry.Memory.Counted.{
  owned, Freed, srfree-Freed, srmalloc-more, srmalloc_result, More, written_malloc-More,
  new_actor_at-More,
}

pub data Growth : Type 0 where
  spawned : Ptr → Growth  -- `new_actor` in `sherry_spawn`, where malloc gives that address
  larger : Ptr → Growth  -- `srrealloc` in `reg_actor`, where realloc gives that address

-- `sche->actors` and the heap; `none` also where realloc fails, whose NULL `memset` writes to,
-- or malloc in `new_actor`.
unfoldable pub growths : List Growth → Ptr → Heap → Option (Ptr × Heap)
growths [] actors h = some (actors, h)
growths (spawned p ∷ es) actors h = and_then (new_actor_at p h) λ (a, g). growths es actors g
growths (larger q ∷ es) actors h =
    and_then (srrealloc actors q h) λ (r, g). if r == null then none else growths es r g

unfoldable pub whole_life : Blocks → List Growth → Heap → Option Heap
whole_life b es h = and_then (init_blocks b h) λ h'.
    and_then (growths es b.actors h') λ (actors, g). exit_blocks (record b { actors = actors }) g

-- The actors' blocks at `a`; and that malloc and realloc give addresses.
abbrev pub actors_at : List Growth → Ptr → ℕ
actors_at [] a = 0
actors_at (spawned p ∷ es) a = owned p a + actors_at es a
actors_at (larger q ∷ es) a = actors_at es a

abbrev pub Grows : List Growth → Type 0
Grows [] = Unit
Grows (spawned p ∷ es) = (p ≢ null) × Grows es
Grows (larger q ∷ es) = (q ≢ null) × Grows es

abbrev pub Given : Blocks → Type 0
Given b = (b.sche ≢ null) × (b.actors ≢ null) × (b.main ≢ null) × (b.tmpstack ≢ null)

-- The blocks that `sherry_init` leaves.
pub record Started (b : Blocks) (h g : Heap) : Type 0 where
  pub blocks :
      (a : Ptr)
      → count a g.blocks
        ≡ count a h.blocks + owned b.sche a + owned b.actors a + owned b.main a + owned b.tmpstack a

init_blocks-Started : (b : Blocks) (h : Heap) → Given b → Surely (Started b h) (init_blocks b h)
unfolding init_blocks
init_blocks-Started b h (s0, a0, m0, t0) =
    Surely-then (λ r. (r.0 ≡ b.sche) × More b.sche h r.1) (Started b h) (written_malloc b.sche h) _
      (written_malloc-More b.sche h s0)
      (λ s (e1, k).
        Surely-then (λ r. (r.0 ≡ b.actors) × More b.actors s.1 r.1) (Started b h)
          (written_malloc b.actors s.1) _ (written_malloc-More b.actors s.1 a0)
          (λ a (e2, k').
            Surely-then (λ r. (actor_stack r.0 ≡ b.main) × More b.main a.1 r.1) (Started b h)
              (new_actor_at b.main a.1) _ (new_actor_at-More b.main a.1 m0)
              (λ m (e3, l).
                Surely-then (λ r. (r.0 ≡ b.tmpstack) × More b.tmpstack m.1 r.1) (Started b h)
                  (written_malloc b.tmpstack m.1) _ (written_malloc-More b.tmpstack m.1 t0)
                  (λ t (e4, l'). record {
                    blocks = λ x. omega (arith, k.more x, k'.more x, l.more x, l'.more x);
                  }))))

-- The array moves; all else that is live stays, and the actors' blocks join it.
pub record Grown (es : List Growth) (old new : Ptr) (h g : Heap) : Type 0 where
  pub blocks :
      (a : Ptr) → count a g.blocks + owned old a ≡ count a h.blocks + owned new a + actors_at es a

-- A block of realloc in place of the old one.
srrealloc-Grown :
    (actors q : Ptr) (h : Heap)
    → q ≢ null
    → ((a : Ptr) → owned actors a ≤ count a h.blocks)
    → Surely {A = Ptr × Heap} (λ r. (r.0 ≡ q) × Grown [] actors q h r.1) (srrealloc actors q h)
unfolding srrealloc
srrealloc-Grown actors q h ne live =
    let real : (q == null) ≡ false = ground (arith, ne) in
    rw real (
      Surely-then (Freed actors h) (λ r. (r.0 ≡ q) × Grown [] actors q h r.1) (srfree actors h)
        (λ g. some (srmalloc q g)) (srfree-Freed actors h (live actors))
        (λ g f. (
          srmalloc_result q g,
          record { blocks = λ a. omega (arith, f.fewer a, srmalloc-more q g a) },
        )))

growths-Grown :
    (es : List Growth) (actors : Ptr) (h : Heap)
    → Grows es
    → ((a : Ptr) → owned actors a ≤ count a h.blocks)
    → Surely {A = Ptr × Heap} (λ r. Grown es actors r.0 h r.1) (growths es actors h)
unfolding growths
growths-Grown [] actors h ok live = record { blocks = λ a. omega arith }
growths-Grown (spawned p ∷ es) actors h ok live =
    Surely-then (λ r. (actor_stack r.0 ≡ p) × More p h r.1)
      (λ r. Grown (spawned p ∷ es) actors r.0 h r.1) (new_actor_at p h)
      (λ (a, g). growths es actors g) (new_actor_at-More p h ok.0)
      (λ (a, g) (e, m).
        Surely-map (λ r. Grown es actors r.0 g r.1) (λ r. Grown (spawned p ∷ es) actors r.0 h r.1)
          (growths es actors g)
          (growths-Grown es actors g ok.1 (λ x. omega (arith, live x, m.more x)))
          (λ r k. record { blocks = λ x. omega (arith, k.blocks x, m.more x) }))
growths-Grown (larger q ∷ es) actors h ok live =
    Surely-then (λ r. (r.0 ≡ q) × Grown [] actors q h r.1)
      (λ r. Grown (larger q ∷ es) actors r.0 h r.1) (srrealloc actors q h)
      (λ (r, g). if r == null then none else growths es r g) (srrealloc-Grown actors q h ok.0 live)
      (λ (r, g) (e, k).
        let real : (q == null) ≡ false = ground (arith, ok.0) in
        rw (e, real)
          (Surely-map (λ t. Grown es q t.0 g t.1) (λ t. Grown (larger q ∷ es) actors t.0 h t.1)
            (growths es q g) (growths-Grown es q g ok.1 (λ a. omega (arith, k.blocks a, live a)))
            (λ t l. record { blocks = λ a. omega (arith, k.blocks a, l.blocks a) })))

exit_blocks-Left :
    (b : Blocks) (left : Ptr → ℕ) (g : Heap)
    → ((a : Ptr)
        → count a g.blocks ≡ left a + owned b.actors a + owned b.tmpstack a + owned b.sche a)
    → Surely (λ k. (a : Ptr) → count a k.blocks ≡ left a) (exit_blocks b g)
unfolding exit_blocks
exit_blocks-Left b left g all =
    Surely-then (Freed b.actors g) (λ k. (a : Ptr) → count a k.blocks ≡ left a) (srfree b.actors g)
      (λ g'. and_then (srfree b.tmpstack g') (srfree b.sche))
      (srfree-Freed b.actors g (omega (arith, all b.actors)))
      (λ g' f.
        Surely-then (Freed b.tmpstack g') (λ k. (a : Ptr) → count a k.blocks ≡ left a)
          (srfree b.tmpstack g') (srfree b.sche)
          (srfree-Freed b.tmpstack g' (omega (arith, all b.tmpstack, f.fewer b.tmpstack)))
          (λ g'' f'.
            Surely-map (Freed b.sche g'') (λ k. (a : Ptr) → count a k.blocks ≡ left a)
              (srfree b.sche g'')
              (srfree-Freed b.sche g'' (omega (arith, all b.sche, f.fewer b.sche, f'.fewer b.sche)))
              (λ k f'' a. omega (arith, all a, f.fewer a, f'.fewer a, f''.fewer a))))

-- Where malloc and realloc give addresses: from `sherry_init` to `sherry_exit`, with any spawns and
-- larger arrays between them, no block is freed twice, and what is live afterwards is what was live
-- before and the block of `main` and of every actor that was spawned.
pub whole_life-Left :
    (b : Blocks) (es : List Growth) (h : Heap)
    → Given b
    → Grows es
    → Surely
        (λ g. (a : Ptr) → count a g.blocks ≡ count a h.blocks + owned b.main a + actors_at es a)
        (whole_life b es h)
unfolding whole_life
whole_life-Left b es h given ok =
    let left : Ptr → ℕ = λ a. count a h.blocks + owned b.main a + actors_at es a in
    let Result : Heap → Type 0 = λ g. (a : Ptr) → count a g.blocks ≡ left a in
    Surely-then (Started b h) Result (init_blocks b h) _ (init_blocks-Started b h given) (λ h' s.
      Surely-then (λ r. Grown es b.actors r.0 h' r.1) Result (growths es b.actors h')
        (λ (actors, g). exit_blocks (record b { actors = actors }) g)
        (growths-Grown es b.actors h' ok (λ a. omega (arith, s.blocks a)))
        (λ (actors, g) k.
          exit_blocks-Left (record b { actors = actors }) left g
            (λ a. omega (arith, k.blocks a, s.blocks a))))
