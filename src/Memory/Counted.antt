-- ===== src/Memory/Counted.antt =====
-- What malloc and free do to the number of live blocks at an address.
use sherry.Base.{
  some, ◌∷◌, ℕ, ◌+◌, ◌≤◌, ◌≡◌, refl, ◌≢◌, false, ◌==◌, if◌then◌else◌, to_nat, count, count-cons,
  count-erase, arith, Bool-cases, inl, inr,
}
use sherry.Queues.{Surely}
use sherry.Dll.{Ptr, null}
use sherry.Memory.{Heap, srmalloc, srfree, get_cont, new_actor_at, written_malloc, actor_stack}

-- The blocks at `q` that a pointer owns: none if it is NULL.
abbrev pub owned : Ptr → Ptr → ℕ
owned p q = if p == null then 0 else to_nat (p == q)

-- The heap after a free of `p`.
pub record Freed (p : Ptr) (h g : Heap) : Type 0 where
  pub fewer : (q : Ptr) → count q g.blocks + owned p q ≡ count q h.blocks
  pub strings : g.strings ≡ h.strings
  pub nodes : g.nodes ≡ h.nodes
  pub msg : g.msg ≡ h.msg

-- A live block, or NULL, is freed without a fault.
pub srfree-Freed :
    (p : Ptr) (h : Heap) → owned p p ≤ count p h.blocks → Surely (Freed p h) (srfree p h)
unfolding srfree
srfree-Freed p h live = elim (Bool-cases (p == null)) [
  | inl e ↦
      rw e (record { fewer = λ q. ground (arith, e); strings = refl; nodes = refl; msg = refl })
  | inr e ↦
      let some_block : (count p h.blocks == 0) ≡ false = ground (arith, live, e) in
      rw (e, some_block)
        (record {
          fewer = λ q. ground (arith, count-erase q p h.blocks, live, e);
          strings = refl;
          nodes = refl;
          msg = refl;
        })
]

pub srmalloc_result : (p : Ptr) (h : Heap) → (srmalloc p h).0 ≡ p
unfolding srmalloc
srmalloc_result p h = ground arith

pub srmalloc-more :
    (p : Ptr) (h : Heap) (q : Ptr) → count q (srmalloc p h).1.blocks ≡ count q h.blocks + owned p q
unfolding srmalloc
srmalloc-more p h q = ground (arith, count-cons q p h.blocks)

-- From a member back to its structure, and from an actor back to its block.
pub get_cont-member : (p offset : ℕ) → p ≢ null → get_cont (p + offset) offset ≡ p
unfolding get_cont
get_cont-member p offset ne = ground arith

-- Where malloc gives an address, the block there is live besides those of before.
pub written_malloc-some :
    (p : Ptr) (h : Heap)
    → p ≢ null
    → written_malloc p h ≡ some (p, record h { blocks = p ∷ h.blocks })
unfolding written_malloc srmalloc
written_malloc-some p h ne =
    let real : (p == null) ≡ false = ground (arith, ne) in rw (real, real) refl

-- A block that is taken stands besides those of before.
pub record More (p : Ptr) (h g : Heap) : Type 0 where
  pub more : (a : Ptr) → count a g.blocks ≡ count a h.blocks + owned p a

pub written_malloc-More :
    (p : Ptr) (h : Heap)
    → p ≢ null
    → Surely {A = Ptr × Heap} (λ r. (r.0 ≡ p) × More p h r.1) (written_malloc p h)
written_malloc-More p h ne =
    rw (written_malloc-some p h ne)
      (refl, record { more = λ a. ground (arith, count-cons a p h.blocks, ne) })

pub new_actor_at-More :
    (p : Ptr) (h : Heap)
    → p ≢ null
    → Surely {A = Ptr × Heap} (λ r. (actor_stack r.0 ≡ p) × More p h r.1) (new_actor_at p h)
unfolding new_actor_at actor_stack
new_actor_at-More p h ne =
    rw (written_malloc-some p h ne)
      (omega arith, record { more = λ a. ground (arith, count-cons a p h.blocks, ne) })

pub get_cont-null : (offset : ℕ) → get_cont null offset ≡ null
unfolding get_cont
get_cont-null offset = refl
