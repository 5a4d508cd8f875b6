-- ===== src/Dll/Unlinked.antt =====
-- What the writes of `list_erase` amount to, whatever the list.
use sherry.Base.{◌≡◌, ◌≢◌, Option, none, some, arith, ◌==◌, if◌then◌else◌, ne-==}
use sherry.Dll.{Ptr, null, DList, Nodes, list_erase}

-- `g` is `h` with `item` taken out from between `p` and `n`, either of which may be NULL.
pub record Unlinked (h g : Nodes) (p item n : Ptr) : Type 0 where
  pub reset : g item ≡ record { prev = null; next = null }
  pub before_next : p ≢ null → (g p).next ≡ n
  pub before_prev : p ≢ null → (g p).prev ≡ (h p).prev
  pub after_prev : n ≢ null → (g n).prev ≡ p
  pub after_next : n ≢ null → (g n).next ≡ (h n).next
  pub rest : (a : Ptr) → a ≢ item → (a ≡ p → p ≡ null) → (a ≡ n → n ≡ null) → g a ≡ h a

-- The operation ends without a fault, and what it returns has the property `P`.
abbrev pub Returns : (Ptr → DList → Nodes → Type 0) → Option (Ptr × DList × Nodes) → Type 0
Returns P none = ⊥
Returns P (some (r, l, g)) = P r l g

pub Returns-mono :
    {P Q : Ptr → DList → Nodes → Type 0} (r : Option (Ptr × DList × Nodes))
    → ((a : Ptr) (l : DList) (g : Nodes) → P a l g → Q a l g)
    → Returns P r
    → Returns Q r
Returns-mono none f p = absurd p
Returns-mono (some (a, l, g)) f p = f a l g p

-- The head and the tail that `list_erase` leaves.
abbrev pub cut_head : DList → (p n : Ptr) → Ptr
cut_head l p n = if p == null then n else l.head

abbrev pub cut_tail : DList → (p n : Ptr) → Ptr
cut_tail l p n = if n == null then p else l.tail

pub list_erase-Unlinked :
    (l : DList) (p item n : Ptr) (h : Nodes)
    → (h item).prev ≡ p
    → (h item).next ≡ n
    → item ≢ null
    → p ≢ item
    → n ≢ item
    → (p ≢ null → p ≢ n)
    → Returns
        (λ r l' g.
          (r ≡ n) × Unlinked h g p item n × (l'.head ≡ cut_head l p n) × (l'.tail ≡ cut_tail l p n))
        (list_erase l item h)
unfolding list_erase
list_erase-Unlinked l p item n h ep en ne np nn apart = rw (ne-== item null ne) (
  ground arith,
  record {
    reset = ground arith;
    before_next = ground arith;
    before_prev = ground arith;
    after_prev = ground arith;
    after_next = ground arith;
    rest = ground arith;
  },
  ground arith,
  ground arith,
)
