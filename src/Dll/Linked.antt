-- ===== src/Dll/Linked.antt =====
-- What the writes of `list_insert` amount to, whatever the list.
use sherry.Base.{◌≡◌, ◌≢◌, Option, none, some, arith, ◌==◌, if◌then◌else◌, ne-==, ◌||◌}
use sherry.Dll.{Ptr, null, DList, Nodes, list_insert}

-- `g` is `h` with `item` linked in between `p` and `n`, either of which may be NULL.
pub record Linked (h g : Nodes) (p item n : Ptr) : Type 0 where
  pub self_prev : (g item).prev ≡ p
  pub self_next : (g item).next ≡ n
  pub before_next : p ≢ null → (g p).next ≡ item
  pub before_prev : p ≢ null → (g p).prev ≡ (h p).prev
  pub after_prev : n ≢ null → (g n).prev ≡ item
  pub after_next : n ≢ null → (g n).next ≡ (h n).next
  pub rest : (a : Ptr) → a ≢ item → (a ≡ p → p ≡ null) → (a ≡ n → n ≡ null) → g a ≡ h a

-- The operation ends without a fault, in a list and nodes with the property `P`.
abbrev pub Ensures : (DList → Nodes → Type 0) → Option (DList × Nodes) → Type 0
Ensures P none = ⊥
Ensures P (some (l, g)) = P l g

-- The head that `list_insert` leaves, and the tail.
abbrev pub new_head : DList → (item it : Ptr) → Ptr
new_head l item it = if l.head == null || l.head == it then item else l.head

abbrev pub new_tail : DList → (item it : Ptr) → Ptr
new_tail l item it = if it == null then item else l.tail

pub list_insert-Linked :
    (l : DList) (p item it : Ptr) (h : Nodes)
    → p ≡ (if it == null then l.tail else (h it).prev)
    → item ≢ null
    → p ≢ item
    → it ≢ item
    → (p ≢ null → p ≢ it)
    → Ensures
        (λ l' g.
          Linked h g p item it × (l'.head ≡ new_head l item it) × (l'.tail ≡ new_tail l item it))
        (list_insert l item it h)
unfolding list_insert
list_insert-Linked l p item it h e ne np ni apart = rw (ne-== item null ne) (
  record {
    self_prev = ground arith;
    self_next = ground arith;
    before_next = ground arith;
    before_prev = ground arith;
    after_prev = ground arith;
    after_next = ground arith;
    rest = ground arith;
  },
  ground arith,
  ground arith,
)
