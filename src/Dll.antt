-- ===== src/Dll.antt =====
-- The intrusive doubly linked list of sherry.c, lines 43 to 128, over an explicit memory of nodes.
pub mod Chain
pub mod Rep
pub mod Linked
pub mod Insert
pub mod Unlinked
pub mod Erase
pub mod Queue
mod Tests
use sherry.Base.{ℕ, Bool, Option, none, some, ◌==◌, if◌then◌else◌, ◌||◌}

-- `struct list_node *`; NULL is 0.
abbrev pub Ptr : Type 0
Ptr = ℕ

abbrev pub null : Ptr
null = 0

-- `struct list_node`
pub record ListNode : Type 0 where
  pub prev : Ptr
  pub next : Ptr

-- `struct list`; it stands outside the memory of nodes.
pub record DList : Type 0 where
  pub head : Ptr
  pub tail : Ptr

-- What each address holds. A list touches only the nodes that it is given.
abbrev pub Nodes : Type 0
Nodes = Ptr → ListNode

abbrev pub update : Nodes → Ptr → ListNode → Nodes
update h p n a = if a == p then n else h a

-- `p->prev = q` and `p->next = q`
abbrev pub set_prev : Nodes → Ptr → Ptr → Nodes
set_prev h p q = update h p (record { prev = q; next = (h p).next })

abbrev pub set_next : Nodes → Ptr → Ptr → Nodes
set_next h p q = update h p (record { prev = (h p).prev; next = q })

-- `if (p) p->next = q` and `if (p) p->prev = q`
abbrev pub set_next_if : Nodes → Ptr → Ptr → Nodes
set_next_if h p q = if p == null then h else set_next h p q

abbrev pub set_prev_if : Nodes → Ptr → Ptr → Nodes
set_prev_if h p q = if p == null then h else set_prev h p q

abbrev pub list_empty : DList → Bool
list_empty l = l.head == null

abbrev pub list_begin : DList → Ptr
list_begin l = l.head

abbrev pub list_next : Nodes → Ptr → Ptr
list_next h it = (h it).next

unfoldable pub list_init : DList
list_init = record { head = null; tail = null }

-- Insert `item` before `it`, at the end where `it` is NULL. `none` is the fault of a NULL `item`.
pub list_insert : DList → (item it : Ptr) → Nodes → Option (DList × Nodes)
list_insert self item it h =
    if item == null
    then none
    else let h1 = set_prev h item (if it == null then self.tail else (h it).prev) in
      let h2 = set_next h1 item it in
      let h3 = set_next_if h2 (h2 item).prev item in
      let h4 = set_prev_if h3 (h3 item).next item in
      let self1 =
        if self.head == null || self.head == it then record self { head = item } else self in
      let self2 = if it == null then record self1 { tail = item } else self1 in some (self2, h4)

-- Unlink `item`, reset its two pointers, and return the node that followed it.
pub list_erase : DList → (item : Ptr) → Nodes → Option (Ptr × DList × Nodes)
list_erase self item h =
    if item == null
    then none
    else let h1 = set_next_if h (h item).prev (h item).next in
      let self1 = if (h item).prev == null then record self { head = (h item).next } else self in
      let h2 = set_prev_if h1 (h1 item).next (h1 item).prev in
      let self2 =
        if (h1 item).next == null then record self1 { tail = (h1 item).prev } else self1 in
      let next = (h2 item).next in
      let h3 = set_prev h2 item null in let h4 = set_next h3 item null in some (next, self2, h4)

pub list_enqueue : DList → (node : Ptr) → Nodes → Option (DList × Nodes)
list_enqueue q node h = list_insert q node null h

-- `return node`, after a call whose own result is dropped.
abbrev pub return_node : Ptr → Option (Ptr × DList × Nodes) → Option (Ptr × DList × Nodes)
return_node node none = none
return_node node (some (_, q, h)) = some (node, q, h)

-- The first node, NULL on an empty list.
pub list_dequeue : DList → Nodes → Option (Ptr × DList × Nodes)
list_dequeue q h =
    let node = list_begin q in
    if node == null then some (null, q, h) else return_node node (list_erase q node h)
