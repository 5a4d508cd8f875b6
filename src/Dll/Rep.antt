-- ===== src/Dll/Rep.antt =====
-- What a `struct list` stands for, and how far an operation may reach.
use sherry.Base.{◌≡◌, ◌≢◌, false, List, [], arith}
use sherry.Dll.{Ptr, null, DList, Nodes, list_init}
use sherry.Dll.Chain.{has, Distinct, first, last, Chain}

-- The list `l` over the nodes of `h` holds `xs` in this order.
pub record Rep (h : Nodes) (l : DList) (xs : List Ptr) : Type 0 where
  pub head : l.head ≡ first xs null
  pub tail : l.tail ≡ last null xs
  pub chain : Chain h null xs null
  pub distinct : Distinct xs

-- `g` differs from `h` at most at the nodes of `xs` and at `item`.
abbrev pub SameOutside : List Ptr → Ptr → Nodes → Nodes → Type 0
SameOutside xs item h g = (a : Ptr) → has a xs ≡ false → a ≢ item → g a ≡ h a

pub list_init-Rep : (h : Nodes) → Rep h list_init []
unfolding list_init
list_init-Rep h = ground arith
