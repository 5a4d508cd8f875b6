-- ===== src/Dll/Chain.antt =====
-- Chains of nodes: what `prev` and `next` hold along a list, and how a chain survives a change.
use sherry.Base.{◌≡◌, refl, ◌≢◌, Bool, true, false, ◌||◌, List, [], ◌∷◌, ◌++◌, arith, ◌==◌, ◌∙◌}
use sherry.Dll.{Ptr, null, Nodes}

-- Is the node among these?
abbrev pub has : Ptr → List Ptr → Bool
has a [] = false
has a (x ∷ xs) = (x == a) || has a xs

-- No node stands twice.
abbrev pub Distinct : List Ptr → Type 0
Distinct [] = Unit {0}
Distinct (x ∷ xs) = (has x xs ≡ false) × Distinct xs

-- The first node, or what follows the empty list.
abbrev pub first : List Ptr → Ptr → Ptr
first [] n = n
first (x ∷ xs) n = x

-- The last node, or what precedes the empty list.
abbrev pub last : Ptr → List Ptr → Ptr
last p [] = p
last p (x ∷ xs) = last x xs

-- From `p` the pointers lead through the nodes `xs` to `n`, forwards and backwards.
abbrev pub Chain : Nodes → Ptr → List Ptr → Ptr → Type 0
Chain h p [] n = Unit {0}
Chain h p (x ∷ xs) n = (x ≢ null) × ((h x).prev ≡ p) × ((h x).next ≡ first xs n) × Chain h x xs n

pub has-append : (a : Ptr) (xs ys : List Ptr) → has a (xs ++ ys) ≡ (has a xs || has a ys)
has-append a [] ys = refl
has-append a (x ∷ xs) ys = ground (arith, has-append a xs ys)

-- A chain depends on its own nodes alone.
pub Chain-frame :
    {h g : Nodes} (p : Ptr) (xs : List Ptr) (n : Ptr)
    → Chain h p xs n
    → ((a : Ptr) → has a xs ≡ true → g a ≡ h a)
    → Chain g p xs n
Chain-frame p [] n c same = tt
Chain-frame p (x ∷ xs) n c same = (
  c.0,
  ground (arith, same x),
  ground (arith, same x),
  Chain-frame x xs n c.3 λ a i. same a (ground arith),
)

pub Chain-append :
    (h : Nodes) (p : Ptr) (xs ys : List Ptr) (n : Ptr)
    → Chain h p xs (first ys n)
    → Chain h (last p xs) ys n
    → Chain h p (xs ++ ys) n
Chain-append h p [] ys n c d = d
Chain-append h p (x ∷ []) ys n c d = (c.0, c.1, c.2, d)
Chain-append h p (x ∷ y ∷ xs) ys n c d = (c.0, c.1, c.2, Chain-append h x (y ∷ xs) ys n c.3 d)

pub Chain-split :
    (h : Nodes) (p : Ptr) (xs ys : List Ptr) (n : Ptr)
    → Chain h p (xs ++ ys) n
    → Chain h p xs (first ys n) × Chain h (last p xs) ys n
Chain-split h p [] ys n c = (tt, c)
Chain-split h p (x ∷ []) ys n c = ((c.0, c.1, c.2, tt), c.3)
Chain-split h p (x ∷ y ∷ xs) ys n c =
    let rest = Chain-split h x (y ∷ xs) ys n c.3 in ((c.0, c.1, c.2, rest.0), rest.1)

-- The last node of a chain is one of its nodes.
pub has-last : (x : Ptr) (xs : List Ptr) → has (last x xs) (x ∷ xs) ≡ true
has-last x [] = ground arith
has-last x (y ∷ xs) = ground (arith, has-last y xs)

pub has-first : (x : Ptr) (xs : List Ptr) → has x (x ∷ xs) ≡ true
has-first x xs = ground arith

-- A new end: only the `next` of the last node changes.
pub Chain-new_end :
    {h g : Nodes} (p : Ptr) (xs : List Ptr) (n m : Ptr)
    → Distinct xs
    → Chain h p xs n
    → ((a : Ptr) → has a xs ≡ true → a ≢ last p xs → g a ≡ h a)
    → (has (last p xs) xs ≡ true → (g (last p xs)).next ≡ m)
    → (has (last p xs) xs ≡ true → (g (last p xs)).prev ≡ (h (last p xs)).prev)
    → Chain g p xs m
Chain-new_end p [] n m d c same e f = tt
Chain-new_end p (x ∷ []) n m d c same e f = (c.0, f (has-first x []) ∙ c.1, e (has-first x []), tt)
Chain-new_end {h} {g} p (x ∷ y ∷ xs) n m d c same e f = (
  c.0,
  ground (arith, x_same),
  ground (arith, x_same),
  Chain-new_end x (y ∷ xs) n m d.1 c.3 (λ a i ne. same a (ground arith) ne) (λ i. e (ground arith))
      λ i. f (ground arith),
)
  where
    x_same : g x ≡ h x
    x_same = same x (ground arith) λ q. ground (arith, has-last y xs)

-- A new start: only the `prev` of the first node changes.
pub Chain-new_front :
    (h g : Nodes) (p q : Ptr) (xs : List Ptr)
    → Distinct xs
    → Chain h p xs null
    → ((a : Ptr) → has a xs ≡ true → a ≢ first xs null → g a ≡ h a)
    → (has (first xs null) xs ≡ true → (g (first xs null)).prev ≡ q)
    → (has (first xs null) xs ≡ true → (g (first xs null)).next ≡ (h (first xs null)).next)
    → Chain g q xs null
Chain-new_front h g p q [] d c same e f = tt
Chain-new_front h g p q (x ∷ xs) d c same e f = (
  c.0,
  e (has-first x xs),
  f (has-first x xs) ∙ c.2,
  Chain-frame x xs null c.3 λ a i. same a (ground arith) (ground arith),
)

-- A real last node is one of the nodes.
pub last-mem : (p : Ptr) (xs : List Ptr) → last p xs ≢ p → has (last p xs) xs ≡ true
last-mem p [] ne = absurd (ne refl)
last-mem p (x ∷ xs) ne = has-last x xs

pub last-append : (p : Ptr) (xs ys : List Ptr) → last p (xs ++ ys) ≡ last (last p xs) ys
last-append p [] ys = refl
last-append p (x ∷ xs) ys = last-append x xs ys

-- Two lists of nodes share none.
abbrev pub Apart : List Ptr → List Ptr → Type 0
Apart xs ys = (a : Ptr) → has a xs ≡ true → has a ys ≡ false

pub Distinct-split :
    (xs ys : List Ptr) → Distinct (xs ++ ys) → Distinct xs × Distinct ys × Apart xs ys
Distinct-split [] ys d = (tt, d, λ a i. cc)
Distinct-split (x ∷ xs) ys d =
    let rest = Distinct-split xs ys d.1 in
    (
      (ground (arith, has-append x xs ys), rest.0),
      rest.1,
      λ a i. ground (arith, has-append x xs ys, rest.2 a),
    )

pub Distinct-append :
    (xs ys : List Ptr) → Distinct xs → Distinct ys → Apart xs ys → Distinct (xs ++ ys)
Distinct-append [] ys d e apart = e
Distinct-append (x ∷ xs) ys d e apart = (
  ground (arith, has-append x xs ys, apart x),
  Distinct-append xs ys d.1 e λ a i. apart a (ground arith),
)

-- The nodes of a chain are no NULL.
pub Chain-not_null :
    (h : Nodes) (p : Ptr) (xs : List Ptr) (n : Ptr) → Chain h p xs n → has null xs ≡ false
Chain-not_null h p [] n c = refl
Chain-not_null h p (x ∷ xs) n c = ground (arith, Chain-not_null h x xs n c.3)

pub first-mem : (xs : List Ptr) (n : Ptr) → first xs n ≢ n → has (first xs n) xs ≡ true
first-mem [] n ne = absurd (ne refl)
first-mem (x ∷ xs) n ne = ground arith

pub first-append : (xs ys : List Ptr) (n : Ptr) → first (xs ++ ys) n ≡ first xs (first ys n)
first-append [] ys n = refl
first-append (x ∷ xs) ys n = refl
