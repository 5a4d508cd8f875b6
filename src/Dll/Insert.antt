-- ===== src/Dll/Insert.antt =====
-- `list_insert` puts the node where it should stand.
use sherry.Base.{
  ◌≡◌, sym, ◌∙◌, ◌≢◌, Bool, true, false, ◌||◌, List, [], ◌∷◌, ◌++◌, Option, none, some, arith, ◌==◌,
  if◌then◌else◌, append-nil,
}
use sherry.Dll.{Ptr, null, DList, Nodes, list_insert}
use sherry.Dll.Chain.{
  has, Distinct, Apart, first, last, Chain, has-append, Chain-append, Chain-split, last-mem,
  last-append, Distinct-split, Distinct-append, Chain-not_null, Chain-new_end, Chain-new_front,
  first-mem,
}
use sherry.Dll.Rep.{Rep, SameOutside}
use sherry.Dll.Linked.{Linked, Ensures, new_head, new_tail, list_insert-Linked}

-- In a chain, the node before `ys` is what the first of them points back to, or the tail.
prev_found :
    (h : Nodes) (tail : Ptr) (xs ys : List Ptr)
    → tail ≡ last null (xs ++ ys)
    → Chain h (last null xs) ys null
    → last null xs ≡ (if first ys null == null then tail else (h (first ys null)).prev)
prev_found h tail xs [] e c = rw (append-nil xs) at (sym e)
prev_found h tail xs (y ∷ ys) e c = ground arith

new_head-first :
    (l : DList) (xs : List Ptr) (item : Ptr) (ys : List Ptr)
    → l.head ≡ first (xs ++ ys) null
    → has null xs ≡ false
    → (has (first xs null) xs ≡ true → first xs null ≢ first ys null)
    → new_head l item (first ys null) ≡ first (xs ++ item ∷ ys) null
new_head-first l [] item ys e nn ne = ground arith
new_head-first l (x ∷ xs) item ys e nn ne = ground arith

new_tail-last :
    (l : DList) (xs : List Ptr) (item : Ptr) (ys : List Ptr)
    → l.tail ≡ last null (xs ++ ys)
    → has null ys ≡ false
    → new_tail l item (first ys null) ≡ last null (xs ++ item ∷ ys)
new_tail-last l xs item [] e nn = sym (last-append null xs (item ∷ []))
new_tail-last l xs item (y ∷ ys) e nn =
    ground (arith, last-append null xs (y ∷ ys), last-append null xs (item ∷ y ∷ ys))

-- The situation of an insertion: a list `xs ++ ys`, and a node that is not in it.
record Gap (h : Nodes) (l : DList) (xs : List Ptr) (item : Ptr) (ys : List Ptr) : Type 0 where
  rep : Rep h l (xs ++ ys)
  outside : has item (xs ++ ys) ≡ false
  ne_null : item ≢ null

module _ (h : Nodes) (l : DList) (xs : List Ptr) (item : Ptr) (ys : List Ptr)
    (gap : Gap h l xs item ys) where
  open gap use {rep, outside, ne_null}

  abbrev p : Ptr
  p = last null xs

  abbrev it : Ptr
  it = first ys null

  parts : Chain h null xs it × Chain h p ys null
  parts = Chain-split h null xs ys null rep.chain

  apart : Distinct xs × Distinct ys × Apart xs ys
  apart = Distinct-split xs ys rep.distinct

  abbrev outside_both : Bool
  outside_both = has item xs || has item ys

  outside-parts : outside_both ≡ false
  outside-parts = ground (arith, has-append item xs ys)

  p-mem : p ≢ null → has p xs ≡ true
  p-mem = last-mem null xs

  it-mem : it ≢ null → has it ys ≡ true
  it-mem = first-mem ys null

  no_null : (has null xs || has null ys) ≡ false
  no_null = ground (arith, has-append null xs ys, Chain-not_null h null (xs ++ ys) null rep.chain)

  -- Where the pieces stand apart.
  p-ne-item : p ≢ item
  p-ne-item e = ground (arith, outside-parts, p-mem)

  it-ne-item : it ≢ item
  it-ne-item e = ground (arith, outside-parts, it-mem)

  p-ne-it : p ≢ null → p ≢ it
  p-ne-it ne e = ground (arith, p-mem, it-mem, apart.2 p)

  -- The code finds the node before the gap.
  p-found : p ≡ (if it == null then l.tail else (h it).prev)
  p-found = prev_found h l.tail xs ys rep.tail parts.1

  module _ (g : Nodes) (k : Linked h g p item it) where
    Chain-front : Chain g null xs item
    Chain-front =
        Chain-new_end null xs it item apart.0 parts.0
          (λ a i ne.
            k.rest a (λ e. ground (arith, outside-parts)) (λ e. absurd (ne e))
              λ e. ground (arith, it-mem, apart.2 a, no_null))
          (λ i. k.before_next (λ e. ground (arith, no_null)))
          λ i. k.before_prev (λ e. ground (arith, no_null))

    Chain-back : Chain g item ys null
    Chain-back =
        Chain-new_front h g p item ys apart.1 parts.1
          (λ a i ne.
            k.rest a (λ e. ground (arith, outside-parts))
              (λ e. ground (arith, p-mem, apart.2 a, no_null)) λ e. absurd (ne e))
          (λ i. k.after_prev (λ e. ground (arith, no_null)))
          λ i. k.after_next (λ e. ground (arith, no_null))

    Chain-after : Chain g null (xs ++ item ∷ ys) null
    Chain-after =
        Chain-append g null xs (item ∷ ys) null Chain-front
          (ne_null, k.self_prev, k.self_next, Chain-back)

    same_outside : SameOutside (xs ++ ys) item h g
    same_outside a out ne =
        k.rest a ne (λ e. ground (arith, p-mem, has-append a xs ys))
          λ e. ground (arith, it-mem, has-append a xs ys)

  -- The head and the tail of the longer list.
  head_found : new_head l item it ≡ first (xs ++ item ∷ ys) null
  head_found =
      new_head-first l xs item ys rep.head (ground (arith, no_null))
        λ i e. ground (arith, it-mem, apart.2 (first xs null), no_null)

  tail_found : new_tail l item it ≡ last null (xs ++ item ∷ ys)
  tail_found = new_tail-last l xs item ys rep.tail (ground (arith, no_null))

  Distinct-after : Distinct (xs ++ item ∷ ys)
  Distinct-after =
      Distinct-append xs (item ∷ ys) apart.0 (ground (arith, outside-parts), apart.1)
        λ a i. ground (arith, outside-parts, apart.2 a)

-- What `list_insert` leaves: the longer list, and every other node as it was.
abbrev pub Inserted : Nodes → List Ptr → Ptr → List Ptr → DList → Nodes → Type 0
Inserted h xs item ys l g = Rep g l (xs ++ item ∷ ys) × SameOutside (xs ++ ys) item h g

pub Ensures-mono :
    {P Q : DList → Nodes → Type 0} (r : Option (DList × Nodes))
    → ((l : DList) (g : Nodes) → P l g → Q l g)
    → Ensures P r
    → Ensures Q r
Ensures-mono none f p = absurd p
Ensures-mono (some (l, g)) f p = f l g p

-- Inserting a node that is not in the list before the first node of `ys`, or at the end where `ys`
-- is empty, ends without a fault, gives the list with the node at that place, linked both ways, and
-- changes no node outside the list.
pub list_insert-Inserted :
    (h : Nodes) (l : DList) (xs : List Ptr) (item : Ptr) (ys : List Ptr)
    → Rep h l (xs ++ ys)
    → has item (xs ++ ys) ≡ false
    → item ≢ null
    → Ensures (Inserted h xs item ys) (list_insert l item (first ys null) h)
list_insert-Inserted h l xs item ys rep outside ne =
    let gap : Gap h l xs item ys = record { rep = rep; outside = outside; ne_null = ne } in
    Ensures-mono (list_insert l item (first ys null) h)
      (λ l' g (k, e, f). (
        record {
          head = e ∙ head_found h l xs item ys gap;
          tail = f ∙ tail_found h l xs item ys gap;
          chain = Chain-after h l xs item ys gap g k;
          distinct = Distinct-after h l xs item ys gap;
        },
        same_outside h l xs item ys gap g k,
      ))
      (list_insert-Linked l (last null xs) item (first ys null) h (p-found h l xs item ys gap) ne
        (p-ne-item h l xs item ys gap) (it-ne-item h l xs item ys gap) (p-ne-it h l xs item ys gap))
