-- ===== src/Dll/Erase.antt =====
-- `list_erase` takes out the node, and nothing else.
use sherry.Base.{◌≡◌, ◌∙◌, ◌≢◌, true, false, ◌||◌, List, [], ◌∷◌, ◌++◌, arith}
use sherry.Dll.{Ptr, null, DList, Nodes, list_erase}
use sherry.Dll.Chain.{
  has, Distinct, Apart, first, last, Chain, has-append, Chain-append, Chain-split, last-mem,
  last-append, first-mem, has-last, Distinct-split, Distinct-append, Chain-not_null, Chain-new_end,
  Chain-new_front,
}
use sherry.Dll.Rep.{Rep, SameOutside}
use sherry.Dll.Unlinked.{Unlinked, Returns, Returns-mono, cut_head, cut_tail, list_erase-Unlinked}

cut_head-first :
    (l : DList) (xs : List Ptr) (item : Ptr) (ys : List Ptr)
    → l.head ≡ first (xs ++ item ∷ ys) null
    → has null xs ≡ false
    → cut_head l (last null xs) (first ys null) ≡ first (xs ++ ys) null
cut_head-first l [] item ys e nn = ground arith
cut_head-first l (x ∷ xs) item ys e nn = ground (arith, has-last x xs)

cut_tail-last :
    (l : DList) (xs : List Ptr) (item : Ptr) (ys : List Ptr)
    → l.tail ≡ last null (xs ++ item ∷ ys)
    → has null ys ≡ false
    → cut_tail l (last null xs) (first ys null) ≡ last null (xs ++ ys)
cut_tail-last l xs item [] e nn = ground (arith, last-append null xs [])
cut_tail-last l xs item (y ∷ ys) e nn =
    ground (arith, last-append null xs (y ∷ ys), last-append null xs (item ∷ y ∷ ys))

module _ (h : Nodes) (l : DList) (xs : List Ptr) (item : Ptr) (ys : List Ptr)
    (rep : Rep h l (xs ++ item ∷ ys)) where
  abbrev p : Ptr
  p = last null xs

  abbrev n : Ptr
  n = first ys null

  parts : Chain h null xs item × Chain h p (item ∷ ys) null
  parts = Chain-split h null xs (item ∷ ys) null rep.chain

  apart : Distinct xs × Distinct (item ∷ ys) × Apart xs (item ∷ ys)
  apart = Distinct-split xs (item ∷ ys) rep.distinct

  no_null : (has null xs || has null ys) ≡ false
  no_null = ground (
    arith,
    has-append null xs (item ∷ ys),
    Chain-not_null h null (xs ++ item ∷ ys) null rep.chain,
  )

  p-mem : p ≢ null → has p xs ≡ true
  p-mem = last-mem null xs

  n-mem : n ≢ null → has n ys ≡ true
  n-mem = first-mem ys null

  outside_both : (has item xs || has item ys) ≡ false
  outside_both = ground (arith, apart.2 item, apart.1.0)

  p-ne-item : p ≢ item
  p-ne-item e = ground (arith, outside_both, p-mem, parts.1.0)

  n-ne-item : n ≢ item
  n-ne-item e = ground (arith, outside_both, n-mem, parts.1.0)

  p-ne-n : p ≢ null → p ≢ n
  p-ne-n ne e = ground (arith, p-mem, n-mem, apart.2 p)

  module _ (g : Nodes) (k : Unlinked h g p item n) where
    Chain-front : Chain g null xs n
    Chain-front =
        Chain-new_end null xs item n apart.0 parts.0
          (λ a i ne.
            k.rest a (λ e. ground (arith, outside_both)) (λ e. absurd (ne e))
              λ e. ground (arith, n-mem, apart.2 a, no_null))
          (λ i. k.before_next (λ e. ground (arith, no_null)))
          λ i. k.before_prev (λ e. ground (arith, no_null))

    Chain-back : Chain g p ys null
    Chain-back =
        Chain-new_front h g item p ys apart.1.1 parts.1.3
          (λ a i ne.
            k.rest a (λ e. ground (arith, outside_both))
              (λ e. ground (arith, p-mem, apart.2 a, no_null)) λ e. absurd (ne e))
          (λ i. k.after_prev (λ e. ground (arith, no_null)))
          λ i. k.after_next (λ e. ground (arith, no_null))

    same_outside : SameOutside (xs ++ item ∷ ys) item h g
    same_outside a out ne =
        k.rest a ne (λ e. ground (arith, p-mem, has-append a xs (item ∷ ys)))
          λ e. ground (arith, n-mem, has-append a xs (item ∷ ys))

  Distinct-after : Distinct (xs ++ ys)
  Distinct-after = Distinct-append xs ys apart.0 apart.1.1 λ a i. ground (arith, apart.2 a)

-- What `list_erase` leaves: the list without the node, the node's own pointers NULL, every other
-- node as it was; and what it returns.
pub record Erased (h : Nodes) (xs : List Ptr) (item : Ptr) (ys : List Ptr) (r : Ptr) (l : DList)
    (g : Nodes) : Type 0 where
  pub returned : r ≡ first ys null
  pub rep : Rep g l (xs ++ ys)
  pub reset : g item ≡ record { prev = null; next = null }
  pub same : SameOutside (xs ++ item ∷ ys) item h g

-- Erasing a node of a list ends without a fault, leaves the list without it and in its order,
-- resets the node, returns the node that followed it, and changes no node outside the list.
pub list_erase-Erased :
    (h : Nodes) (l : DList) (xs : List Ptr) (item : Ptr) (ys : List Ptr)
    → Rep h l (xs ++ item ∷ ys)
    → Returns (Erased h xs item ys) (list_erase l item h)
list_erase-Erased h l xs item ys rep =
    let ps = parts h l xs item ys rep in
    Returns-mono (list_erase l item h)
      (λ r l' g (q, k, e, f). record {
        returned = q;
        rep = record {
          head =
              e ∙ cut_head-first l xs item ys rep.head (ground (arith, no_null h l xs item ys rep));
          tail =
              f ∙ cut_tail-last l xs item ys rep.tail (ground (arith, no_null h l xs item ys rep));
          chain =
              Chain-append g null xs ys null (Chain-front h l xs item ys rep g k)
                (Chain-back h l xs item ys rep g k);
          distinct = Distinct-after h l xs item ys rep;
        };
        reset = k.reset;
        same = same_outside h l xs item ys rep g k;
      })
      (list_erase-Unlinked l (last null xs) item (first ys null) h ps.1.1 ps.1.2 ps.1.0
        (p-ne-item h l xs item ys rep) (n-ne-item h l xs item ys rep) (p-ne-n h l xs item ys rep))
