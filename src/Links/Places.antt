-- ===== src/Links/Places.antt =====
-- The nodes of actors in a list, and lists that share none.
use sherry.Base.{
  ◌+◌, ◌≤◌, ◌≡◌, ◌≢◌, refl, ap, sym, ◌∙◌, true, false, List, [], ◌∷◌, ◌++◌, ◌==◌, if◌then◌else◌,
  count, erase, erase-cons, count-cons, count-nil, arith, Bool-cases, inl, inr, ==-true,
}
use sherry.Actor.{Ptr}
use sherry.Dll.{null, DList, Nodes}
use sherry.Dll.Chain.{has, Chain-frame}
use sherry.Dll.Rep.{Rep, SameOutside}
use sherry.Links.{actor_node}

-- Where the structures of the actors stand: no two at one address, and none at NULL.
pub record Places (place : Ptr → Ptr) : Type 0 where
  pub apart : (p q : Ptr) → place p ≡ place q → p ≡ q
  pub real : (p : Ptr) → place p ≢ null

-- No actor stands in both lists, or twice in one.
abbrev pub Apart : List Ptr → List Ptr → Type 0
Apart xs ys = (p : Ptr) → count p xs + count p ys ≤ 1

module _ (place : Ptr → Ptr) where
  abbrev pub node_of : Ptr → Ptr
  node_of p = place p + actor_node

  abbrev pub nodes_of : List Ptr → List Ptr
  nodes_of [] = []
  nodes_of (p ∷ ps) = node_of p ∷ nodes_of ps

  pub nodes_of-append : (xs ys : List Ptr) → nodes_of (xs ++ ys) ≡ nodes_of xs ++ nodes_of ys
  nodes_of-append [] ys = refl
  nodes_of-append (x ∷ xs) ys = ap (λ ns. node_of x ∷ ns) (nodes_of-append xs ys)

  module _ (ok : Places place) where
    pub place-== : (p q : Ptr) → (place p == place q) ≡ (p == q)
    place-== p q = ground (arith, ok.apart p q)

    node_of-other : (x p : Ptr) → (x == p) ≡ false → (node_of x == node_of p) ≡ false
    node_of-other x p e = elim (Bool-cases (node_of x == node_of p)) [
      | inl t ↦
          let same : place x ≡ place p = omega (arith, ==-true (node_of x) (node_of p) t) in
          let eq = ok.apart x p same in absurd (ground (arith, e, eq))
      | inr f ↦ f
    ]

    pub has-nodes_of :
        (p : Ptr) (xs : List Ptr) → count p xs ≡ 0 → has (node_of p) (nodes_of xs) ≡ false
    has-nodes_of p [] e = refl
    has-nodes_of p (x ∷ xs) e =
        let other : (x == p) ≡ false = ground (arith, e, count-cons p x xs) in
        let rest : count p xs ≡ 0 = omega (arith, e, count-cons p x xs) in
        rw (node_of-other x p other, has-nodes_of p xs rest) refl

    -- A node of the one list is none of the other.
    pub has-Apart :
        (a : Ptr) (xs ys : List Ptr)
        → Apart xs ys
        → has a (nodes_of xs) ≡ true
        → has a (nodes_of ys) ≡ false
    has-Apart a [] ys d h = absurd (ground (arith, h))
    has-Apart a (x ∷ xs) ys d h = elim (Bool-cases (node_of x == a)) [
      | inl e ↦
          let same = ==-true (node_of x) a e in
          rw (← same) (has-nodes_of x ys (ground (arith, d x, count-cons x x xs)))
      | inr e ↦
          has-Apart a xs ys (λ p. omega (arith, d p, count-cons p x xs)) (ground (arith, h, e))
    ]

    not_node :
        (a : Ptr) (xs : List Ptr) (p : Ptr)
        → count p xs ≡ 0
        → a ≡ node_of p
        → has a (nodes_of xs) ≡ true
        → ⊥
    not_node a xs p out e i =
        let hit : has (node_of p) (nodes_of xs) ≡ true =
          ap (λ b. has b (nodes_of xs)) (sym e) ∙ i in
        let miss = has-nodes_of p xs out in ground (arith, hit, miss)

    -- A queue stays as it is where another changes.
    pub Rep-Apart :
        (h g : Nodes) (q : DList) (xs ys : List Ptr) (p : Ptr)
        → Rep h q (nodes_of xs)
        → SameOutside (nodes_of ys) (node_of p) h g
        → Apart xs ys
        → count p xs ≡ 0
        → Rep g q (nodes_of xs)
    Rep-Apart h g q xs ys p r same d out = record {
      head = r.head;
      tail = r.tail;
      chain =
          Chain-frame null (nodes_of xs) null r.chain
            (λ a i. same a (has-Apart a xs ys d i) (λ e. not_node a xs p out e i));
      distinct = r.distinct;
    }

-- Where an actor is erased.
pub record Split (p : Ptr) (xs : List Ptr) : Type 0 where
  pub before : List Ptr
  pub behind : List Ptr
  pub whole : xs ≡ before ++ p ∷ behind
  pub erased : erase p xs ≡ before ++ behind

pub split : (p : Ptr) (xs : List Ptr) → count p xs ≢ 0 → Split p xs
split p [] ne = absurd (ne (count-nil p))
split p (x ∷ xs) ne = elim (Bool-cases (x == p)) [
  | inl e ↦
      let same = ==-true x p e in
      record {
        before = [];
        behind = xs;
        whole = ap (λ y. y ∷ xs) same;
        erased = erase-cons p x xs ∙ ap (λ b. if b then xs else x ∷ erase p xs) e;
      }
  | inr e ↦
      let s = split p xs (λ z. ne (ground (arith, z, e, count-cons p x xs))) in
      record {
        before = x ∷ s.before;
        behind = s.behind;
        whole = ap (λ ys. x ∷ ys) s.whole;
        erased =
            erase-cons p x xs
            ∙ ap (λ b. if b then xs else x ∷ erase p xs) e
            ∙ ap (λ ys. x ∷ ys) s.erased;
      }
]
