-- ===== src/Memory/Valgrind.antt =====
-- The stacks that valgrind is told of: the macros of lines 14 to 21, and where new_actor, free_actor, sherry_init and
-- sherry_exit use them (lines 259, 277, 680 and 698). valgrind is a parameter.
use sherry.Base.{
  ℕ, ◌+◌, ◌≡◌, ◌≢◌, refl, ap, sym, ◌∙◌, Bool, true, false, Option, none, some, List, [], ◌∷◌, ◌==◌,
  if◌then◌else◌, Bool-cases, inl, inr, ==-true,
}
use sherry.Dll.{Ptr}
use sherry.Memory.{stack_size}

-- The stacks that valgrind knows, by their ids.
pub record Valgrind (V : Type 0) : Type 0 where
  pub register : ℕ → ℕ → V → ℕ × V
  pub deregister : ℕ → V → V

pub record KeepsStacks {V : Type 0} (vg : Valgrind V) : Type 0 where
  pub known : V → ℕ → Option (ℕ × ℕ)
  pub fresh : (s e : ℕ) (v : V) → known v (vg.register s e v).0 ≡ none
  pub adds :
      (s e : ℕ) (v : V) (i : ℕ)
      → known (vg.register s e v).1 i
        ≡ (if (vg.register s e v).0 == i then some (s, e) else known v i)
  pub drops :
      (i : ℕ) (v : V) (j : ℕ) → known (vg.deregister i v) j ≡ (if i == j then none else known v j)

-- The macros, `none` where USE_VALGRIND is not defined.
unfoldable pub valgrind_stk_reg : {V : Type 0} → Option (Valgrind V) → ℕ → ℕ → V → ℕ × V
valgrind_stk_reg none start end v = (0, v)
valgrind_stk_reg (some vg) start end v = vg.register start end v

unfoldable pub valgrind_stk_unreg : {V : Type 0} → Option (Valgrind V) → ℕ → V → V
valgrind_stk_unreg none stkid v = v
valgrind_stk_unreg (some vg) stkid v = vg.deregister stkid v

module _ {V : Type 0} (use_valgrind : Option (Valgrind V)) where
  -- `new_actor` in the block `p`, and one spawn after the other, with the ids they keep
  unfoldable pub actor_stk : Ptr → V → ℕ × V
  actor_stk p v = valgrind_stk_reg use_valgrind p (p + stack_size) v

  -- `free_actor`, of an actor that keeps the id
  unfoldable pub free_stk : ℕ → V → V
  free_stk id v = valgrind_stk_unreg use_valgrind id v

  unfoldable pub spawn_stks : List Ptr → V → List (ℕ × Ptr) × V
  spawn_stks [] v = ([], v)
  spawn_stks (p ∷ ps) v =
      let r = actor_stk p v in let rest = spawn_stks ps r.1 in ((r.0, p) ∷ rest.0, rest.1)

  -- From `sherry_init` to `sherry_exit`: `main`, the stack of `schdule`, and the actors.
  unfoldable pub whole_stks : Ptr → Ptr → List Ptr → V → List (ℕ × Ptr) × V
  whole_stks main tmpstack ps v =
      let m = actor_stk main v in
      let t = valgrind_stk_reg use_valgrind tmpstack (tmpstack + stack_size) m.1 in
      let r = spawn_stks ps t.1 in ((m.0, main) ∷ r.0, valgrind_stk_unreg use_valgrind t.0 r.1)

-- The stack that an id stands for, after those of some actors.
abbrev pub stack_of : List (ℕ × Ptr) → ℕ → Option (ℕ × ℕ) → Option (ℕ × ℕ)
stack_of [] i old = old
stack_of ((j, p) ∷ ids) i old = stack_of ids i (if j == i then some (p, p + stack_size) else old)

-- The actors that the ids are of.
abbrev pub actors_of : List (ℕ × Ptr) → List Ptr
actors_of [] = []
actors_of ((j, p) ∷ ids) = p ∷ actors_of ids

some_none : {A : Type 0} {x : A} → some x ≡ none → ⊥
some_none e = cc

if_true : {A : Type 0} (b : Bool) (x y : A) → b ≡ true → (if b then x else y) ≡ x
if_true b x y e = rw e refl

if_false : {A : Type 0} (b : Bool) (x y : A) → b ≡ false → (if b then x else y) ≡ y
if_false b x y e = rw e refl

module _ {V : Type 0} (vg : Valgrind V) (laws : KeepsStacks vg) where
  spawn_stks-known :
      (ps : List Ptr) (v : V) (i : ℕ)
      → laws.known (spawn_stks (some vg) ps v).1 i
        ≡ stack_of (spawn_stks (some vg) ps v).0 i (laws.known v i)
  unfolding spawn_stks actor_stk valgrind_stk_reg
  spawn_stks-known [] v i = refl
  spawn_stks-known (p ∷ ps) v i =
      let r = vg.register p (p + stack_size) v in
      spawn_stks-known ps r.1 i
      ∙ ap (stack_of (spawn_stks (some vg) ps r.1).0 i) (laws.adds p (p + stack_size) v i)

  -- Every actor gets an id, in their order.
  spawn_stks-actors_of : (ps : List Ptr) (v : V) → actors_of (spawn_stks (some vg) ps v).0 ≡ ps
  unfolding spawn_stks
  spawn_stks-actors_of [] v = refl
  spawn_stks-actors_of (p ∷ ps) v =
      ap (λ qs. p ∷ qs) (spawn_stks-actors_of ps (actor_stk (some vg) p v).1)

  other_id :
      (p : Ptr) (v : V) (i : ℕ)
      → laws.known v i ≢ none
      → ((vg.register p (p + stack_size) v).0 == i) ≡ false
  other_id p v i h = elim (Bool-cases ((vg.register p (p + stack_size) v).0 == i)) [
    | inl e ↦
        let same = ==-true (vg.register p (p + stack_size) v).0 i e in
        absurd (h (ap (laws.known v) (sym same) ∙ laws.fresh p (p + stack_size) v))
    | inr e ↦ e
  ]

  -- An id that is taken is given to no other stack.
  taken_id :
      (ps : List Ptr) (v : V) (i : ℕ) (d : Option (ℕ × ℕ))
      → laws.known v i ≢ none
      → stack_of (spawn_stks (some vg) ps v).0 i d ≡ d
  unfolding spawn_stks actor_stk valgrind_stk_reg
  taken_id [] v i d h = refl
  taken_id (p ∷ ps) v i d h =
      let r = vg.register p (p + stack_size) v in
      let other = other_id p v i h in
      let added : laws.known r.1 i ≡ laws.known v i =
        laws.adds p (p + stack_size) v i ∙ if_false (r.0 == i) _ _ other in
      taken_id ps r.1 i (if r.0 == i then some (p, p + stack_size) else d) (λ z. h (sym added ∙ z))
      ∙ if_false (r.0 == i) (some (p, p + stack_size)) d other

  -- With a valgrind that gives fresh ids, `main` and every actor that was spawned, in their order,
  -- keep an id; and after `sherry_exit` valgrind knows the stacks that it knew before and, by these
  -- ids, the stacks of `main` and of those actors, and no others: the stack of `schdule` is gone.
  pub whole_stks-known :
      (main tmpstack : Ptr) (ps : List Ptr) (v : V) (i : ℕ)
      → let r = whole_stks (some vg) main tmpstack ps v in
        (actors_of r.0 ≡ main ∷ ps) × (laws.known r.1 i ≡ stack_of r.0 i (laws.known v i))
  unfolding whole_stks actor_stk valgrind_stk_reg valgrind_stk_unreg
  whole_stks-known main tmpstack ps v i =
      let m = vg.register main (main + stack_size) v in
      let t = vg.register tmpstack (tmpstack + stack_size) m.1 in
      let r = spawn_stks (some vg) ps t.1 in
      let old = if m.0 == i then some (main, main + stack_size) else laws.known v i in
      let first : laws.known m.1 i ≡ old = laws.adds main (main + stack_size) v i in
      let second = laws.adds tmpstack (tmpstack + stack_size) m.1 i in
      let last = laws.drops t.0 r.1 i in
      (
        ap (λ qs. main ∷ qs) (spawn_stks-actors_of ps t.1),
        elim (Bool-cases (t.0 == i)) [
          | inl e ↦
              let same = ==-true t.0 i e in
              let taken : laws.known t.1 i ≢ none =
                λ z. some_none (sym (second ∙ if_true (t.0 == i) _ _ e) ∙ z) in
              let gone : laws.known m.1 i ≡ none =
                ap (laws.known m.1) (sym same) ∙ laws.fresh tmpstack (tmpstack + stack_size) m.1 in
              last ∙ if_true (t.0 == i) _ _ e ∙ sym gone ∙ first ∙ sym (taken_id ps t.1 i old taken)
          | inr e ↦
              last
              ∙ if_false (t.0 == i) _ _ e
              ∙ spawn_stks-known ps t.1 i
              ∙ ap (stack_of r.0 i) (second ∙ if_false (t.0 == i) _ _ e ∙ first)
        ],
      )

  -- A stack that new_actor registers and free_actor deregisters leaves no trace.
  free_stk-actor_stk :
      (p : Ptr) (v : V) (i : ℕ)
      → laws.known (free_stk (some vg) (actor_stk (some vg) p v).0 (actor_stk (some vg) p v).1) i
        ≡ laws.known v i
  unfolding free_stk actor_stk valgrind_stk_reg valgrind_stk_unreg
  free_stk-actor_stk p v i =
      let r = vg.register p (p + stack_size) v in
      let dropped = laws.drops r.0 r.1 i in
      elim (Bool-cases (r.0 == i)) [
        | inl e ↦
            dropped
            ∙ if_true (r.0 == i) _ _ e
            ∙ sym (laws.fresh p (p + stack_size) v)
            ∙ ap (laws.known v) (==-true r.0 i e)
        | inr e ↦
            dropped
            ∙ if_false (r.0 == i) _ _ e
            ∙ laws.adds p (p + stack_size) v i
            ∙ if_false (r.0 == i) _ _ e
      ]
