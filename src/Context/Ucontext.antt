-- ===== src/Context/Ucontext.antt =====
-- The context switch of the other processors (lines 175 to 192), over the calls of ucontext.h.
use sherry.Base.{ℕ, ◌+◌, ◌≤◌, ◌≡◌, ◌≢◌, ap, ◌∙◌, Option, some, Bool, true, arith}

-- The calls of ucontext.h on a state `W` that holds the contexts at all addresses, and the two
-- members of `ucontext_t` that the code sets.
pub record Ucontext (W : Type 0) : Type 0 where
  pub getcontext : ℕ → W → W
  pub set_ss_sp : ℕ → ℕ → W → W
  pub set_ss_size : ℕ → ℕ → W → W
  pub makecontext : ℕ → ℕ → W → W
  pub swapcontext : ℕ → ℕ → W → W

module _ {W : Type 0} (u : Ucontext W) where
  -- `_makecontext` and `_swapcontext`
  unfoldable pub make_ucontext : ℕ → ℕ → ℕ → ℕ → W → W
  make_ucontext ctx f stack stacksz w =
      u.makecontext ctx f (u.set_ss_size ctx stacksz (u.set_ss_sp ctx stack (u.getcontext ctx w)))

  unfoldable pub swap_ucontext : ℕ → ℕ → W → W
  swap_ucontext octx ctx w = u.swapcontext octx ctx w

-- What the processor is at: the next instruction and the stack pointer.
abbrev pub Place : Type 0
Place = ℕ × ℕ

-- What the manual of ucontext.h says of the calls, with the stack and the function that a context
-- holds, and whether getcontext has filled it: makecontext is for such a context only. A stack has a least size.
pub record Documented {W : Type 0} (u : Ucontext W) : Type 0 where
  pub stack_of : W → ℕ → ℕ × ℕ
  pub entry_of : W → ℕ → Option ℕ
  pub place : W → Place
  pub min_size : ℕ
  pub got : W → ℕ → Bool
  pub gets : (c : ℕ) (w : W) → got (u.getcontext c w) c ≡ true
  pub keeps_sp : (c s : ℕ) (w : W) → got w c ≡ true → got (u.set_ss_sp c s w) c ≡ true
  pub keeps_size : (c n : ℕ) (w : W) → got w c ≡ true → got (u.set_ss_size c n w) c ≡ true
  pub sets_sp : (c s : ℕ) (w : W) → stack_of (u.set_ss_sp c s w) c ≡ (s, (stack_of w c).1)
  pub sets_size : (c n : ℕ) (w : W) → stack_of (u.set_ss_size c n w) c ≡ ((stack_of w c).0, n)
  pub makes_entry : (c f : ℕ) (w : W) → got w c ≡ true → entry_of (u.makecontext c f w) c ≡ some f
  pub makes_stack : (c f : ℕ) (w : W) → stack_of (u.makecontext c f w) c ≡ stack_of w c
  pub swap_enters :
      (o c f : ℕ) (w : W)
      → o ≢ c
      → entry_of w c ≡ some f
      → min_size ≤ (stack_of w c).1
      → ((place (u.swapcontext o c w)).0 ≡ f)
        × ((stack_of w c).0 ≤ (place (u.swapcontext o c w)).1)
        × ((place (u.swapcontext o c w)).1 ≤ (stack_of w c).0 + (stack_of w c).1)

module _ {W : Type 0} (u : Ucontext W) (d : Documented u) where
  -- With the calls of ucontext.h as its manual says, where makecontext is only for a context that
  -- getcontext has filled: after the `_makecontext` of the variant for other processors with a
  -- stack of at least the least size, the first switch from another context starts the given
  -- function with the stack pointer inside the given stack.
  pub make_ucontext-starts :
      (o c f stack size : ℕ) (w : W)
      → o ≢ c
      → d.min_size ≤ size
      → let t = d.place (swap_ucontext u o c (make_ucontext u c f stack size w)) in
        (t.0 ≡ f) × (stack ≤ t.1) × (t.1 ≤ stack + size)
  unfolding make_ucontext swap_ucontext
  make_ucontext-starts o c f stack size w ne big =
      let w1 = u.set_ss_sp c stack (u.getcontext c w) in
      let w2 = u.set_ss_size c size w1 in
      let e : d.stack_of (u.makecontext c f w2) c ≡ (stack, size) =
        d.makes_stack c f w2
        ∙ d.sets_size c size w1
        ∙ ap (λ (t : ℕ × ℕ). (t.0, size)) (d.sets_sp c stack (u.getcontext c w)) in
      let filled = d.keeps_size c size w1 (d.keeps_sp c stack (u.getcontext c w) (d.gets c w)) in
      let e0 = ap (λ (s : ℕ × ℕ). s.0) e in
      let e1 = ap (λ (s : ℕ × ℕ). s.1) e in
      let entry = d.makes_entry c f w2 filled in
      let t = d.swap_enters o c f (u.makecontext c f w2) ne entry (omega (arith, big, e1)) in
      (t.0, omega (arith, t.1, e0), omega (arith, t.2, e0, e1))
