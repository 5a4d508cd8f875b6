-- ===== src/Context/Stack.antt =====
-- An actor's block in memory: its stack below, `struct actor` above it, with the context that
-- `sherry_spawn` makes (lines 224 to 244, 415 to 416).
use sherry.Base.{ℕ, ◌+◌, ◌-◌, ◌%◌, ◌≤◌, ◌<◌, ◌≡◌, ap, ◌∙◌, ◌⊎◌, arith}
use sherry.Memory.{stack_size, actor_stack}
use sherry.Context.{Mem, Regs, swapcontext, makecontext}
use sherry.Context.Resume.{Outside, save_context-Outside, swapcontext-makecontext}

-- On x86-64 `ctx` stands behind two ints, and the structure ends with the node of a queue.
abbrev pub ctx_offset : ℕ
ctx_offset = 8

abbrev pub actor_size : ℕ
actor_size = 120

abbrev pub InStack : ℕ → ℕ → Type 0
InStack p x = (p ≤ x) × (x < p + stack_size)

abbrev pub InStruct : ℕ → ℕ → Type 0
InStruct p x = (p + stack_size ≤ x) × (x < p + (stack_size + actor_size))

-- No byte of the block: the size of an actor is that of its structure and of its stack.
abbrev pub OutOfBlock : ℕ → ℕ → Type 0
OutOfBlock p x = (x < p) ⊎ (p + (actor_size + stack_size) ≤ x)

-- The call of `_makecontext` in `sherry_spawn`, for `sherry_main` at `f`.
unfoldable pub spawn_context : ℕ → ℕ → Mem → Mem
spawn_context a f m = makecontext (a + ctx_offset) f (actor_stack a) stack_size m

-- The first switch to the actor in the block `p`, from the context at `o`.
pub record Starts (p o f : ℕ) (m : Mem) (t : Regs × Mem) : Type 0 where
  pub at_function : t.0.rip ≡ f
  pub on_stack : InStack p t.0.rsp
  pub aligned : (t.0.rsp + 8) % 16 ≡ 0
  pub others : (x : ℕ) → OutOfBlock p x → Outside o x → t.1 x ≡ m x

module _ (p o f : ℕ) (m : Mem) where
  spawn_context-others : (x : ℕ) → OutOfBlock p x → spawn_context (p + stack_size) f m x ≡ m x
  unfolding spawn_context makecontext actor_stack
  spawn_context-others x out = ground (arith, out)

  spawn_context_block :
      spawn_context (p + stack_size) f m
      ≡ makecontext (p + stack_size + ctx_offset) f p stack_size m
  unfolding spawn_context actor_stack
  spawn_context_block =
      let back : p + stack_size - stack_size ≡ p = omega arith in
      ap (λ s. makecontext (p + stack_size + ctx_offset) f s stack_size m) back

  switch-others : (r : Regs) (c x : ℕ) (m' : Mem) → Outside o x → (swapcontext o c r m').1 x ≡ m' x
  unfolding swapcontext
  switch-others r c x m' out = save_context-Outside o r m' x out

  -- For an actor in a block that starts at a multiple of 16, and a context outside the block, the
  -- first switch to the context that `sherry_spawn` makes starts the given function with the stack
  -- pointer inside the actor's stack and aligned as the calling convention asks; making it and
  -- switching to it change no word outside the block but those of the context that is left.
  pub spawn_context-Starts :
      (r : Regs)
      → p % 16 ≡ 0
      → (o + 56 ≤ p) ⊎ (p + (actor_size + stack_size) ≤ o)
      → Starts p o f m
          (swapcontext o (p + stack_size + ctx_offset) r (spawn_context (p + stack_size) f m))
  spawn_context-Starts r align apart =
      let c = p + stack_size + ctx_offset in
      let s =
        swapcontext-makecontext o c f p stack_size r m (omega arith) (omega (arith, align))
          (ground (arith, apart)) (ground (arith, apart)) (ground (arith, apart)) (ground arith)
          (ground arith) in
      record {
        at_function = rw spawn_context_block s.0;
        on_stack = rw (spawn_context_block, s.1) (omega arith, omega arith);
        aligned = rw spawn_context_block s.2;
        others = λ x out free.
            switch-others r c x (spawn_context (p + stack_size) f m) free
            ∙ spawn_context-others x out;
      }
