-- ===== src/Context/Tests.antt =====
-- Switches between concrete contexts.
use sherry.Base.{
  ℕ, ◌+◌, ◌%◌, ◌≤◌, Bool, true, false, Option, none, some, ◌≡◌, refl, ◌==◌, if◌then◌else◌, inl, inr,
  arith,
}
use sherry.Context.{Mem, Regs, save_context, swapcontext, makecontext}
use sherry.Memory.{stack_size}
use sherry.Context.Stack.{Starts, ctx_offset, spawn_context, spawn_context-Starts}
use sherry.Context.Ucontext.{
  Place, Ucontext, make_ucontext, swap_ucontext, Documented, make_ucontext-starts,
}
use sherry.Context.Resume.{swapcontext_back, swapcontext-makecontext}

abbrev some_regs : Regs
some_regs = record {
  rsp = 5000;
  rbp = 1;
  rbx = 2;
  r12 = 3;
  r13 = 4;
  r14 = 5;
  r15 = 6;
  rax = 7;
  rip = 8;
}

abbrev other_regs : Regs
other_regs = record {
  rsp = 9000;
  rbp = 0;
  rbx = 0;
  r12 = 0;
  r13 = 0;
  r14 = 0;
  r15 = 0;
  rax = 0;
  rip = 0;
}

-- The word at the address 5000 holds the return address 77.
abbrev some_mem : Mem
some_mem a = if a == 5000 then 77 else 0

swapcontext_back_example :
    (swapcontext 2000 1000 other_regs (swapcontext 1000 2000 some_regs some_mem).1).0
    ≡ record some_regs { rsp = 5008; rax = 0; rip = 77 }
unfolding swapcontext save_context
swapcontext_back_example =
    swapcontext_back 1000 2000 2000 some_regs other_regs some_mem
      (swapcontext 1000 2000 some_regs some_mem).1 (inr (omega arith)) (inr (omega arith))
      (λ a l h. refl) refl

swapcontext-makecontext_example :
    ((swapcontext 1000 2000 some_regs (makecontext 2000 42 4096 4096 some_mem)).0.rip ≡ 42)
    × ((swapcontext 1000 2000 some_regs (makecontext 2000 42 4096 4096 some_mem)).0.rsp ≡ 8184)
    × (((swapcontext 1000 2000 some_regs (makecontext 2000 42 4096 4096 some_mem)).0.rsp + 8) % 16
        ≡ 0)
    × ((swapcontext 1000 2000 some_regs (makecontext 2000 42 4096 4096 some_mem)).1
          (swapcontext 1000 2000 some_regs (makecontext 2000 42 4096 4096 some_mem)).0.rsp
        ≡ 1048575)
swapcontext-makecontext_example =
    swapcontext-makecontext 1000 2000 42 4096 4096 some_regs some_mem (omega arith) refl
      (inl (omega arith)) (inr (omega arith)) (inr (omega arith)) (inr (omega arith))
      (inr (omega arith))

-- The block of an actor at 4096, and the scheduler's context below it.
spawn_context-Starts_example : Starts 4096 2000 42 some_mem (
    swapcontext 2000
      (4096 + stack_size + ctx_offset)
      some_regs
      (spawn_context (4096 + stack_size) 42 some_mem))
spawn_context-Starts_example =
    spawn_context-Starts 4096 2000 42 some_mem some_regs refl (inl (omega arith))

-- A machine with the calls of ucontext.h: what a context holds, its stack, and where the processor is.
data Held : Type 0 where
  fresh : ℕ → Held
  stopped : Place → Held

record Machine : Type 0 where
  held : ℕ → Option Held
  stacks : ℕ → ℕ × ℕ
  at : Place

abbrev enter : Option Held → ℕ × ℕ → Place → Place
enter none s p = p
enter (some (fresh f)) s p = (f, s.0 + s.1)
enter (some (stopped q)) s p = q

abbrev entry : Option Held → Option ℕ
entry (some (fresh f)) = some f
entry _ = none

abbrev is_held : Option Held → Bool
is_held none = false
is_held (some h) = true

-- makecontext makes something only of a context that is there.
abbrev restart : ℕ → Option Held → Option Held
restart f none = none
restart f (some h) = some (fresh f)

abbrev some_ucontext : Ucontext Machine
some_ucontext = record {
  getcontext = λ c w. record w { held = λ b. if c == b then some (stopped w.at) else w.held b };
  set_ss_sp =
      λ c s w. record w { stacks = λ b. if c == b then (s, (w.stacks b).1) else w.stacks b };
  set_ss_size =
      λ c n w. record w { stacks = λ b. if c == b then ((w.stacks b).0, n) else w.stacks b };
  makecontext = λ c f w. record w { held = λ b. if c == b then restart f (w.held b) else w.held b };
  swapcontext = λ o c w. record w {
    held = λ b. if o == b then some (stopped w.at) else w.held b;
    at = enter (w.held c) (w.stacks c) w.at;
  };
}

enter-entry :
    (h : Option Held) (s : ℕ × ℕ) (p : Place) (f : ℕ)
    → entry h ≡ some f
    → ((enter h s p).0 ≡ f) × (s.0 ≤ (enter h s p).1) × ((enter h s p).1 ≤ s.0 + s.1)
enter-entry none s p f e = cc
enter-entry (some (fresh g)) s p f e = (ground (arith, e), omega arith, omega arith)
enter-entry (some (stopped q)) s p f e = cc

abbrev some_machine : Machine
some_machine = record { held = λ c. none; stacks = λ c. (0, 0); at = (7, 8000) }

entry-restart : (f : ℕ) (h : Option Held) → is_held h ≡ true → entry (restart f h) ≡ some f
entry-restart f none e = cc
entry-restart f (some h) e = refl

made_entry :
    (c f : ℕ) (w : Machine)
    → is_held (w.held c) ≡ true
    → entry (if c == c then restart f (w.held c) else w.held c) ≡ some f
made_entry c f w h = ground (arith, entry-restart f (w.held c) h)

some_ucontext-Documented : Documented some_ucontext
some_ucontext-Documented = record {
  stack_of = λ w c. w.stacks c;
  entry_of = λ w c. entry (w.held c);
  place = λ w. w.at;
  min_size = 256;
  got = λ w c. is_held (w.held c);
  gets = λ c w. ground arith;
  keeps_sp = λ c s w h. h;
  keeps_size = λ c n w h. h;
  sets_sp = λ c s w. ground arith;
  sets_size = λ c n w. ground arith;
  makes_entry = λ c f w h. made_entry c f w h;
  makes_stack = λ c f w. refl;
  swap_enters = λ o c f w ne e big. enter-entry (w.held c) (w.stacks c) w.at f e;
}

-- The context at 2000, with the function 42 and the stack from 4096.
make_ucontext-starts_example :
    let t =
      (swap_ucontext some_ucontext 1000 2000
        (make_ucontext some_ucontext 2000 42 4096 512 some_machine)).at in
    (t.0 ≡ 42) × (4096 ≤ t.1) × (t.1 ≤ 4096 + 512)
unfolding some_ucontext-Documented
make_ucontext-starts_example =
    make_ucontext-starts some_ucontext some_ucontext-Documented 1000 2000 42 4096 512 some_machine
      (omega arith) (omega arith)
