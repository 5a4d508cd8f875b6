-- ===== src/Context.antt =====
-- The context switch of x86-64: sherry.c, lines 134 to 173. Memory is a function from the addresses
-- of 8-byte words, all of them aligned; the processor is the registers that the code names.
pub mod Resume
pub mod Stack
pub mod Ucontext
mod Tests
use sherry.Base.{ℕ, ◌+◌, ◌-◌, ◌*◌, ◌==◌, if◌then◌else◌}

abbrev pub Mem : Type 0
Mem = ℕ → ℕ

-- The registers that a call preserves, which `context_t` holds, with the result and the place of
-- the next instruction.
pub record Regs : Type 0 where
  pub rsp : ℕ
  pub rbp : ℕ
  pub rbx : ℕ
  pub r12 : ℕ
  pub r13 : ℕ
  pub r14 : ℕ
  pub r15 : ℕ
  pub rax : ℕ
  pub rip : ℕ

abbrev pub store : ℕ → ℕ → Mem → Mem
store a v m = λ b. if a == b then v else m b

-- `(movq %reg, off(%rdi))` for the seven registers.
unfoldable pub save_context : ℕ → Regs → Mem → Mem
save_context octx r m =
    let m1 = store octx r.rsp m in
    let m2 = store (octx + 8) r.rbp m1 in
    let m3 = store (octx + 16) r.rbx m2 in
    let m4 = store (octx + 24) r.r12 m3 in
    let m5 = store (octx + 32) r.r13 m4 in
    let m6 = store (octx + 40) r.r14 m5 in store (octx + 48) r.r15 m6

-- `(movq off(%rsi), %reg)`, then `xor %rax, %rax` and `ret`, which pops the place to go on.
unfoldable pub load_context : ℕ → Mem → Regs
load_context ctx m = record {
  rsp = m ctx + 8;
  rbp = m (ctx + 8);
  rbx = m (ctx + 16);
  r12 = m (ctx + 24);
  r13 = m (ctx + 32);
  r14 = m (ctx + 40);
  r15 = m (ctx + 48);
  rax = 0;
  rip = m (m ctx);
}

-- `_swapcontext(octx, ctx)`, called with the return address on top of the stack.
unfoldable pub swapcontext : ℕ → ℕ → Regs → Mem → Regs × Mem
swapcontext octx ctx r m = let saved = save_context octx r m in (load_context ctx saved, saved)

-- `_makecontext`: only `rsp` is set, to room for the function's address and a false return address.
unfoldable pub makecontext : ℕ → ℕ → ℕ → ℕ → Mem → Mem
makecontext ctx f stack stacksz m =
    let size = stacksz - 8 * 2 in
    let rsp = stack + size in store (rsp + 8) 1048575 (store rsp f (store ctx rsp m))
