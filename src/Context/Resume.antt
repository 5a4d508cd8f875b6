-- ===== src/Context/Resume.antt =====
-- A context that was saved goes on where it stopped, and a new one starts its function.
use sherry.Base.{ℕ, ◌+◌, ◌-◌, ◌%◌, ◌≤◌, ◌<◌, ◌≡◌, refl, ap, ◌∙◌, ◌⊎◌, arith}
use sherry.Context.{Mem, Regs, save_context, load_context, swapcontext, makecontext}

-- The seven words of a context do not meet the word at an address, or those of another context.
abbrev pub Outside : ℕ → ℕ → Type 0
Outside ctx a = (a < ctx) ⊎ (ctx + 48 < a)

abbrev pub Apart : ℕ → ℕ → Type 0
Apart c d = (c + 48 < d) ⊎ (d + 48 < c)

pub save_context-Outside :
    (octx : ℕ) (r : Regs) (m : Mem) (a : ℕ) → Outside octx a → save_context octx r m a ≡ m a
unfolding save_context
save_context-Outside octx r m a h = ground (arith, h)

-- What a context's seven words hold.
pub record Saved (ctx : ℕ) (r : Regs) (m : Mem) : Type 0 where
  pub rsp : m ctx ≡ r.rsp
  pub rbp : m (ctx + 8) ≡ r.rbp
  pub rbx : m (ctx + 16) ≡ r.rbx
  pub r12 : m (ctx + 24) ≡ r.r12
  pub r13 : m (ctx + 32) ≡ r.r13
  pub r14 : m (ctx + 40) ≡ r.r14
  pub r15 : m (ctx + 48) ≡ r.r15

save_context-Saved : (octx : ℕ) (r : Regs) (m : Mem) → Saved octx r (save_context octx r m)
unfolding save_context
save_context-Saved octx r m = record {
  rsp = ground arith;
  rbp = ground arith;
  rbx = ground arith;
  r12 = ground arith;
  r13 = ground arith;
  r14 = ground arith;
  r15 = ground arith;
}

-- Saving another context changes none of the words.
Saved-save_context :
    (octx ctx : ℕ) (r r' : Regs) (m : Mem)
    → Apart octx ctx
    → Saved ctx r m
    → Saved ctx r (save_context octx r' m)
Saved-save_context octx ctx r r' m apart s = record {
  rsp = rw (save_context-Outside octx r' m ctx (ground (arith, apart))) s.rsp;
  rbp = rw (save_context-Outside octx r' m (ctx + 8) (ground (arith, apart))) s.rbp;
  rbx = rw (save_context-Outside octx r' m (ctx + 16) (ground (arith, apart))) s.rbx;
  r12 = rw (save_context-Outside octx r' m (ctx + 24) (ground (arith, apart))) s.r12;
  r13 = rw (save_context-Outside octx r' m (ctx + 32) (ground (arith, apart))) s.r13;
  r14 = rw (save_context-Outside octx r' m (ctx + 40) (ground (arith, apart))) s.r14;
  r15 = rw (save_context-Outside octx r' m (ctx + 48) (ground (arith, apart))) s.r15;
}

load_context-Saved :
    (ctx : ℕ) (r : Regs) (m : Mem) (back : ℕ)
    → Saved ctx r m
    → m r.rsp ≡ back
    → load_context ctx m ≡ record r { rsp = r.rsp + 8; rax = 0; rip = back }
unfolding load_context
load_context-Saved ctx r m back s e = rw (s.rsp, s.rbp, s.rbx, s.r12, s.r13, s.r14, s.r15, e) refl

-- The words of a context hold in `m'` what they hold in `m`.
abbrev pub Kept : ℕ → Mem → Mem → Type 0
Kept ctx m m' = (a : ℕ) → ctx ≤ a → a ≤ ctx + 48 → m' a ≡ m a

Saved-Kept : (ctx : ℕ) (r : Regs) (m m' : Mem) → Saved ctx r m → Kept ctx m m' → Saved ctx r m'
Saved-Kept ctx r m m' s k = record {
  rsp = k ctx (omega arith) (omega arith) ∙ s.rsp;
  rbp = k (ctx + 8) (omega arith) (omega arith) ∙ s.rbp;
  rbx = k (ctx + 16) (omega arith) (omega arith) ∙ s.rbx;
  r12 = k (ctx + 24) (omega arith) (omega arith) ∙ s.r12;
  r13 = k (ctx + 32) (omega arith) (omega arith) ∙ s.r13;
  r14 = k (ctx + 40) (omega arith) (omega arith) ∙ s.r14;
  r15 = k (ctx + 48) (omega arith) (omega arith) ∙ s.r15;
}

-- A switch saves the registers in the context `a`. However long others run, if they keep the words
-- of that context and the return address on the stack, a later switch from a context `c`, which
-- does not meet that context or that address, to `a` returns to the place of the call with the
-- stack and every preserved register as they were, and 0 for the result.
pub swapcontext_back :
    (a b c : ℕ) (r r' : Regs) (m m' : Mem)
    → Apart c a
    → Outside c r.rsp
    → Kept a (swapcontext a b r m).1 m'
    → m' r.rsp ≡ m r.rsp
    → (swapcontext c a r' m').0 ≡ record r { rsp = r.rsp + 8; rax = 0; rip = m r.rsp }
unfolding swapcontext
swapcontext_back a b c r r' m m' apart out kept ret =
    let here = Saved-Kept a r (save_context a r m) m' (save_context-Saved a r m) kept in
    load_context-Saved a r (save_context c r' m') (m r.rsp)
      (Saved-save_context c a r r' m' apart here) (save_context-Outside c r' m' r.rsp out ∙ ret)

makecontext-words :
    (c f stack size : ℕ) (m : Mem)
    → 16 ≤ size
    → Outside c (stack + size - 16)
    → Outside c (stack + size - 8)
    → (makecontext c f stack size m c ≡ stack + size - 16)
      × (makecontext c f stack size m (stack + size - 16) ≡ f)
      × (makecontext c f stack size m (stack + size - 8) ≡ 1048575)
unfolding makecontext
makecontext-words c f stack size m big c1 c2 =
    (ground (arith, c1, c2), ground (arith, c1, c2), ground (arith, c1, c2))

-- The first switch to a context that `_makecontext` has made, for a stack of 16 bytes at least
-- whose end is aligned to 16 bytes and whose two top words meet neither context, starts the
-- function `f`, with the stack aligned as the calling convention asks at the entry of a function,
-- and the false return address on top of it.
pub swapcontext-makecontext :
    (o c f stack size : ℕ) (r : Regs) (m : Mem)
    → 16 ≤ size
    → (stack + size) % 16 ≡ 0
    → Apart o c
    → Outside o (stack + size - 16)
    → Outside o (stack + size - 8)
    → Outside c (stack + size - 16)
    → Outside c (stack + size - 8)
    → let t = swapcontext o c r (makecontext c f stack size m) in
      (t.0.rip ≡ f)
      × (t.0.rsp ≡ stack + size - 8)
      × ((t.0.rsp + 8) % 16 ≡ 0)
      × (t.1 t.0.rsp ≡ 1048575)
unfolding swapcontext makecontext load_context
swapcontext-makecontext o c f stack size r m big align apart o1 o2 c1 c2 =
    let m0 = makecontext c f stack size m in
    let words = makecontext-words c f stack size m big c1 c2 in
    let top : save_context o r m0 c ≡ stack + size - 16 =
      save_context-Outside o r m0 c (ground (arith, apart)) ∙ words.0 in
    let rsp : (swapcontext o c r m0).0.rsp ≡ stack + size - 8 = omega (arith, top) in
    (
      ap (save_context o r m0) top ∙ save_context-Outside o r m0 (stack + size - 16) o1 ∙ words.1,
      rsp,
      omega (arith, rsp),
      ap (save_context o r m0) rsp ∙ save_context-Outside o r m0 (stack + size - 8) o2 ∙ words.2,
    )
