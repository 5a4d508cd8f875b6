-- ===== src/Memory/Drain.antt =====
-- `free_actor` drains the mailbox and gives back the actor's block: sherry.c, lines 268 to 282.
use sherry.Base.{
  ℕ, zero, suc, ◌+◌, ◌-◌, ◌≤◌, ◌<◌, ◌≡◌, ap, sym, ◌∙◌, ◌≢◌, false, List, [], ◌∷◌, ◌==◌, to_nat,
  count, count-cons, count-nil, and_then, arith, length,
}
use sherry.Queues.{Surely, Surely-map, Surely-then}
use sherry.Actor.{Sds, Msg}
use sherry.Dll.{Ptr, null, DList}
use sherry.Memory.{
  Heap, SdsFree, srfree, sherry_msg_free, free_mailbox, free_actor, recv_at, stack_size,
}
use sherry.Memory.Counted.{Freed, srfree-Freed}
use sherry.Memory.Mailbox.{MailRep, Taken, recv_at-Received}
use sherry.Memory.Release.{payloads, FreesLive, Released, sherry_msg_free-Released}

nil_cons : {x : Msg} {xs : List Msg} → [] ≡ x ∷ xs → ⊥
nil_cons e = cc

module _ (sdsfree : SdsFree) (frees : FreesLive sdsfree) where
  -- What is left when the first message is freed is a mailbox again, and it is all.
  message_gone :
      (m : Ptr) (x : Msg) (ms : List Ptr) (msgs : List Msg) (h : Heap) (r : Ptr) (q0 q' : DList)
      (g g' : Heap)
      → MailRep q0 (m ∷ ms) (x ∷ msgs) h
      → Taken h m x ms msgs r q' g
      → Released (r ∷ []) ((g.msg r).payload ∷ []) g g'
      → g'.nodes ≡ g.nodes
      → g'.msg ≡ g.msg
      → MailRep q' ms msgs g'
  message_gone m x ms msgs h r q0 q' g g' rep t k n c = record {
    linked = rw n t.mail.linked;
    held = rw c t.mail.held;
    live = λ a. omega (
      arith,
      k.blocks a,
      rep.live a,
      count-cons a m ms,
      count-cons a r [],
      count-nil a,
      ap (count a) t.blocks,
      ap (λ b. to_nat (b == a)) t.address,
    );
    real = t.mail.real;
  }

  cons-Released :
      (m : Ptr) (x : Msg) (ms : List Ptr) (msgs : List Msg) (h : Heap) (r : Ptr) (q' : DList)
      (g g' g'' : Heap)
      → Taken h m x ms msgs r q' g
      → Released (r ∷ []) ((g.msg r).payload ∷ []) g g'
      → Released ms (payloads msgs) g' g''
      → Released (m ∷ ms) (x.payload ∷ payloads msgs) h g''
  cons-Released m x ms msgs h r q' g g' g'' t k l = record {
    blocks = λ a. omega (
      arith,
      k.blocks a,
      l.blocks a,
      count-cons a m ms,
      count-cons a r [],
      count-nil a,
      ap (count a) t.blocks,
      ap (λ b. to_nat (b == a)) t.address,
    );
    strings = λ s. omega (
      arith,
      k.strings s,
      l.strings s,
      count-cons s x.payload (payloads msgs),
      count-cons s (g.msg r).payload [],
      count-nil s,
      ap (count s) t.strings,
      ap (λ (y : Msg). to_nat (y.payload == s)) t.message,
    );
  }

  strings_left :
      (x : Msg) (msgs : List Msg) (h : Heap) (r : Ptr) (g g' : Heap)
      → ((s : Sds) → count s (payloads (x ∷ msgs)) ≤ count s h.strings)
      → Released (r ∷ []) ((g.msg r).payload ∷ []) g g'
      → g.msg r ≡ x
      → g.strings ≡ h.strings
      → (s : Sds) → count s (payloads msgs) ≤ count s g'.strings
  strings_left x msgs h r g g' live k message strings s = omega (
    arith,
    live s,
    k.strings s,
    count-cons s x.payload (payloads msgs),
    count-cons s (g.msg r).payload [],
    count-nil s,
    ap (count s) strings,
    ap (λ (y : Msg). to_nat (y.payload == s)) message,
  )

  drained_rest :
      (fuel : ℕ) (m : Ptr) (x : Msg) (ms : List Ptr) (msgs : List Msg) (h : Heap) (q : DList)
      (r : Ptr) (q' : DList) (g : Heap)
      → MailRep q (m ∷ ms) (x ∷ msgs) h
      → ((s : Sds) → count s (payloads (x ∷ msgs)) ≤ count s h.strings)
      → Taken h m x ms msgs r q' g
      → ((g' : Heap)
          → MailRep q' ms msgs g'
          → ((s : Sds) → count s (payloads msgs) ≤ count s g'.strings)
          → Surely (Released ms (payloads msgs) g') (free_mailbox sdsfree fuel q' g'))
      → Surely
          (Released (m ∷ ms) (x.payload ∷ payloads msgs) h)
          (and_then (sherry_msg_free sdsfree r g) λ g'. free_mailbox sdsfree fuel q' g')
  drained_rest fuel m x ms msgs h q r q' g rep live t rest =
      let first_real : m ≢ null = λ z. ground (arith, rep.real, count-cons null m ms, z) in
      let real : r ≢ null = λ z. first_real (sym t.address ∙ z) in
      let block : 0 < count r g.blocks =
        rw (t.address, t.blocks) (ground (arith, rep.live m, count-cons m m ms)) in
      let string : 0 < count (g.msg r).payload g.strings =
        rw (t.message, t.strings)
          (ground (arith, live x.payload, count-cons x.payload x.payload (payloads msgs))) in
      Surely-then
        (λ g'.
          Released (r ∷ []) ((g.msg r).payload ∷ []) g g' × (g'.nodes ≡ g.nodes) × (g'.msg ≡ g.msg))
        (Released (m ∷ ms) (x.payload ∷ payloads msgs) h) (sherry_msg_free sdsfree r g)
        (free_mailbox sdsfree fuel q')
        (sherry_msg_free-Released sdsfree frees r g real block string)
        (λ g' (k, n, c).
          Surely-map (Released ms (payloads msgs) g')
            (Released (m ∷ ms) (x.payload ∷ payloads msgs) h) (free_mailbox sdsfree fuel q' g')
            (rest g' (message_gone m x ms msgs h r q q' g g' rep t k n c)
              (strings_left x msgs h r g g' live k t.message t.strings))
            (λ g'' l. cons-Released m x ms msgs h r q' g g' g'' t k l))

  -- The mailbox is drained.
  free_mailbox-Released :
      (fuel : ℕ) (q : DList) (ms : List Ptr) (msgs : List Msg) (h : Heap)
      → MailRep q ms msgs h
      → ((s : Sds) → count s (payloads msgs) ≤ count s h.strings)
      → length ms < fuel
      → Surely (Released ms (payloads msgs) h) (free_mailbox sdsfree fuel q h)
  unfolding free_mailbox
  free_mailbox-Released zero q ms msgs h rep live lt = absurd (omega arith)
  free_mailbox-Released (suc fuel) q [] [] h rep live lt = rw rep.linked.head (record {
    blocks = λ a. omega (arith, count-nil a);
    strings = λ t. omega (arith, count-nil t);
  })
  free_mailbox-Released (suc fuel) q [] (x ∷ msgs) h rep live lt = absurd (nil_cons rep.held)
  free_mailbox-Released (suc fuel) q (m ∷ ms) [] h rep live lt = absurd (nil_cons (sym rep.held))
  free_mailbox-Released (suc fuel) q (m ∷ ms) (x ∷ msgs) h rep live lt =
      let full : (q.head == null) ≡ false = ground (arith, rep.linked.head) in
      rw full (
        Surely-then (λ r. Taken h m x ms msgs r.0 r.1 r.2)
          (Released (m ∷ ms) (x.payload ∷ payloads msgs) h) (recv_at q h)
          (λ (r, q', g).
            and_then (sherry_msg_free sdsfree r g) λ g'. free_mailbox sdsfree fuel q' g')
          (recv_at-Received h q (m ∷ ms) (x ∷ msgs) rep)
          (λ (r, q', g) t.
            drained_rest fuel m x ms msgs h q r q' g rep live t (λ g' mail some_strings.
              free_mailbox-Released fuel q' ms msgs g' mail some_strings (omega (arith, lt)))))

  -- For an actor in a live block whose mailbox links messages in other live blocks with live
  -- strings, and a `sdsfree` that frees a live string, `free_actor` ends, with more fuel than the
  -- mailbox has messages, and does not fault: it gives back the actor's block, and the block and
  -- the string of every message, each once and nothing else.
  pub free_actor-Released :
      (fuel p : ℕ) (q : DList) (ms : List Ptr) (msgs : List Msg) (h : Heap)
      → MailRep q ms msgs h
      → p ≢ null
      → ((a : Ptr) → count a (p ∷ ms) ≤ count a h.blocks)
      → ((s : Sds) → count s (payloads msgs) ≤ count s h.strings)
      → length ms < fuel
      → Surely (Released (p ∷ ms) (payloads msgs) h) (free_actor sdsfree fuel (p + stack_size) q h)
  unfolding free_actor
  free_actor-Released fuel p q ms msgs h rep ne live strings lt =
      let back : p + stack_size - stack_size ≡ p = omega arith in
      rw back (
        Surely-then (Released ms (payloads msgs) h) (Released (p ∷ ms) (payloads msgs) h)
          (free_mailbox sdsfree fuel q h) (srfree p)
          (free_mailbox-Released fuel q ms msgs h rep strings lt)
          (λ g k.
            Surely-map (Freed p g) (Released (p ∷ ms) (payloads msgs) h) (srfree p g)
              (srfree-Freed p g (ground (arith, k.blocks p, live p, count-cons p p ms)))
              (λ g' f. record {
                blocks = λ a. ground (arith, f.fewer a, k.blocks a, count-cons a p ms, ne);
                strings = λ s. omega (arith, k.strings s, ap (count s) f.strings);
              })))
