-- ===== src/Memory.antt =====
-- Who owns which memory: sherry.c, lines 28 to 51, 202 to 285, 430 to 467, 510 to 514, 580 to 609 and
-- 660 to 701. The heap is the list of the blocks that malloc has given and nobody has freed,
-- the list of the strings of sds that are live, the list nodes and the messages; the addresses that
-- malloc gives are arguments, NULL where it fails. `none` is a free of a block that is not live, or a
-- write through NULL.
pub mod Counted
pub mod Mailbox
pub mod Release
pub mod Drain
pub mod Buffers
pub mod Life
pub mod Valgrind
mod Tests
use sherry.Base.{
  ℕ, zero, suc, ◌+◌, ◌-◌, ◌*◌, ℤ, is_neg, is_zero, ◌||◌, Option, none, some, List, [], ◌∷◌, ◌==◌,
  if◌then◌else◌, count, erase, and_then,
}
use sherry.Actor.{Sds, Msg}
use sherry.Dll.{Ptr, null, DList, Nodes, list_empty, list_enqueue, list_dequeue, update}

pub record Heap : Type 0 where
  pub blocks : List Ptr
  pub strings : List Sds
  pub nodes : Nodes
  pub msg : Ptr → Msg  -- the contents of the `struct msg_node` at an address

-- `srmalloc`, where malloc gives `p`: NULL if it fails.
unfoldable pub srmalloc : Ptr → Heap → Ptr × Heap
srmalloc p h = if p == null then (null, h) else (p, record h { blocks = p ∷ h.blocks })

-- An allocation whose result is written to without a check: a fault if malloc fails.
unfoldable pub written_malloc : Ptr → Heap → Option (Ptr × Heap)
written_malloc p h = let r = srmalloc p h in if r.0 == null then none else some r

-- `srfree`; the free of NULL does nothing.
unfoldable pub srfree : Ptr → Heap → Option Heap
srfree p h =
    if p == null
    then some h
    else if count p h.blocks == 0
    then none
    else some (record h { blocks = erase p h.blocks })

-- `srrealloc`, where realloc gives `q`: NULL if it fails, and then the old block stays.
unfoldable pub srrealloc : Ptr → Ptr → Heap → Option (Ptr × Heap)
srrealloc p q h =
    if q == null then some (null, h) else and_then (srfree p h) λ g. some (srmalloc q g)

-- `get_cont`: from a member to the structure around it
unfoldable pub get_cont : Ptr → (offset : ℕ) → Ptr
get_cont p offset = if p == null then null else p - offset

abbrev pub stack_size : ℕ
stack_size = 10 * 4096

-- An actor stands behind its stack: `new_actor` gives the end of the stack in the block `p`, and
-- `actor_stack` its start.
unfoldable pub new_actor_at : Ptr → Heap → Option (Ptr × Heap)
new_actor_at p h = and_then (written_malloc p h) λ (q, g). some (q + stack_size, g)

unfoldable pub actor_stack : Ptr → Ptr
actor_stack a = a - stack_size

-- offsetof(struct msg_node, node), behind three ints, their padding and a pointer
abbrev pub node_offset : ℕ
node_offset = 24

-- `sherry_msg_send`, up to the wake of the receiver: the message at `m`, a block of malloc, joins the mailbox.
unfoldable pub send_at : Ptr → Msg → DList → Heap → Option (DList × Heap)
send_at m msg mailbox h = and_then (written_malloc m h) λ (p, h').
    let node = p + node_offset in
    let nodes = update h'.nodes node (record { prev = null; next = null }) in
    and_then (list_enqueue mailbox node nodes)
      λ (q, g). some (q, record h' { nodes = g; msg = λ a. if a == p then msg else h.msg a })

-- `sherry_msg_recv`, behind its `yield`: the address of the oldest message, NULL without one
unfoldable pub recv_at : DList → Heap → Option (Ptr × DList × Heap)
recv_at mailbox h =
    and_then (list_dequeue mailbox h.nodes)
      λ (node, q, g). some (get_cont node node_offset, q, record h { nodes = g })

-- How `sdsfree` takes a string from those that are live is not the library's.
abbrev pub SdsFree : Type 0
SdsFree = Sds → List Sds → Option (List Sds)

module _ (sdsfree : SdsFree) where
  unfoldable pub sherry_msg_free : Ptr → Heap → Option Heap
  sherry_msg_free m h =
      and_then (sdsfree (h.msg m).payload h.strings) λ ss. srfree m (record h { strings = ss })

  -- The loop of `free_actor`; `none` also where the fuel runs out.
  unfoldable pub free_mailbox : ℕ → DList → Heap → Option Heap
  free_mailbox zero mailbox h = none
  free_mailbox (suc fuel) mailbox h =
      let rest =
        and_then (recv_at mailbox h)
          λ (m, q, g). and_then (sherry_msg_free m g) λ g'. free_mailbox fuel q g' in
      if list_empty mailbox then some h else rest

  unfoldable pub free_actor : ℕ → Ptr → DList → Heap → Option Heap
  free_actor fuel a mailbox h = and_then (free_mailbox fuel mailbox h) (srfree (a - stack_size))

-- `fd->rbuf.base` in the course of the callbacks: `rbuf_alloc` takes a block of malloc, and `read_cb` keeps it
-- in place of the old one, or frees it.
unfoldable pub rbuf_alloc : Ptr → ℕ → Heap → (Ptr × ℕ) × Heap
rbuf_alloc p suggested_size h = let r = srmalloc p h in ((r.0, suggested_size), r.1)

unfoldable pub read_cb_at : ℤ → Ptr → Ptr → Heap → Option (Ptr × Heap)
read_cb_at nread buf base h =
    if is_neg nread || is_zero nread
    then (and_then (srfree buf h) λ g. some (base, g))
    else and_then (srfree base h) λ g. some (buf, g)

-- `fdfree`, of the file descriptor at `fd` with the buffer `base`
unfoldable pub fdfree_at : Ptr → Ptr → Heap → Option Heap
fdfree_at fd base h = and_then (srfree base h) (srfree fd)

-- The blocks that `sherry_init` takes: the scheduler, its array, `main` and the stack of `schdule`.
pub record Blocks : Type 0 where
  pub sche : Ptr
  pub actors : Ptr
  pub main : Ptr
  pub tmpstack : Ptr

unfoldable pub init_blocks : Blocks → Heap → Option Heap
init_blocks b h = and_then (written_malloc b.sche h) λ s.
    and_then (written_malloc b.actors s.1) λ a.
      and_then (new_actor_at b.main a.1) λ m. and_then (written_malloc b.tmpstack m.1) λ t. some t.1

-- What `sherry_exit` frees behind its loop.
unfoldable pub exit_blocks : Blocks → Heap → Option Heap
exit_blocks b h = and_then (srfree b.actors h) λ g. and_then (srfree b.tmpstack g) (srfree b.sche)
