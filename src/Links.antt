-- ===== src/Links.antt =====
-- The scheduler's queues as memory holds them: sherry.c, lines 353 to 390, 445 to 449, 457 to 463 and 525 to
-- 531. An actor is the address of its structure and hangs in a queue by the node in it; the files
-- Sched, Message and Net stand one level above, with lists of actors in the place of these queues.
pub mod Places
pub mod Refine
pub mod Wake
pub mod Unblock
pub mod Block
mod Tests
use sherry.Base.{ℕ, zero, suc, ◌+◌, Option, none, some, ◌==◌, if◌then◌else◌, and_then}
use sherry.Actor.{Status, is_ready, is_wait_msg}
use sherry.Dll.{Ptr, null, DList, Nodes, list_empty, list_enqueue, list_dequeue, list_erase}
use sherry.Memory.{get_cont}

-- offsetof(struct actor, node), on x86-64
abbrev pub actor_node : ℕ
actor_node = 104

pub record Links : Type 0 where
  pub nodes : Nodes
  pub status : Ptr → Status  -- of the `struct actor` at an address
  pub running : Ptr
  pub readyq : DList
  pub waitingmsg : DList

abbrev pub put_status : Ptr → Status → Links → Links
put_status a t l = record l { status = λ b. if a == b then t else l.status b }

unfoldable pub setready_at : Ptr → Links → Option Links
setready_at a l =
    let r = list_enqueue l.readyq (a + actor_node) l.nodes in
    if is_ready (l.status a)
    then some l
    else and_then r λ (q, g). some (record (put_status a Status.ready l) { readyq = q; nodes = g })

-- The end of `sherry_msg_send`
unfoldable pub wake_at : Ptr → Links → Option Links
wake_at a l =
    let r =
      and_then (list_erase l.waitingmsg (a + actor_node) l.nodes)
        λ (next, q, g). setready_at a (record l { waitingmsg = q; nodes = g }) in
    if is_wait_msg (l.status a) then r else some l

-- `sherry_msg_recv` where the mailbox is empty, up to its `yield`
unfoldable pub wait_msg_at : Links → Option Links
wait_msg_at l =
    let a = l.running in
    and_then (list_enqueue l.waitingmsg (a + actor_node) l.nodes)
      λ (q, g). some (record (put_status a Status.wait_msg l) { waitingmsg = q; nodes = g })

-- `block_fd` up to its `yield`, on a wait queue
unfoldable pub block_at : DList → Links → Option (DList × Links)
block_at q l =
    let a = l.running in
    and_then (list_enqueue q (a + actor_node) l.nodes)
      λ (q', g). some (q', record (put_status a Status.wait_ev l) { nodes = g })

-- `unblock_all`; `none` also where the fuel runs out.
unfoldable pub unblock_all_at : ℕ → DList → Links → Option (DList × Links)
unblock_all_at zero q l = none
unblock_all_at (suc fuel) q l =
    let rest = and_then (list_dequeue q l.nodes) λ (node, q', g).
      and_then (setready_at (get_cont node actor_node) (record l { nodes = g }))
        λ l'. unblock_all_at fuel q' l' in
    if list_empty q then some (q, l) else rest

-- The head of the loop in `schdule`, behind the dequeue: an actor that is not NULL runs.
abbrev pub run_next : Links → Ptr × DList × Nodes → Ptr × Links
run_next l (node, q, g) =
    let a = get_cont node actor_node in
    let l' = record l { readyq = q; nodes = g } in
    (a, if a == null then l' else put_status a Status.running (record l' { running = a }))

unfoldable pub next_at : Links → Option (Ptr × Links)
next_at l = and_then (list_dequeue l.readyq l.nodes) λ r. some (run_next l r)
