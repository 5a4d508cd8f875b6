-- ===== src/Message.antt =====
-- Messages between actors: sherry.c, lines 426 to 467.
use sherry.Base.{ℤ, Option, none, some, List, [], ◌∷◌, ◌++◌, if◌then◌else◌, erase}
use sherry.Actor.{Ptr, Sds, Msg, Status, Prog, in_fn, after_recv, is_wait_msg}
use sherry.Sched.{Sched, put_actor, slot, deref, setready}
use sherry.Switch.{Machine, current, goes_on, yield}

module _ {Loop : Type 0} where
  -- A receiver that waits for a message is taken out of `waitingmsg` and made ready.
  unfoldable pub wake : Ptr → Sched Loop → Sched Loop
  wake p s =
      if is_wait_msg (s.actor p).status
      then setready p (record s { waitingmsg = erase p s.waitingmsg })
      else s

  -- The new message at the end of the receiver's mailbox.
  unfoldable pub post : ℤ → Sds → Ptr → Sched Loop → Sched Loop
  post msgtype payload p s =
      let msg : Msg = record {
        sender = (current s).aid;
        recver = (s.actor p).aid;
        msgtype = msgtype;
        payload = payload;
      } in
      put_actor p (record (s.actor p) { mailbox = (s.actor p).mailbox ++ msg ∷ [] }) s

  unfoldable pub deliver : ℤ → Sds → Option Ptr → Sched Loop → Option (Sched Loop)
  deliver msgtype payload none s = none
  deliver msgtype payload (some p) s = some (wake p (post msgtype payload p s))

  -- `none` is the fault of an id out of range, or of a slot that is NULL.
  unfoldable pub sherry_msg_send : ℤ → ℤ → Sds → Sched Loop → Option (Sched Loop)
  sherry_msg_send dst msgtype payload s = deliver msgtype payload (deref (slot dst s)) s

  -- `sherry_msg_recv` up to its `yield`, or to the end of the `if`.
  unfoldable pub recv_begin : List Msg → (Option Msg → Prog) → Sched Loop → Machine Loop
  recv_begin [] k s =
      let a = record (current s) { status = Status.wait_msg } in
      yield (after_recv k)
        (record (put_actor s.running a s) { waitingmsg = s.waitingmsg ++ s.running ∷ [] })
  recv_begin (m ∷ ms) k s = goes_on (after_recv k) s

  -- The rest of it: the oldest message, or NULL.
  unfoldable pub recv_end : List Msg → (Option Msg → Prog) → Sched Loop → Machine Loop
  recv_end [] k s = goes_on (in_fn (k none)) s
  recv_end (m ∷ ms) k s =
      goes_on (in_fn (k (some m))) (put_actor s.running (record (current s) { mailbox = ms }) s)
