-- ===== src/Frame/Writes.antt =====
-- The ends of a turn, and what blocks an actor.
use sherry.Base.{
  ℕ, ℤ, Option, none, some, List, [], ◌∷◌, ◌++◌, is_neg, is_zero, not, ltb, ◌==◌, erase, length,
  set, Bool-cases, inl, inr, if◌then◌else◌,
}
use sherry.Actor.{Ptr, Sds, Msg, Status, Prog, Point, after_main, in_exit, is_wait_msg}
use sherry.Uv.{Uv}
use sherry.Sched.{Fd, Sched, setready, unreg_actor}
use sherry.Switch.{current, yield, sherry_yield}
use sherry.Message.{wake, post, deliver, recv_begin, recv_end}
use sherry.Net.{waitq, put_waitq, ev_read, block_fd, read_begin, write_begin}
use sherry.Step.{finish, exit_round}
use sherry.Queues.{Holds}
use sherry.Frame.{set_status, Frame, FdFrame, TableFrame, FullFrame}

module _ {Loop : Type 0} (R : Sched Loop → Sched Loop → Type 0) where
  module _ (f : Frame R) where
    pub loop-Frame : (l : Loop) (s : Sched Loop) → R s (record s { loop = l })
    loop-Frame l s = f.outside s.requests s.waitingmsg l s.printed s

    pub sherry_yield-Frame : (pt : Point) (s : Sched Loop) → R s (sherry_yield pt s).sche
    unfolding sherry_yield
    sherry_yield-Frame pt s =
        let t = setready s.running s in
        f.after s t (yield pt t).sche (f.ready s.running s) (f.context pt t)

    pub recv_begin-Frame :
        (ms : List Msg) (k : Option Msg → Prog) (s : Sched Loop) → R s (recv_begin ms k s).sche
    unfolding recv_begin
    recv_begin-Frame [] k s =
        let t = set_status Status.wait_msg s in
        let u = record t { waitingmsg = s.waitingmsg ++ s.running ∷ [] } in
        f.after s u (yield (Point.after_recv k) u).sche
          (f.after s t u (f.status Status.wait_msg s)
            (f.outside t.requests (s.waitingmsg ++ s.running ∷ []) t.loop t.printed t))
          (f.context (Point.after_recv k) u)
    recv_begin-Frame (m ∷ ms) k s = f.same s

    pub write_begin-Frame :
        (uv : Uv Loop) (p : Ptr) (bs : List ℕ) (k : ℕ → Prog) (s : Sched Loop)
        → R s (write_begin uv p bs k s).sche
    unfolding write_begin
    write_begin-Frame uv p bs k s =
        let r = uv.write p bs s.loop in
        let held = if is_neg r.0 then s.requests else s.requests ++ s.running ∷ [] in
        let t = set_status Status.wait_ev s in
        let u = record t { requests = held; loop = r.1 } in
        f.after s u (yield (Point.after_write (length bs) k) u).sche
          (f.after s t u (f.status Status.wait_ev s) (f.outside held t.waitingmsg r.1 t.printed t))
          (f.context (Point.after_write (length bs) k) u)

    pub read_begin-Frame :
        (uv : Uv Loop) (p : Ptr) (n : ℕ) (k : ℤ → List ℕ → Prog) (s : Sched Loop)
        → R s (read_begin uv p n k s).sche
    unfolding read_begin
    read_begin-Frame uv p n k s =
        let r = uv.read_start p s.loop in
        elim (Bool-cases (not (is_zero r.0))) [
          | inl e ↦ rw e (loop-Frame r.1 s)
          | inr e ↦ rw e (loop-Frame r.1 s)
        ]

    pub wake-Frame : (p : Ptr) (s : Sched Loop) → R s (wake p s)
    unfolding wake
    wake-Frame p s = elim (Bool-cases (is_wait_msg (s.actor p).status)) [
      | inl e ↦
          let t = record s { waitingmsg = erase p s.waitingmsg } in
          rw e (
            f.after s t (setready p t)
              (f.outside s.requests (erase p s.waitingmsg) s.loop s.printed s) (f.ready p t))
      | inr e ↦ rw e (f.same s)
    ]

  module _ (w : FdFrame R) where
    pub block_fd-Frame :
        (p : Ptr) (fd : Fd) (pt : Point) (s : Sched Loop) → R s (block_fd p fd pt s).sche
    unfolding block_fd
    block_fd-Frame p fd pt s =
        let t = set_status Status.wait_ev s in
        let fd' = put_waitq ev_read (waitq ev_read fd ++ s.running ∷ []) fd in
        let u = record t { fds = set t.fds p (some fd') } in
        w.frame.after s u (yield pt u).sche
          (w.frame.after s t u (w.frame.status Status.wait_ev s) (w.fds (set t.fds p (some fd')) t))
          (w.frame.context pt u)

  module _ (g : TableFrame R) where
    pub finish-Frame : (s : Sched Loop) → R s (finish s).sche
    unfolding finish
    finish-Frame s = elim (Bool-cases (s.running == s.main)) [
      | inl e ↦ rw e (g.frame.same s)
      | inr e ↦
          let t = unreg_actor (current s).aid s in
          rw e (
            g.frame.after s t (yield after_main t).sche (g.unreg (current s).aid s)
              (g.frame.context after_main t))
    ]

    pub exit_round-Frame : (s : Sched Loop) → R s (exit_round s).sche
    unfolding exit_round
    exit_round-Frame s = elim (Bool-cases (ltb 1 s.curractors)) [
      | inl e ↦ rw e (sherry_yield-Frame g.frame in_exit s)
      | inr e ↦ rw e (g.unreg (s.actor s.main).aid s)
    ]

  module _ (h : FullFrame R) where
    pub recv_end-Frame :
        (ms : List Msg) (k : Option Msg → Prog) (s : Sched Loop) → R s (recv_end ms k s).sche
    unfolding recv_end
    recv_end-Frame [] k s = h.table.frame.same s
    recv_end-Frame (m ∷ ms) k s = h.taken ms s

    pub deliver-Frame :
        (ty : ℤ) (payload : Sds) (o : Option Ptr) (s : Sched Loop)
        → Holds (R s) (deliver ty payload o s)
    unfolding deliver
    deliver-Frame ty payload none s = tt
    deliver-Frame ty payload (some p) s =
        let t = post ty payload p s in
        h.table.frame.after s t (wake p t) (h.posted ty payload p s) (wake-Frame h.table.frame p t)
