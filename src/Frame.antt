-- ===== src/Frame.antt =====
-- What holds between the state before and after the small writes of the scheduler holds between
-- the state before and after every operation that is made of them: an interface, `Frame`, and what
-- follows from it for the calls and the callbacks of sherry.c, lines 353 to 658.
pub mod Writes
pub mod Callbacks
pub mod Calls
pub mod Exec
use sherry.Base.{ℕ, ℤ, Option, List}
use sherry.Actor.{Ptr, Msg, Sds, Status, Prog, Point, Actor}
use sherry.Sched.{Fd, Sched, put_actor, setready, unreg_actor}
use sherry.Switch.{current, yield, sherry_spawn}
use sherry.Message.{post}

module _ {Loop : Type 0} where
  -- The parts of the state that are no actor, no file descriptor and no queue of ready actors.
  abbrev pub put_outside : List Ptr → List Ptr → Loop → List (ℕ × ℕ) → Sched Loop → Sched Loop
  put_outside requests waitingmsg loop printed s = record s {
    requests = requests;
    waitingmsg = waitingmsg;
    loop = loop;
    printed = printed;
  }

  abbrev pub set_status : Status → Sched Loop → Sched Loop
  set_status st s = put_actor s.running (record (current s) { status = st }) s

  -- A relation that the writes of a turn keep.
  pub record Frame (R : Sched Loop → Sched Loop → Type 0) : Type 0 where
    pub same : (s : Sched Loop) → R s s
    pub after : (s t u : Sched Loop) → R s t → R t u → R s u
    pub ready : (p : Ptr) (s : Sched Loop) → R s (setready p s)
    pub status : (st : Status) (s : Sched Loop) → R s (set_status st s)
    pub context : (pt : Point) (s : Sched Loop) → R s (yield pt s).sche
    pub outside :
        (requests waitingmsg : List Ptr) (loop : Loop) (printed : List (ℕ × ℕ)) (s : Sched Loop)
        → R s (put_outside requests waitingmsg loop printed s)

  -- Those of the file descriptors, too.
  pub record FdFrame (R : Sched Loop → Sched Loop → Type 0) : Type 0 where
    pub frame : Frame R
    pub fds : (fds : List (Option Fd)) (s : Sched Loop) → R s (record s { fds = fds })

  -- Those of the callbacks alone, which write no context.
  pub record WakeFrame (R : Sched Loop → Sched Loop → Type 0) : Type 0 where
    pub same : (s : Sched Loop) → R s s
    pub after : (s t u : Sched Loop) → R s t → R t u → R s u
    pub ready : (p : Ptr) (s : Sched Loop) → R s (setready p s)
    pub outside :
        (requests waitingmsg : List Ptr) (loop : Loop) (printed : List (ℕ × ℕ)) (s : Sched Loop)
        → R s (put_outside requests waitingmsg loop printed s)
    pub fds : (fds : List (Option Fd)) (s : Sched Loop) → R s (record s { fds = fds })

  pub FdFrame-WakeFrame : (R : Sched Loop → Sched Loop → Type 0) → FdFrame R → WakeFrame R
  FdFrame-WakeFrame R w = record {
    same = w.frame.same;
    after = w.frame.after;
    ready = w.frame.ready;
    outside = w.frame.outside;
    fds = w.fds;
  }

  -- With `Frame`, those of the table.
  pub record TableFrame (R : Sched Loop → Sched Loop → Type 0) : Type 0 where
    pub frame : Frame R
    pub unreg : (id : ℤ) (s : Sched Loop) → R s (unreg_actor id s)

  -- Those of the mailboxes, too.
  pub record FullFrame (R : Sched Loop → Sched Loop → Type 0) : Type 0 where
    pub table : TableFrame R
    pub posted : (ty : ℤ) (payload : Sds) (p : Ptr) (s : Sched Loop) → R s (post ty payload p s)
    pub taken :
        (ms : List Msg) (s : Sched Loop)
        → R s (put_actor s.running (record (current s) { mailbox = ms }) s)
