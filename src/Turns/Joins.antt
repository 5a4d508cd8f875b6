-- ===== src/Turns/Joins.antt =====
-- All that an actor does leaves the ready queue as it is, or puts actors at its end.
use sherry.Base.{
  ℤ, refl, ap, sym, ◌≡◌, ◌∙◌, Option, [], ◌∷◌, ◌++◌, append-nil, append_assoc, arith, if◌then◌else◌,
}
use sherry.Actor.{Ptr, Prog, is_ready}
use sherry.Sched.{Sched, alloc_actor, reg_actor, slot, clear_slot, unreg_actor, setready, put_actor}
use sherry.Switch.{current, yield, sherry_spawn}
use sherry.Message.{post}
use sherry.Frame.{put_outside, set_status, Frame, FdFrame, FullFrame}
use sherry.Turns.{Joined}

module _ {Loop : Type 0} where
  pub Joined-refl : (s : Sched Loop) → Joined s s
  Joined-refl s = record { new = []; queue = sym (append-nil s.readyq) }

  pub Joined-trans : (s t u : Sched Loop) → Joined s t → Joined t u → Joined s u
  Joined-trans s t u k l = record {
    new = k.new ++ l.new;
    queue = l.queue ∙ ap (λ ps. ps ++ l.new) k.queue ∙ append_assoc s.readyq k.new l.new;
  }

  -- The ready queue stays as it is.
  same-Joined : (s t : Sched Loop) → t.readyq ≡ s.readyq → Joined s t
  same-Joined s t e = record { new = []; queue = e ∙ sym (append-nil s.readyq) }

  setready-Joined : (p : Ptr) (s : Sched Loop) → Joined s (setready p s)
  unfolding setready
  setready-Joined p s = record {
    new = if is_ready (s.actor p).status then [] else p ∷ [];
    queue = ground (arith, append-nil s.readyq);
  }

  pub sherry_spawn-Joined : (f : Prog) (s : Sched Loop) → Joined s (sherry_spawn f s).1
  unfolding sherry_spawn reg_actor alloc_actor
  sherry_spawn-Joined f s =
      let k = setready-Joined s.next_actor (reg_actor s.next_actor (alloc_actor f s)) in
      record { new = k.new; queue = k.queue }

  clear_slot-Joined :
      (rid : ℤ) (o : Option (Option Ptr)) (s : Sched Loop) → Joined s (clear_slot rid o s)
  unfolding clear_slot
  clear_slot-Joined rid o s = same-Joined s (clear_slot rid o s) (ground arith)

  unreg_actor-Joined : (rid : ℤ) (s : Sched Loop) → Joined s (unreg_actor rid s)
  unfolding unreg_actor
  unreg_actor-Joined rid s = clear_slot-Joined rid (slot rid s) s

  -- The writes of every operation.
  Joined-Frame : Frame {Loop = Loop} Joined
  Joined-Frame = record {
    same = Joined-refl;
    after = Joined-trans;
    ready = setready-Joined;
    status = λ st s. same-Joined s (set_status st s) refl;
    context = λ pt s. same-Joined s (yield pt s).sche refl;
    outside = λ rs ws l out s. same-Joined s (put_outside rs ws l out s) refl;
  }

  pub Joined-FdFrame : FdFrame {Loop = Loop} Joined
  Joined-FdFrame = record {
    frame = Joined-Frame;
    fds = λ fds s. same-Joined s (record s { fds = fds }) refl;
  }

  pub Joined-FullFrame : FullFrame {Loop = Loop} Joined
  unfolding post
  Joined-FullFrame = record {
    table = record { frame = Joined-Frame; unreg = unreg_actor-Joined };
    posted = λ ty payload p s. same-Joined s (post ty payload p s) refl;
    taken =
        λ ms s. same-Joined s (put_actor s.running (record (current s) { mailbox = ms }) s) refl;
  }
