-- ===== src/Mail/Untouched.antt =====
-- All operations but `sherry_msg_send` and the end of `sherry_msg_recv` keep the mailboxes.
use sherry.Base.{ℤ, refl, ◌∙◌, Option, List, [], ◌∷◌, arith}
use sherry.Actor.{Ptr, Prog}
use sherry.Uv.{Uv}
use sherry.Sched.{
  Sched, alloc_actor, reg_actor, slot, clear_slot, unreg_actor, setready, setrunning,
}
use sherry.Switch.{sherry_spawn}
use sherry.Step.{schdule}
use sherry.Queues.{Holds}
use sherry.Frame.{FdFrame-WakeFrame, Frame, FdFrame, TableFrame}
use sherry.Frame.Callbacks.{idle_round-Frame}
use sherry.Mail.{Kept}

module _ {Loop : Type 0} where
  pub Kept-refl : (s : Sched Loop) → Kept s s
  Kept-refl s = record { boxes = λ p h. refl; grows = omega arith }

  pub Kept-trans : (s t u : Sched Loop) → Kept s t → Kept t u → Kept s u
  Kept-trans s t u k l = record {
    boxes = λ p h. l.boxes p (omega (arith, k.grows)) ∙ k.boxes p h;
    grows = omega (arith, k.grows, l.grows);
  }

  setready-Kept : (p : Ptr) (s : Sched Loop) → Kept s (setready p s)
  unfolding setready
  setready-Kept p s = record { boxes = λ q h. ground arith; grows = ground arith }

  setrunning-Kept : (p : Ptr) (s : Sched Loop) → Kept s (setrunning p s)
  unfolding setrunning
  setrunning-Kept p s = record { boxes = λ q h. ground arith; grows = ground arith }

  pub sherry_spawn-Kept : (f : Prog) (s : Sched Loop) → Kept s (sherry_spawn f s).1
  unfolding sherry_spawn setready reg_actor alloc_actor
  sherry_spawn-Kept f s = record { boxes = λ q h. ground arith; grows = ground arith }

  clear_slot-Kept :
      (rid : ℤ) (o : Option (Option Ptr)) (s : Sched Loop) → Kept s (clear_slot rid o s)
  unfolding clear_slot
  clear_slot-Kept rid o s = record { boxes = λ q h. ground arith; grows = ground arith }

  unreg_actor-Kept : (rid : ℤ) (s : Sched Loop) → Kept s (unreg_actor rid s)
  unfolding unreg_actor
  unreg_actor-Kept rid s = clear_slot-Kept rid (slot rid s) s

  -- The writes of the operations that send and receive nothing.
  pub Kept-Frame : Frame {Loop = Loop} Kept
  Kept-Frame = record {
    same = Kept-refl;
    after = Kept-trans;
    ready = setready-Kept;
    status = λ st s. record { boxes = λ q h. ground arith; grows = omega arith };
    context = λ pt s. record { boxes = λ q h. ground arith; grows = omega arith };
    outside = λ rs ws l out s. record { boxes = λ q h. refl; grows = omega arith };
  }

  pub Kept-FdFrame : FdFrame {Loop = Loop} Kept
  Kept-FdFrame = record {
    frame = Kept-Frame;
    fds = λ fds s. record { boxes = λ q h. refl; grows = omega arith };
  }

  pub Kept-TableFrame : TableFrame {Loop = Loop} Kept
  Kept-TableFrame = record { frame = Kept-Frame; unreg = unreg_actor-Kept }

  pub schdule-Kept :
      (uv : Uv Loop) (ps : List Ptr) (s : Sched Loop) → Holds (λ m. Kept s m.sche) (schdule uv ps s)
  unfolding schdule
  schdule-Kept uv [] s = idle_round-Frame Kept (FdFrame-WakeFrame Kept Kept-FdFrame) uv s
  schdule-Kept uv (p ∷ ps) s =
      let k = setrunning-Kept p (record s { readyq = ps }) in
      record { boxes = k.boxes; grows = k.grows }
