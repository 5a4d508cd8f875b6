-- ===== src/Owns/Others.antt =====
-- A call moves no actor but the running one to another place in its code, and a callback none.
use sherry.Base.{◌≡◌, ◌≢◌, refl, ◌∙◌, ℤ, Option, arith}
use sherry.Actor.{Ptr}
use sherry.Sched.{Sched, setready, slot, clear_slot, unreg_actor}
use sherry.Message.{post}
use sherry.Frame.{Frame, FdFrame, WakeFrame, FullFrame}

pub record Others {Loop : Type 0} (s t : Sched Loop) : Type 0 where
  pub contexts : (a : Ptr) → a ≢ s.running → (t.actor a).ctx ≡ (s.actor a).ctx
  pub functions : (a : Ptr) → (t.actor a).fn ≡ (s.actor a).fn
  pub runs : t.running ≡ s.running
  pub same_next : t.next_actor ≡ s.next_actor

pub record Unmoved {Loop : Type 0} (s t : Sched Loop) : Type 0 where
  pub contexts : (a : Ptr) → (t.actor a).ctx ≡ (s.actor a).ctx
  pub functions : (a : Ptr) → (t.actor a).fn ≡ (s.actor a).fn
  pub same_next : t.next_actor ≡ s.next_actor

module _ {Loop : Type 0} where
  Others-trans : (s t u : Sched Loop) → Others s t → Others t u → Others s u
  Others-trans s t u d e = record {
    contexts = λ a ne. e.contexts a (λ z. ne (z ∙ d.runs)) ∙ d.contexts a ne;
    functions = λ a. e.functions a ∙ d.functions a;
    runs = e.runs ∙ d.runs;
    same_next = e.same_next ∙ d.same_next;
  }

  setready-Unmoved : (p : Ptr) (s : Sched Loop) → Unmoved s (setready p s)
  unfolding setready
  setready-Unmoved p s = record {
    contexts = λ a. ground arith;
    functions = λ a. ground arith;
    same_next = ground arith;
  }

  setready-Others : (p : Ptr) (s : Sched Loop) → Others s (setready p s)
  unfolding setready
  setready-Others p s = record {
    contexts = λ a ne. ground arith;
    functions = λ a. ground arith;
    runs = ground arith;
    same_next = ground arith;
  }

  clear_slot-Others :
      (id : ℤ) (o : Option (Option Ptr)) (s : Sched Loop) → Others s (clear_slot id o s)
  unfolding clear_slot
  clear_slot-Others id o s = record {
    contexts = λ a ne. ground arith;
    functions = λ a. ground arith;
    runs = ground arith;
    same_next = ground arith;
  }

  unreg_actor-Others : (id : ℤ) (s : Sched Loop) → Others s (unreg_actor id s)
  unfolding unreg_actor
  unreg_actor-Others id s = clear_slot-Others id (slot id s) s

  Others-Frame : Frame {Loop = Loop} Others
  Others-Frame = record {
    same = λ s. record {
      contexts = λ a ne. refl;
      functions = λ a. refl;
      runs = refl;
      same_next = refl;
    };
    after = Others-trans;
    ready = setready-Others;
    status = λ st s. record {
      contexts = λ a ne. ground (arith, ne);
      functions = λ a. ground arith;
      runs = refl;
      same_next = refl;
    };
    context = λ pt s. record {
      contexts = λ a ne. ground (arith, ne);
      functions = λ a. ground arith;
      runs = refl;
      same_next = refl;
    };
    outside = λ rs ws l out s. record {
      contexts = λ a ne. refl;
      functions = λ a. refl;
      runs = refl;
      same_next = refl;
    };
  }

  pub Others-FdFrame : FdFrame {Loop = Loop} Others
  Others-FdFrame = record {
    frame = Others-Frame;
    fds = λ fds s. record {
      contexts = λ a ne. refl;
      functions = λ a. refl;
      runs = refl;
      same_next = refl;
    };
  }

  pub Others-FullFrame : FullFrame {Loop = Loop} Others
  unfolding post
  Others-FullFrame = record {
    table = record { frame = Others-Frame; unreg = unreg_actor-Others };
    posted = λ ty payload p s. record {
      contexts = λ a ne. ground arith;
      functions = λ a. ground arith;
      runs = refl;
      same_next = refl;
    };
    taken = λ ms s. record {
      contexts = λ a ne. ground arith;
      functions = λ a. ground arith;
      runs = refl;
      same_next = refl;
    };
  }

  pub Unmoved-WakeFrame : WakeFrame {Loop = Loop} Unmoved
  Unmoved-WakeFrame = record {
    same = λ s. record { contexts = λ a. refl; functions = λ a. refl; same_next = refl };
    after = λ s t u d e. record {
      contexts = λ a. e.contexts a ∙ d.contexts a;
      functions = λ a. e.functions a ∙ d.functions a;
      same_next = e.same_next ∙ d.same_next;
    };
    ready = setready-Unmoved;
    outside =
        λ rs ws l out s. record { contexts = λ a. refl; functions = λ a. refl; same_next = refl };
    fds = λ fds s. record { contexts = λ a. refl; functions = λ a. refl; same_next = refl };
  }
