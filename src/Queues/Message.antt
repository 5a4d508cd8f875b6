-- ===== src/Queues/Message.antt =====
-- Sending and receiving keep every actor where its status says.
use sherry.Base.{ℤ, ◌≡◌, refl, Option, none, some, List, [], ◌∷◌, arith, count-snoc, count-erase}
use sherry.Actor.{Ptr, Sds, Msg, Status, Prog}
use sherry.Sched.{Sched, setready, slot, deref}
use sherry.Switch.{current}
use sherry.Message.{wake, post, deliver, sherry_msg_send, recv_begin, recv_end}
use sherry.Queues.{At, Holds, Queued}
use sherry.Queues.Switch.{Placed, put_actor-Queued}

module _ {Loop : Type 0} where
  wake-At : (p q : Ptr) (s : Sched Loop) → At [] s p → At [] s q → At [] (wake p s) q
  unfolding wake setready
  wake-At p q s b a = ground (arith, count-snoc q s.readyq p, count-erase q p s.waitingmsg)

  wake-Queued : (p : Ptr) (s : Sched Loop) → Queued [] s → Queued [] (wake p s)
  unfolding wake setready
  wake-Queued p s v = record {
    place = λ q. wake-At p q s (v.place p) (v.place q);
    unused = λ q h. ground (arith, v.unused q, v.unused p);
  }

  wake-Active :
      (p : Ptr) (s : Sched Loop)
      → (current s).status ≡ Status.running
      → (current (wake p s)).status ≡ Status.running
  unfolding wake setready
  wake-Active p s run = ground arith

  post-Queued :
      (t : ℤ) (payload : Sds) (p : Ptr) (s : Sched Loop)
      → Queued [] s
      → Queued [] (post t payload p s)
  unfolding post
  post-Queued t payload p s v = record {
    place = λ q. ground (arith, v.place q);
    unused = λ q h. ground (arith, v.unused q);
  }

  post-Active :
      (t : ℤ) (payload : Sds) (p : Ptr) (s : Sched Loop)
      → (current s).status ≡ Status.running
      → (current (post t payload p s)).status ≡ Status.running
  unfolding post
  post-Active t payload p s run = ground arith

  deliver-Queued :
      (t : ℤ) (payload : Sds) (o : Option Ptr) (s : Sched Loop)
      → Queued [] s
      → (current s).status ≡ Status.running
      → Holds (λ s'. Queued [] s' × ((current s').status ≡ Status.running)) (deliver t payload o s)
  unfolding deliver
  deliver-Queued t payload none s v run = tt
  deliver-Queued t payload (some p) s v run = (
    wake-Queued p (post t payload p s) (post-Queued t payload p s v),
    wake-Active p (post t payload p s) (post-Active t payload p s run),
  )

  -- A message wakes its receiver at most, and the sender runs on.
  pub sherry_msg_send-Queued :
      (dst t : ℤ) (payload : Sds) (s : Sched Loop)
      → Queued [] s
      → (current s).status ≡ Status.running
      → Holds
          (λ s'. Queued [] s' × ((current s').status ≡ Status.running))
          (sherry_msg_send dst t payload s)
  unfolding sherry_msg_send
  sherry_msg_send-Queued dst t payload s = deliver-Queued t payload (deref (slot dst s)) s

  pub recv_begin-Placed :
      (ms : List Msg) (k : Option Msg → Prog) (s : Sched Loop)
      → Queued [] s
      → (current s).status ≡ Status.running
      → Placed (recv_begin ms k s)
  unfolding recv_begin
  recv_begin-Placed [] k s v run = record {
    queued = record {
      place =
          λ q. ground (arith, v.place q, v.place s.running, count-snoc q s.waitingmsg s.running);
      unused = λ q h. ground (arith, v.unused q, v.unused s.running);
    };
    active = tt;
  }
  recv_begin-Placed (m ∷ ms) k s v run = record { queued = v; active = run }

  pub recv_end-Placed :
      (ms : List Msg) (k : Option Msg → Prog) (s : Sched Loop)
      → Queued [] s
      → (current s).status ≡ Status.running
      → Placed (recv_end ms k s)
  unfolding recv_end
  recv_end-Placed [] k s v run = record { queued = v; active = run }
  recv_end-Placed (m ∷ ms) k s v run = record {
    queued = put_actor-Queued s.running (record (current s) { mailbox = ms }) [] s v refl;
    active = ground arith;
  }
