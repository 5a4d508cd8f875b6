-- ===== src/Resume/Message.antt =====
-- Sending and receiving: no wake-up is lost.
use sherry.Base.{ℤ, ◌≡◌, refl, false, Option, none, some, List, [], ◌∷◌, ◌++◌, arith}
use sherry.Actor.{Ptr, Sds, Msg, Status, Prog}
use sherry.Sched.{Sched, setready, slot, deref}
use sherry.Switch.{current}
use sherry.Message.{wake, post, deliver, sherry_msg_send, recv_begin, recv_end}
use sherry.Queues.{Holds}
use sherry.Resume.{is_empty, Fits, Resumes}

-- A mailbox with a new message is not empty.
is_empty-snoc {ℓ} : {A : Type ℓ} (xs : List A) (x : A) → is_empty (xs ++ x ∷ []) ≡ false
is_empty-snoc [] x = refl
is_empty-snoc (y ∷ xs) x = refl

module _ {Loop : Type 0} where
  deliver-Fits :
      (t : ℤ) (payload : Sds) (o : Option Ptr) (s : Sched Loop)
      → Fits s
      → Holds Fits (deliver t payload o s)
  unfolding deliver post wake setready
  deliver-Fits t payload none s v = tt
  deliver-Fits t payload (some p) s v = record {
    at = λ q. ground (
      arith,
      v.at q,
      is_empty-snoc (s.actor p).mailbox (record {
        sender = (current s).aid;
        recver = (s.actor p).aid;
        msgtype = t;
        payload = payload;
      }),
    );
  }

  pub sherry_msg_send-Fits :
      (dst t : ℤ) (payload : Sds) (s : Sched Loop)
      → Fits s
      → Holds Fits (sherry_msg_send dst t payload s)
  unfolding sherry_msg_send
  sherry_msg_send-Fits dst t payload s = deliver-Fits t payload (deref (slot dst s)) s

  pub recv_begin-Resumes :
      (ms : List Msg) (k : Option Msg → Prog) (s : Sched Loop)
      → (current s).mailbox ≡ ms
      → Fits s
      → Resumes (recv_begin ms k s)
  unfolding recv_begin
  recv_begin-Resumes [] k s e v = record {
    contexts = record { at = λ q. ground (arith, v.at q) };
    now = tt;
  }
  recv_begin-Resumes (m ∷ ms) k s e v = record { contexts = v; now = ground arith }

  pub recv_end-Resumes :
      (ms : List Msg) (k : Option Msg → Prog) (s : Sched Loop)
      → (current s).status ≡ Status.running
      → Fits s
      → Resumes (recv_end ms k s)
  unfolding recv_end
  recv_end-Resumes [] k s run v = record { contexts = v; now = refl }
  recv_end-Resumes (m ∷ ms) k s run v = record {
    contexts = record { at = λ q. ground (arith, v.at q) };
    now = refl;
  }
