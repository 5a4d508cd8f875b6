-- ===== src/Mail/Run.antt =====
-- The mailboxes over a whole run.
use sherry.Base.{
  ℕ, zero, suc, ◌<◌, ◌≡◌, sym, ap, ◌∙◌, Option, none, some, List, [], ◌++◌, append-nil,
  append_assoc, arith, and_then,
}
use sherry.Actor.{Ptr, Msg}
use sherry.Uv.{Uv}
use sherry.Sched.{Sched}
use sherry.Switch.{Machine}
use sherry.Step.{step, steps}
use sherry.Queues.{Holds, Surely, Surely-map}
use sherry.Resume.Step.{Sound}
use sherry.Progress.Run.{LegalRun, Surely-both, steps-finish}
use sherry.Mail.{box}
use sherry.Runs.{Along, every-Along}
use sherry.Mail.Hands.{Hands, step-Hands}
use sherry.Mail.History.{Flows, sent_at, taken_at, step_at-Flows}

abbrev pub after_step {ℓ} : {A : Type 0} {B : Type ℓ} → (A → List B) → Option A → List B
after_step f none = []
after_step f (some a) = f a

module _ {Loop : Type 0} (uv : Uv Loop) (p : Ptr) where
  -- The messages that are sent to `p` in the first `n` steps, in their order.
  unfoldable pub sent_in : ℕ → Machine Loop → List Msg
  sent_in zero m = []
  sent_in (suc n) m = sent_at p m.cpu m.sche ++ after_step (sent_in n) (step uv m)

  -- The messages that `p` takes from its mailbox in them.
  unfoldable pub taken_in : ℕ → Machine Loop → List Msg
  taken_in zero m = []
  taken_in (suc n) m = taken_at p m.cpu m.sche ++ after_step (taken_in n) (step uv m)

  -- Nothing is lost, nothing comes twice, and nothing overtakes.
  abbrev pub InOrder : ℕ → Machine Loop → Machine Loop → Type 0
  InOrder n m t = box p m.sche ++ sent_in n m ≡ taken_in n m ++ box p t.sche

  step-Flows :
      (m : Machine Loop)
      → Holds
          (λ t. Flows p (sent_at p m.cpu m.sche) (taken_at p m.cpu m.sche) m.sche t.sche)
          (step uv m)
  unfolding step
  step-Flows m = step_at-Flows p uv m.cpu m.sche

  -- The mailbox before, with what is sent in the step and later, is what is taken in both and what is left.
  joined :
      (b0 sent b1 sents taken takens b2 : List Msg)
      → b0 ++ sent ≡ taken ++ b1
      → b1 ++ sents ≡ takens ++ b2
      → b0 ++ (sent ++ sents) ≡ (taken ++ takens) ++ b2
  joined b0 sent b1 sents taken takens b2 e f =
      sym (append_assoc b0 sent sents)
      ∙ ap (λ xs. xs ++ sents) e
      ∙ append_assoc taken b1 sents
      ∙ ap (λ xs. taken ++ xs) f
      ∙ sym (append_assoc taken takens b2)

  joined_run :
      (n : ℕ) (s : Sched Loop) (sent taken : List Msg) (t : Machine Loop)
      (o : Option (Machine Loop))
      → box p s ++ sent ≡ taken ++ box p t.sche
      → Holds (InOrder n t) o
      → Holds (λ u. box p s ++ (sent ++ sent_in n t) ≡ (taken ++ taken_in n t) ++ box p u.sche) o
  joined_run n s sent taken t none e h = tt
  joined_run n s sent taken t (some u) e h =
      joined (box p s) sent (box p t.sche) (sent_in n t) taken (taken_in n t) (box p u.sche) e h

  chained :
      (n : ℕ) (s : Sched Loop) (sent taken : List Msg) (o : Option (Machine Loop))
      → p < s.next_actor
      → Holds (λ t. Flows p sent taken s t.sche) o
      → ((t : Machine Loop) → p < t.sche.next_actor → Holds (InOrder n t) (steps uv n t))
      → Holds
          (λ u.
            box p s ++ (sent ++ after_step (sent_in n) o)
            ≡ (taken ++ after_step (taken_in n) o) ++ box p u.sche)
          (and_then o (steps uv n))
  chained n s sent taken none h f rest = tt
  chained n s sent taken (some t) h f rest =
      joined_run n s sent taken t (steps uv n t) (f.flow h) (rest t (omega (arith, h, f.grows)))

  -- The equation where the run does not fault.
  unfaulted-InOrder :
      (n : ℕ) (m : Machine Loop) → p < m.sche.next_actor → Holds (InOrder n m) (steps uv n m)
  unfolding steps sent_in taken_in
  unfaulted-InOrder zero m h = append-nil (box p m.sche)
  unfaulted-InOrder (suc n) m h =
      chained n m.sche (sent_at p m.cpu m.sche) (taken_at p m.cpu m.sche) (step uv m) h
        (step-Flows m) (unfaulted-InOrder n)

  -- For an actor that is allocated, in a run of `n` legal steps from a machine that is `Sound`: the
  -- run does not fault, and the mailbox at the start followed by the messages sent to the actor in
  -- the run is what it has taken from its mailbox, in order, followed by the mailbox at the end. In
  -- each step of the run where the running actor is at the end of `sherry_msg_recv`, its code goes
  -- on with the message that it has taken, or with NULL where it has taken none. So no message is
  -- lost, comes twice or overtakes another.
  pub steps-InOrder :
      (n : ℕ) (m : Machine Loop)
      → p < m.sche.next_actor
      → Sound m
      → LegalRun uv n m
      → Surely (λ t. InOrder n m t × Along uv Hands n m) (steps uv n m)
  steps-InOrder n m h v l =
      Surely-map (λ t. Sound t × InOrder n m t) (λ t. InOrder n m t × Along uv Hands n m)
        (steps uv n m)
        (Surely-both Sound (InOrder n m) (steps uv n m) (steps-finish uv n m v l)
          (unfaulted-InOrder n m h))
        (λ t (w, k). (k, every-Along uv Hands (step-Hands uv) n m))
