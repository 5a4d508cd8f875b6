-- ===== src/Mail/History.antt =====
-- What was sent to an actor and what it has taken, over a run.
use sherry.Base.{
  ℤ, pos, ◌≤◌, ◌<◌, ◌≡◌, refl, sym, ◌∙◌, Option, none, some, List, [], ◌∷◌, ◌++◌, append-nil, arith,
  if◌then◌else◌, ◌==◌,
}
use sherry.Actor.{
  Ptr, Sds, Msg, Prog, Point, unset, entry, in_fn, after_recv, in_accept, in_read, after_write,
  in_exit, after_main,
}
use sherry.Uv.{Uv}
use sherry.Sched.{Sched, setready, slot, deref}
use sherry.Switch.{Cpu, in_actor, in_schdule, stopped, Machine, current, sherry_yield, sherry_spawn}
use sherry.Message.{wake, post, deliver, sherry_msg_send, recv_begin, recv_end}
use sherry.Net.{
  get_fd, sherry_fd_tcp, sherry_tcp_bind, sherry_tcp_peername, sherry_listen, sherry_accept,
  read_loop, sherry_read, sherry_write, sherry_fd_close, read_begin, write_begin,
}
use sherry.Step.{then_go, finish, exit_round, schdule, call, exec, step_at}
use sherry.Queues.{Holds}
use sherry.Mail.{Kept, box}
use sherry.Frame.Writes.{
  sherry_yield-Frame, finish-Frame, exit_round-Frame, recv_begin-Frame, write_begin-Frame,
  read_begin-Frame,
}
use sherry.Frame.Calls.{
  live_call-Frame, live_go-Frame, listen_fd-Frame, accept_fd-Frame, read_fd-Frame,
}
use sherry.Mail.Untouched.{
  Kept-refl, Kept-Frame, Kept-FdFrame, Kept-TableFrame, schdule-Kept, sherry_spawn-Kept,
}

-- The message that a call puts into the mailbox of `p`.
abbrev pub posted : {Loop : Type 0} → Ptr → ℤ → Sds → Option Ptr → Sched Loop → List Msg
posted p msgtype payload none s = []
posted p msgtype payload (some q) s =
    if p == q
    then record {
      sender = (current s).aid;
      recver = (s.actor q).aid;
      msgtype = msgtype;
      payload = payload;
    }
      ∷ []
    else []

-- What the next step sends to `p`.
unfoldable pub sent_at : {Loop : Type 0} → Ptr → Cpu → Sched Loop → List Msg
sent_at p (in_actor (in_fn (Prog.msg_send dst t payload k))) s =
    posted p t payload (deref (slot dst s)) s
sent_at p _ s = []

abbrev pub oldest : List Msg → List Msg
oldest [] = []
oldest (m ∷ ms) = m ∷ []

-- What the next step gives to the code of `p`.
unfoldable pub taken_at : {Loop : Type 0} → Ptr → Cpu → Sched Loop → List Msg
taken_at p (in_actor (after_recv k)) s = if p == s.running then oldest (box p s) else []
taken_at p _ s = []

-- A step of the mailbox of `p`: what is sent is put at its end, what is taken comes from its front.
pub record Flows {Loop : Type 0} (p : Ptr) (sent taken : List Msg) (s t : Sched Loop) : Type 0 where
  pub flow : p < s.next_actor → box p s ++ sent ≡ taken ++ box p t
  pub grows : s.next_actor ≤ t.next_actor

module _ {Loop : Type 0} (p : Ptr) where
  Kept-Flows : (s t : Sched Loop) → Kept s t → Flows p [] [] s t
  Kept-Flows s t k = record {
    flow = λ h. append-nil (box p s) ∙ sym (k.boxes p h);
    grows = k.grows;
  }

  deliver-Flows :
      (ty : ℤ) (payload : Sds) (o : Option Ptr) (s : Sched Loop)
      → Holds (Flows p (posted p ty payload o s) [] s) (deliver ty payload o s)
  unfolding deliver wake post setready
  deliver-Flows ty payload none s = tt
  deliver-Flows ty payload (some q) s = record {
    flow = λ h. ground (arith, append-nil (box p s));
    grows = ground arith;
  }

  recv_end-Flows :
      (ms : List Msg) (k : Option Msg → Prog) (s : Sched Loop)
      → (current s).mailbox ≡ ms
      → Flows p [] (if p == s.running then oldest (box p s) else []) s (recv_end ms k s).sche
  unfolding recv_end
  recv_end-Flows [] k s e = record {
    flow = λ h. ground (arith, e, append-nil (box p s));
    grows = ground arith;
  }
  recv_end-Flows (m ∷ ms) k s e = record {
    flow = λ h. ground (arith, e, append-nil (box p s));
    grows = ground arith;
  }

  Kept-run :
      (o : Option (Machine Loop)) (s : Sched Loop)
      → Holds (λ m. Kept s m.sche) o
      → Holds (λ m. Flows p [] [] s m.sche) o
  Kept-run none s h = tt
  Kept-run (some m) s h = Kept-Flows s m.sche h

  sent_run :
      (sent : List Msg) (k : Prog) (o : Option (Sched Loop)) (s : Sched Loop)
      → Holds (Flows p sent [] s) o
      → Holds (λ m. Flows p sent [] s m.sche) (then_go k o)
  sent_run sent k none s h = tt
  sent_run sent k (some t) s h = h

  call-Flows :
      (uv : Uv Loop) (pr : Prog) (s : Sched Loop)
      → Holds (λ m. Flows p (sent_at p (in_actor (in_fn pr)) s) [] s m.sche) (call uv pr s)
  unfolding call sent_at sherry_msg_send sherry_fd_tcp sherry_tcp_bind sherry_tcp_peername
      sherry_listen sherry_read sherry_write sherry_fd_close
  call-Flows uv Prog.done s = Kept-Flows s (finish s).sche (finish-Frame Kept Kept-TableFrame s)
  call-Flows uv (Prog.printf n i k) s = record {
    flow = λ h. append-nil (box p s);
    grows = omega arith;
  }
  call-Flows uv (Prog.spawn f k) s = Kept-Flows s (sherry_spawn f s).1 (sherry_spawn-Kept f s)
  call-Flows uv (Prog.sched_yield k) s =
      Kept-Flows s (sherry_yield (in_fn k) s).sche (sherry_yield-Frame Kept Kept-Frame (in_fn k) s)
  call-Flows uv (Prog.msg_send dst t payload k) s =
      sent_run (posted p t payload (deref (slot dst s)) s) k
        (deliver t payload (deref (slot dst s)) s) s
        (deliver-Flows t payload (deref (slot dst s)) s)
  call-Flows uv (Prog.msg_recv k) s =
      Kept-Flows s (recv_begin (current s).mailbox k s).sche
        (recv_begin-Frame Kept Kept-Frame (current s).mailbox k s)
  call-Flows uv (Prog.fd_tcp k) s = record { flow = λ h. append-nil (box p s); grows = omega arith }
  call-Flows uv (Prog.tcp_bind q ip port k) s = Kept-run (call uv (Prog.tcp_bind q ip port k) s) s (
      live_call-Frame Kept uv Kept-Frame k (get_fd q s)
        ((uv.tcp_bind q ip port s.loop).0, record s { loop = (uv.tcp_bind q ip port s.loop).1 }) s
        (record { boxes = λ q h. refl; grows = omega arith }))
  call-Flows uv (Prog.tcp_peername q n k) s = Kept-run (call uv (Prog.tcp_peername q n k) s) s (
      live_call-Frame Kept uv Kept-Frame (λ err. k err (uv.getpeername q n s.loop).1) (get_fd q s)
        ((uv.getpeername q n s.loop).0, s) s (record { boxes = λ q h. refl; grows = omega arith }))
  call-Flows uv (Prog.listen none n k) s = record {
    flow = λ h. append-nil (box p s);
    grows = omega arith;
  }
  call-Flows uv (Prog.listen (some q) n k) s =
      Kept-run (call uv (Prog.listen (some q) n k) s) s
        (listen_fd-Frame Kept uv Kept-Frame k q n (get_fd q s) s)
  call-Flows uv (Prog.accept srv cli k) s = record {
    flow = λ h. append-nil (box p s);
    grows = omega arith;
  }
  call-Flows uv (Prog.read q n k) s = Kept-run (sherry_read uv q n k s) s (
      live_go-Frame Kept uv Kept-Frame (get_fd q s) (read_begin uv q n k s) s
        (read_begin-Frame Kept Kept-Frame uv q n k s))
  call-Flows uv (Prog.write q bs k) s = Kept-run (sherry_write uv q bs k s) s (
      live_go-Frame Kept uv Kept-Frame (get_fd q s) (write_begin uv q bs k s) s
        (write_begin-Frame Kept Kept-Frame uv q bs k s))
  call-Flows uv (Prog.fd_close q k) s = Kept-run (call uv (Prog.fd_close q k) s) s (
      live_call-Frame Kept uv Kept-Frame k (get_fd q s)
        (pos 0, record s { loop = uv.close q s.loop }) s
        (record { boxes = λ q h. refl; grows = omega arith }))
  call-Flows uv Prog.exit s = record { flow = λ h. append-nil (box p s); grows = omega arith }

  exec-Flows :
      (uv : Uv Loop) (pt : Point) (s : Sched Loop)
      → Holds
          (λ m. Flows p (sent_at p (in_actor pt) s) (taken_at p (in_actor pt) s) s m.sche)
          (exec uv pt s)
  unfolding exec sent_at taken_at sherry_accept read_loop
  exec-Flows uv unset s = tt
  exec-Flows uv entry s = Kept-Flows s s (Kept-refl s)
  exec-Flows uv (in_fn pr) s = call-Flows uv pr s
  exec-Flows uv (after_recv k) s = recv_end-Flows (current s).mailbox k s refl
  exec-Flows uv (in_accept srv cli k) s =
      Kept-run (sherry_accept uv srv cli k s) s
        (accept_fd-Frame Kept uv Kept-FdFrame srv cli k (get_fd srv s) (get_fd cli s) s)
  exec-Flows uv (in_read q n k) s =
      Kept-run (read_loop uv q n k s) s (read_fd-Frame Kept uv Kept-FdFrame q n k (get_fd q s) s)
  exec-Flows uv (after_write n k) s = Kept-Flows s s (Kept-refl s)
  exec-Flows uv in_exit s =
      Kept-Flows s (exit_round s).sche (exit_round-Frame Kept Kept-TableFrame s)
  exec-Flows uv after_main s = tt

  pub step_at-Flows :
      (uv : Uv Loop) (cpu : Cpu) (s : Sched Loop)
      → Holds (λ m. Flows p (sent_at p cpu s) (taken_at p cpu s) s m.sche) (step_at uv cpu s)
  unfolding step_at sent_at taken_at
  step_at-Flows uv (in_actor pt) s = exec-Flows uv pt s
  step_at-Flows uv in_schdule s = Kept-run (schdule uv s.readyq s) s (schdule-Kept uv s.readyq s)
  step_at-Flows uv stopped s = Kept-Flows s s (Kept-refl s)
