-- ===== src/Frame/Calls.antt =====
-- The network calls, made of the writes of a `Frame`.
use sherry.Base.{
  ℕ, ℤ, not, ◌||◌, is_neg, is_zero, int_eq, Option, none, some, List, ltb, ◌==◌, Bool-cases, inl,
  inr, length, set, ◌+◌,
}
use sherry.Actor.{Ptr, Prog, in_accept, in_read}
use sherry.Uv.{Uv}
use sherry.Sched.{Fd, Sched}
use sherry.Switch.{Machine}
use sherry.Net.{buffered, if_live, fd_tcp_type, listen_fd, accept_fd, read_fd, block_fd, read_size}
use sherry.Step.{then_run}
use sherry.Queues.{Holds}
use sherry.Frame.{Frame, FdFrame}
use sherry.Frame.Writes.{loop-Frame, block_fd-Frame}

module _ {Loop : Type 0} (R : Sched Loop → Sched Loop → Type 0) (uv : Uv Loop) where
  module _ (f : Frame R) where
    pub live_call-Frame :
        (k : ℤ → Prog) (o : Option Fd) (a : ℤ × Sched Loop) (s : Sched Loop)
        → R s a.1
        → Holds (λ m. R s m.sche) (then_run k (if_live o a))
    live_call-Frame k none a s h = tt
    live_call-Frame k (some fd) a s h = h

    pub live_go-Frame :
        (o : Option Fd) (m : Machine Loop) (s : Sched Loop)
        → R s m.sche
        → Holds (λ t. R s t.sche) (if_live o m)
    live_go-Frame none m s h = tt
    live_go-Frame (some fd) m s h = h

    pub listen_fd-Frame :
        (k : ℤ → Prog) (p : Ptr) (n : ℕ) (o : Option Fd) (s : Sched Loop)
        → Holds (λ m. R s m.sche) (then_run k (listen_fd uv p n o s))
    unfolding listen_fd
    listen_fd-Frame k p n none s = tt
    listen_fd-Frame k p n (some fd) s = elim (Bool-cases (fd.type == fd_tcp_type)) [
      | inl e ↦ rw e (loop-Frame R f (uv.listen p n s.loop).1 s)
      | inr e ↦ rw e (f.same s)
    ]

  module _ (w : FdFrame R) where
    pub accept_fd-Frame :
        (srv cli : Ptr) (k : ℤ → Prog) (o c : Option Fd) (s : Sched Loop)
        → Holds (λ m. R s m.sche) (accept_fd uv srv cli k o c s)
    unfolding accept_fd
    accept_fd-Frame srv cli k none c s = tt
    accept_fd-Frame srv cli k (some fd) none s = tt
    accept_fd-Frame srv cli k (some fd) (some c) s =
        let r = uv.accept srv cli s.loop in
        elim (Bool-cases (not (is_neg r.0) || not (int_eq r.0 uv.eagain))) [
          | inl e ↦ rw e (loop-Frame R w.frame r.1 s)
          | inr e ↦
              let t = record s { loop = r.1 } in
              rw e (
                w.frame.after s t (block_fd srv fd (in_accept srv cli k) t).sche
                  (loop-Frame R w.frame r.1 s) (block_fd-Frame R w srv fd (in_accept srv cli k) t))
        ]

    pub read_fd-Frame :
        (p : Ptr) (n : ℕ) (k : ℤ → List ℕ → Prog) (o : Option Fd) (s : Sched Loop)
        → Holds (λ m. R s m.sche) (read_fd uv p n k o s)
    unfolding read_fd
    read_fd-Frame p n k none s = tt
    read_fd-Frame p n k (some fd) s = elim (Bool-cases (not (is_zero fd.rerror))) [
      | inl e ↦ rw e (w.frame.same s)
      | inr e ↦ elim (Bool-cases (ltb fd.roffset (length (buffered fd.rbuf)))) [
        | inl g ↦
            rw (e, g)
              (w.fds (set s.fds p (some (record fd { roffset = fd.roffset + read_size n fd }))) s)
        | inr g ↦ rw (e, g) (block_fd-Frame R w p fd (in_read p n k) s)
      ]
    ]
