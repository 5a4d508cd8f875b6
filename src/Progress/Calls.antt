-- ===== src/Progress/Calls.antt =====
-- A call with legal arguments does not fault.
use sherry.Base.{ℕ, ℤ, ◌≡◌, refl, true, Option, none, some, List, arith}
use sherry.Actor.{
  Ptr, Prog, Point, unset, entry, in_fn, after_recv, in_accept, in_read, after_write, in_exit,
  after_main,
}
use sherry.Uv.{Uv}
use sherry.Sched.{Fd, Sched}
use sherry.Switch.{current}
use sherry.Message.{deliver, sherry_msg_send}
use sherry.Net.{
  get_fd, sherry_tcp_bind, sherry_tcp_peername, listen_fd, sherry_listen, accept_fd, sherry_accept,
  read_fd, read_loop, sherry_read, sherry_write, sherry_fd_close,
}
use sherry.Step.{call, exec}
use sherry.Resume.{can_resume}
use sherry.Progress.{is_some, legal_call, legal_point}

module _ {Loop : Type 0} (uv : Uv Loop) where
  read_fd-some :
      (p : Ptr) (count : ℕ) (k : ℤ → List ℕ → Prog) (o : Option Fd) (s : Sched Loop)
      → is_some o ≡ true
      → is_some (read_fd uv p count k o s) ≡ true
  unfolding read_fd
  read_fd-some p count k o s h = ground (arith, h)

  call-some : (p : Prog) (s : Sched Loop) → legal_call p s ≡ true → is_some (call uv p s) ≡ true
  unfolding call legal_call sherry_msg_send deliver sherry_tcp_bind sherry_tcp_peername
      sherry_listen listen_fd sherry_read sherry_write sherry_fd_close
  call-some Prog.done s h = refl
  call-some (Prog.printf n i k) s h = refl
  call-some (Prog.spawn f k) s h = refl
  call-some (Prog.sched_yield k) s h = refl
  call-some (Prog.msg_send dst t payload k) s h = ground (arith, h)
  call-some (Prog.msg_recv k) s h = refl
  call-some (Prog.fd_tcp k) s h = refl
  call-some (Prog.tcp_bind p ip port k) s h = ground (arith, h)
  call-some (Prog.tcp_peername p n k) s h = ground (arith, h)
  call-some (Prog.listen none backlog k) s h = refl
  call-some (Prog.listen (some p) backlog k) s h = ground (arith, h)
  call-some (Prog.accept srv cli k) s h = refl
  call-some (Prog.read p count k) s h = ground (arith, h)
  call-some (Prog.write p bytes k) s h = ground (arith, h)
  call-some (Prog.fd_close p k) s h = ground (arith, h)
  call-some Prog.exit s h = refl

  pub exec-some :
      (pt : Point) (s : Sched Loop)
      → can_resume pt (current s).mailbox ≡ true
      → legal_point pt s ≡ true
      → is_some (exec uv pt s) ≡ true
  unfolding exec legal_point sherry_accept accept_fd read_loop
  exec-some unset s c h = c
  exec-some entry s c h = refl
  exec-some (in_fn p) s c h = call-some p s h
  exec-some (after_recv k) s c h = refl
  exec-some (in_accept srv cli k) s c h = ground (arith, h)
  exec-some (in_read p count k) s c h = read_fd-some p count k (get_fd p s) s h
  exec-some (after_write count k) s c h = refl
  exec-some in_exit s c h = refl
  exec-some after_main s c h = c
