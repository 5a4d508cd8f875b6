-- ===== src/Progress.antt =====
-- Which calls and callbacks may fault: the uses of a file descriptor that is freed and of an id
-- of no actor, and a write that libuv reports as failed.
pub mod Calls
pub mod Callbacks
pub mod Run
use sherry.Base.{
  ℕ, zero, suc, ◌≡◌, is_zero, Bool, true, false, ◌&&◌, Option, none, some, List, [], ◌∷◌, get_elem?,
  set,
}
use sherry.Actor.{Ptr, Prog, Point, in_fn, in_accept, in_read}
use sherry.Uv.{Uv, Callback, on_listen, on_read, on_write, on_close}
use sherry.Sched.{Fd, Sched, slot, deref}
use sherry.Switch.{Cpu, in_actor, in_schdule, stopped, Machine}
use sherry.Net.{get_fd}

abbrev pub is_some {ℓ} : {A : Type ℓ} → Option A → Bool
is_some none = false
is_some (some a) = true

-- Which file descriptors are not freed, by their addresses.
unfoldable pub lives_in : List (Option Fd) → List Bool
lives_in [] = []
lives_in (f ∷ fds) = is_some f ∷ lives_in fds

abbrev pub is_live : Ptr → List Bool → Bool
is_live p [] = false
is_live zero (b ∷ bs) = b
is_live (suc p) (b ∷ bs) = is_live p bs

-- What a call asks of its arguments.
unfoldable pub legal_call : {Loop : Type 0} → Prog → Sched Loop → Bool
legal_call (Prog.msg_send dst t payload k) s = is_some (deref (slot dst s))
legal_call (Prog.tcp_bind p ip port k) s = is_some (get_fd p s)
legal_call (Prog.tcp_peername p namelen k) s = is_some (get_fd p s)
legal_call (Prog.listen (some p) backlog k) s = is_some (get_fd p s)
legal_call (Prog.read p count k) s = is_some (get_fd p s)
legal_call (Prog.write p bytes k) s = is_some (get_fd p s)
legal_call (Prog.fd_close p k) s = is_some (get_fd p s)
legal_call _ s = true

unfoldable pub legal_point : {Loop : Type 0} → Point → Sched Loop → Bool
legal_point (in_fn p) s = legal_call p s
legal_point (in_accept srv cli k) s = is_some (get_fd srv s) && is_some (get_fd cli s)
legal_point (in_read p count k) s = is_some (get_fd p s)
legal_point _ s = true

-- libuv calls back on handles that are not closed, and writes succeed.
unfoldable pub legal_callbacks : List Callback → List Bool → Bool
legal_callbacks [] lives = true
legal_callbacks (on_listen p status ∷ cs) lives = is_live p lives && legal_callbacks cs lives
legal_callbacks (on_read p nread buf ∷ cs) lives = is_live p lives && legal_callbacks cs lives
legal_callbacks (on_write i status ∷ cs) lives = is_zero status && legal_callbacks cs lives
legal_callbacks (on_close p ∷ cs) lives = is_live p lives && legal_callbacks cs (set lives p false)

-- What `schdule` asks of libuv, which it runs where no actor is ready.
unfoldable pub legal_round : {Loop : Type 0} → Uv Loop → List Ptr → Sched Loop → Bool
legal_round uv [] s = legal_callbacks (uv.run_once s.loop).0 (lives_in s.fds)
legal_round uv (p ∷ ps) s = true

-- The next step uses its arguments as it should.
unfoldable pub legal_at : {Loop : Type 0} → Uv Loop → Cpu → Sched Loop → Bool
legal_at uv (in_actor pt) s = legal_point pt s
legal_at uv in_schdule s = legal_round uv s.readyq s
legal_at uv stopped s = true

abbrev pub Legal : {Loop : Type 0} → Uv Loop → Machine Loop → Type 0
Legal uv m = legal_at uv m.cpu m.sche ≡ true
