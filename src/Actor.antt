-- ===== src/Actor.antt =====
-- Actors, their messages and the code that they run: sherry.h, and sherry.c lines 198 to 285.
use sherry.Base.{ℕ, ℤ, negsuc, Bool, true, false, Option, List, []}

-- `actor_t *` and `sherry_fd_t *`: allocation hands out 0, 1, 2 and so on, and no actor is freed.
abbrev pub Ptr : Type 0
Ptr = ℕ

-- `sds` and `char *`: an address that the library only passes on. NULL is 0.
abbrev pub Sds : Type 0
Sds = ℕ

-- SHERRY_MAIN_ID
abbrev pub main_id : ℕ
main_id = 0

-- `struct sherry_msg`
pub record Msg : Type 0 where
  pub sender : ℤ
  pub recver : ℤ
  pub msgtype : ℤ
  pub payload : Sds

-- SHERRY_STATE_*
pub data Status : Type 0 where
  none dead ready running wait_msg wait_ev : Status

-- The code of an actor, as the calls of sherry.h that it makes: each call with what follows it,
-- which may depend on the result. `done` is the return of the actor's function, `printf` an output
-- that the library has no part in.
pub data Prog : Type 0 where
  done : Prog
  printf : ℕ → ℕ → Prog → Prog
  spawn : Prog → (ℤ → Prog) → Prog
  sched_yield : Prog → Prog
  msg_send : ℤ → ℤ → Sds → Prog → Prog
  msg_recv : (Option Msg → Prog) → Prog
  fd_tcp : (Ptr → Prog) → Prog
  tcp_bind : Ptr → ℕ → ℕ → (ℤ → Prog) → Prog
  tcp_peername : Ptr → (namelen : ℕ) → (ℤ → List ℕ → Prog) → Prog
  listen : Option Ptr → ℕ → (ℤ → Prog) → Prog
  accept : Ptr → Ptr → (ℤ → Prog) → Prog
  read : Ptr → ℕ → (ℤ → List ℕ → Prog) → Prog
  write : Ptr → List ℕ → (ℕ → Prog) → Prog
  fd_close : Ptr → (ℤ → Prog) → Prog
  exit : Prog

-- A place in the code where a saved context may stand: what the stack and `context_t` hold.
pub data Point : Type 0 where
  unset : Point  -- no context yet
  entry : Point  -- the start of `sherry_main`
  in_fn : Prog → Point  -- in the actor's function
  after_recv : (Option Msg → Prog) → Point  -- `sherry_msg_recv`, behind its `if`
  in_accept : Ptr → Ptr → (ℤ → Prog) → Point  -- the head of the loop in `sherry_accept`
  in_read : Ptr → ℕ → (ℤ → List ℕ → Prog) → Point  -- the head of the loop in `sherry_read`
  after_write : ℕ → (ℕ → Prog) → Point  -- `sherry_write`, behind its `yield`
  in_exit : Point  -- the head of the loop in `sherry_exit`
  after_main : Point  -- the end of `sherry_main`, behind its `yield`

-- `struct actor`. The node by which it hangs in a queue is its pointer there.
pub record Actor : Type 0 where
  pub aid : ℤ
  pub status : Status
  pub ctx : Point
  pub fn : Prog
  pub mailbox : List Msg

-- What `new_actor` puts into the fresh memory.
abbrev pub new_actor : Prog → Actor
new_actor fn = record { aid = negsuc 0; status = Status.none; ctx = unset; fn = fn; mailbox = [] }

abbrev pub is_ready : Status → Bool
is_ready Status.ready = true
is_ready _ = false

abbrev pub is_wait_msg : Status → Bool
is_wait_msg Status.wait_msg = true
is_wait_msg _ = false

abbrev pub is_wait_ev : Status → Bool
is_wait_ev Status.wait_ev = true
is_wait_ev _ = false
