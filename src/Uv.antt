-- ===== src/Uv.antt =====
-- What sherry.c uses of libuv, which is not part of the repository: a parameter of the model.
use sherry.Base.{ℕ, ℤ, List}
use sherry.Actor.{Ptr}

-- The callbacks that `uv_run` makes, with what libuv hands them. A handle is named by the
-- `sherry_fd_t` that its `data` points to, a write request by its place among the requests that
-- are under way, oldest first.
pub data Callback : Type 0 where
  on_listen : Ptr → (status : ℤ) → Callback
  on_read : Ptr → (nread : ℤ) → (buf : List ℕ) → Callback
  on_write : (request : ℕ) → (status : ℤ) → Callback
  on_close : Ptr → Callback

-- The state of a loop and the calls on it, each with its status code and the new state.
pub record Uv (Loop : Type 0) : Type 0 where
  pub eof : ℤ  -- UV_EOF
  pub eagain : ℤ  -- UV_EAGAIN
  pub loop_init : Loop
  pub tcp_init : Ptr → Loop → Loop
  pub tcp_bind : Ptr → ℕ → ℕ → Loop → ℤ × Loop
  pub getpeername : Ptr → (namelen : ℕ) → Loop → ℤ × List ℕ
  pub listen : Ptr → ℕ → Loop → ℤ × Loop
  pub accept : Ptr → Ptr → Loop → ℤ × Loop
  pub read_start : Ptr → Loop → ℤ × Loop
  pub write : Ptr → List ℕ → Loop → ℤ × Loop
  pub close : Ptr → Loop → Loop
  pub run_once : Loop → List Callback × Loop
