-- ===== src/Net.antt =====
-- Non-blocking network calls and the callbacks from libuv: sherry.c, lines 473 to 658.
use sherry.Base.{
  ℕ, ◌+◌, ◌-◌, ℤ, pos, is_neg, is_zero, int_eq, not, ◌||◌, Option, none, some, List, [], ◌∷◌, ◌++◌,
  ltb, ◌==◌, if◌then◌else◌, length, get_elem?, set, take, drop, remove_at,
}
use sherry.Actor.{Ptr, Status, Prog, Point, in_fn, in_accept, in_read, after_write}
use sherry.Uv.{Uv, Callback, on_listen, on_read, on_write, on_close}
use sherry.Sched.{Fd, Sched, put_actor, setready, unblock_all}
use sherry.Switch.{Machine, current, goes_on, yield}

-- SHERRY_FD_TCP and SHERRY_ERR_INVALID
abbrev pub fd_tcp_type : ℕ
fd_tcp_type = 1

abbrev pub err_invalid : ℤ
err_invalid = pos 1

abbrev pub fdnew : ℕ → Fd
fdnew type = record {
  type = type;
  rbuf = none;
  roffset = 0;
  rerror = pos 0;
  wait_read = [];
  wait_write = [];
}

-- SHERRY_EV_READ and SHERRY_EV_WRITE, and `fd->waitq[event]` at one of the two
abbrev pub ev_read : ℕ
ev_read = 0

abbrev pub ev_write : ℕ
ev_write = 1

abbrev pub waitq : ℕ → Fd → List Ptr
waitq event f = if event == ev_write then f.wait_write else f.wait_read

abbrev pub put_waitq : ℕ → List Ptr → Fd → Fd
put_waitq event ws f =
    if event == ev_write then record f { wait_write = ws } else record f { wait_read = ws }

abbrev pub flat {ℓ} : {A : Type ℓ} → Option (Option A) → Option A
flat none = none
flat (some a) = a

-- A call on a file descriptor that may be freed.
abbrev pub if_live {ℓ} : {A : Type ℓ} → Option Fd → A → Option A
if_live none a = none
if_live (some f) a = some a

-- The bytes that `sherry_read` would copy: none without a buffer.
abbrev pub buffered : Option (List ℕ) → List ℕ
buffered none = []
buffered (some bytes) = bytes

-- The offset is reset only where an old buffer is freed.
unfoldable pub kept_offset : Fd → ℕ
kept_offset f = elim f.rbuf [ none ↦ f.roffset | some _ ↦ 0 ]

-- How many bytes a read of `count` takes from the buffer.
unfoldable pub read_size : ℕ → Fd → ℕ
read_size count f =
    let remain = length (buffered f.rbuf) - f.roffset in if ltb count remain then count else remain

module _ {Loop : Type 0} where
  -- The file descriptor at an address; `none` if it is freed.
  abbrev pub get_fd : Ptr → Sched Loop → Option Fd
  get_fd p s = flat (get_elem? s.fds p)

  abbrev pub put_fd : Ptr → Fd → Sched Loop → Sched Loop
  put_fd p f s = record s { fds = set s.fds p (some f) }

  unfoldable pub sherry_fd_tcp : Uv Loop → Sched Loop → Ptr × Sched Loop
  sherry_fd_tcp uv s =
      let p = length s.fds in
      (p, record s { fds = s.fds ++ some (fdnew fd_tcp_type) ∷ []; loop = uv.tcp_init p s.loop })

  -- `fdfree`, from `close_cb`; `none` is a double free.
  unfoldable pub fdfree : Ptr → Option Fd → Sched Loop → Option (Sched Loop)
  fdfree p none s = none
  fdfree p (some f) s = some (record s { fds = set s.fds p none })

  unfoldable pub close_cb : Ptr → Sched Loop → Option (Sched Loop)
  close_cb p s = fdfree p (get_fd p s) s

  -- Here and below the outer `none` is the use of a freed file descriptor.
  unfoldable pub sherry_fd_close : Uv Loop → Ptr → Sched Loop → Option (ℤ × Sched Loop)
  sherry_fd_close uv p s = if_live (get_fd p s) (pos 0, record s { loop = uv.close p s.loop })

  -- `block_fd` at the event SHERRY_EV_READ, the only one that the code waits for.
  unfoldable pub block_fd : Ptr → Fd → Point → Sched Loop → Machine Loop
  block_fd p f pt s =
      let a = record (current s) { status = Status.wait_ev } in
      let f' = put_waitq ev_read (waitq ev_read f ++ s.running ∷ []) f in
      yield pt (put_fd p f' (put_actor s.running a s))

  unfoldable pub sherry_tcp_bind : Uv Loop → Ptr → ℕ → ℕ → Sched Loop → Option (ℤ × Sched Loop)
  sherry_tcp_bind uv p ip port s =
      let r = uv.tcp_bind p ip port s.loop in if_live (get_fd p s) (r.0, record s { loop = r.1 })

  -- What the call returns; the name is the second part of what libuv answers.
  unfoldable pub sherry_tcp_peername : Uv Loop → Ptr → ℕ → Sched Loop → Option (ℤ × Sched Loop)
  sherry_tcp_peername uv p namelen s = if_live (get_fd p s) ((uv.getpeername p namelen s.loop).0, s)

  unfoldable pub listen_fd : Uv Loop → Ptr → ℕ → Option Fd → Sched Loop → Option (ℤ × Sched Loop)
  listen_fd uv p backlog none s = none
  listen_fd uv p backlog (some f) s =
      let r = uv.listen p backlog s.loop in
      some (if f.type == fd_tcp_type then (r.0, record s { loop = r.1 }) else (err_invalid, s))

  -- The argument `none` is NULL.
  unfoldable pub sherry_listen : Uv Loop → Option Ptr → ℕ → Sched Loop → Option (ℤ × Sched Loop)
  sherry_listen uv none backlog s = some (err_invalid, s)
  sherry_listen uv (some p) backlog s = listen_fd uv p backlog (get_fd p s) s

  -- One round of the loop in `sherry_accept`.
  unfoldable pub accept_fd :
      Uv Loop → Ptr → Ptr → (ℤ → Prog) → Option Fd → Option Fd → Sched Loop → Option (Machine Loop)
  accept_fd uv srv cli k none c s = none
  accept_fd uv srv cli k (some f) none s = none
  accept_fd uv srv cli k (some f) (some c) s =
      let err = (uv.accept srv cli s.loop).0 in
      let s' = record s { loop = (uv.accept srv cli s.loop).1 } in
      if not (is_neg err) || not (int_eq err uv.eagain)
      then some (goes_on (in_fn (k err)) s')
      else some (block_fd srv f (in_accept srv cli k) s')

  unfoldable pub sherry_accept :
      Uv Loop → Ptr → Ptr → (ℤ → Prog) → Sched Loop → Option (Machine Loop)
  sherry_accept uv srv cli k s = accept_fd uv srv cli k (get_fd srv s) (get_fd cli s) s

  -- One round of the loop in `sherry_read`: the error, else bytes from the buffer, else block.
  unfoldable pub read_fd :
      Uv Loop → Ptr → ℕ → (ℤ → List ℕ → Prog) → Option Fd → Sched Loop → Option (Machine Loop)
  read_fd uv p count k none s = none
  read_fd uv p count k (some f) s =
      if not (is_zero f.rerror)
      then some (goes_on (in_fn (k (if int_eq f.rerror uv.eof then pos 0 else f.rerror) [])) s)
      else if ltb f.roffset (length (buffered f.rbuf))
      then (let nread = read_size count f in
          let bytes = take nread (drop f.roffset (buffered f.rbuf)) in
          let f' = record f { roffset = f.roffset + nread } in
          some (goes_on (in_fn (k (pos nread) bytes)) (put_fd p f' s)))
      else some (block_fd p f (in_read p count k) s)

  unfoldable pub read_loop :
      Uv Loop → Ptr → ℕ → (ℤ → List ℕ → Prog) → Sched Loop → Option (Machine Loop)
  read_loop uv p count k s = read_fd uv p count k (get_fd p s) s

  -- `sherry_read` up to its loop.
  unfoldable pub read_begin : Uv Loop → Ptr → ℕ → (ℤ → List ℕ → Prog) → Sched Loop → Machine Loop
  read_begin uv p count k s =
      let err = (uv.read_start p s.loop).0 in
      let s' = record s { loop = (uv.read_start p s.loop).1 } in
      if not (is_zero err) then goes_on (in_fn (k err [])) s' else goes_on (in_read p count k) s'

  unfoldable pub sherry_read :
      Uv Loop → Ptr → ℕ → (ℤ → List ℕ → Prog) → Sched Loop → Option (Machine Loop)
  sherry_read uv p count k s = if_live (get_fd p s) (read_begin uv p count k s)

  -- `sherry_write` up to its `yield`. The status of `uv_write` is dropped; only where it is not
  -- negative does libuv hold a request.
  unfoldable pub write_begin : Uv Loop → Ptr → List ℕ → (ℕ → Prog) → Sched Loop → Machine Loop
  write_begin uv p bytes k s =
      let err = (uv.write p bytes s.loop).0 in
      let held = if is_neg err then s.requests else s.requests ++ s.running ∷ [] in
      let a = record (current s) { status = Status.wait_ev } in
      yield (after_write (length bytes) k)
        (record (put_actor s.running a s) { requests = held; loop = (uv.write p bytes s.loop).1 })

  unfoldable pub sherry_write :
      Uv Loop → Ptr → List ℕ → (ℕ → Prog) → Sched Loop → Option (Machine Loop)
  sherry_write uv p bytes k s = if_live (get_fd p s) (write_begin uv p bytes k s)

  unfoldable pub unblock_fd : Ptr → Option Fd → Sched Loop → Option (Sched Loop)
  unblock_fd p none s = none
  unblock_fd p (some f) s =
      some (unblock_all (waitq ev_read f) (put_fd p (put_waitq ev_read [] f) s))

  unfoldable pub listen_cb : Ptr → ℤ → Sched Loop → Option (Sched Loop)
  listen_cb p status s = unblock_fd p (get_fd p s) s

  unfoldable pub store_read : Ptr → ℤ → List ℕ → Option Fd → Sched Loop → Option (Sched Loop)
  store_read p nread buf none s = none
  store_read p nread buf (some f) s =
      if is_neg nread || is_zero nread
      then some (put_fd p (record f { rerror = nread }) s)
      else unblock_fd p (some (record f { rbuf = some buf; roffset = kept_offset f })) s

  -- `buf` is the whole buffer that `rbuf_alloc` made, of which `nread` bytes were received.
  unfoldable pub read_cb : Ptr → ℤ → List ℕ → Sched Loop → Option (Sched Loop)
  read_cb p nread buf s = store_read p nread buf (get_fd p s) s

  -- `none` is the failed assertion.
  unfoldable pub finish_write : ℕ → ℤ → Option Ptr → Sched Loop → Option (Sched Loop)
  finish_write i status none s = some s
  finish_write i status (some p) s =
      let s' = setready p (record s { requests = remove_at i s.requests }) in
      if is_zero status then some s' else none

  -- libuv ends a request that it holds, and then holds it no more.
  unfoldable pub write_cb : ℕ → ℤ → Sched Loop → Option (Sched Loop)
  write_cb i status s = finish_write i status (get_elem? s.requests i) s

  unfoldable pub callback : Callback → Sched Loop → Option (Sched Loop)
  callback (on_listen p status) s = listen_cb p status s
  callback (on_read p nread buf) s = read_cb p nread buf s
  callback (on_write i status) s = write_cb i status s
  callback (on_close p) s = close_cb p s
