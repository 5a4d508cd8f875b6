-- ===== src/Owns.antt =====
-- An ownership discipline for the file descriptors of sherry.h: each belongs to one actor, which
-- makes it by `sherry_fd_tcp`, hands it to an actor that it spawns, or closes it; for the calls and
-- callbacks of sherry.c, lines 489 to 658.
pub mod Share
pub mod Lives
pub mod Frees
pub mod Calls
pub mod Others
pub mod Lands
pub mod Step
pub mod Make
pub mod Exec
pub mod Legal
pub mod Round
pub mod Run
mod Tests
use sherry.Base.{
  ℕ, zero, suc, ◌+◌, ◌≤◌, ◌<◌, ◌≡◌, ◌≢◌, ℤ, true, Option, none, some, List, [], ◌∷◌, ◌++◌, ◌==◌,
  if◌then◌else◌, count, length,
}
use sherry.Actor.{
  Ptr, Msg, Prog, Point, unset, entry, in_fn, after_recv, in_accept, in_read, after_write, in_exit,
  after_main,
}
use sherry.Uv.{Uv, Callback, on_listen, on_read, on_write, on_close}
use sherry.Sched.{Sched}
use sherry.Switch.{Cpu, in_actor, in_schdule, stopped, Machine}
use sherry.Net.{get_fd}
use sherry.Step.{step}
use sherry.Queues.{Holds}
use sherry.Progress.{is_some, legal_round}

-- Code that owns the descriptors of a list: it uses no other, and none that it has closed or handed
-- on. It sends no messages.
abbrev pub Uses : List Ptr → Prog → Type 0
Uses l Prog.done = Unit {0}
Uses l (Prog.printf n i k) = Uses l k
Uses l (Prog.spawn f k) =
    (m : List Ptr) × (r : List Ptr) × ((p : Ptr) → count p m + count p r ≤ count p l)
    × Uses m f
    × ((id : ℤ) → Uses r (k id))
Uses l (Prog.sched_yield k) = Uses l k
Uses l (Prog.msg_send dst t payload k) = ⊥
Uses l (Prog.msg_recv k) = (o : Option Msg) → Uses l (k o)
Uses l (Prog.fd_tcp k) = (p : Ptr) → Uses (p ∷ l) (k p)
Uses l (Prog.tcp_bind p ip port k) = (count p l ≢ 0) × ((err : ℤ) → Uses l (k err))
Uses l (Prog.tcp_peername p n k) =
    (count p l ≢ 0) × ((err : ℤ) (name : List ℕ) → Uses l (k err name))
Uses l (Prog.listen none n k) = (err : ℤ) → Uses l (k err)
Uses l (Prog.listen (some p) n k) = (count p l ≢ 0) × ((err : ℤ) → Uses l (k err))
Uses l (Prog.accept srv cli k) =
    (count srv l ≢ 0) × (count cli l ≢ 0) × ((err : ℤ) → Uses l (k err))
Uses l (Prog.read p n k) = (count p l ≢ 0) × ((r : ℤ) (bytes : List ℕ) → Uses l (k r bytes))
Uses l (Prog.write p bytes k) = (count p l ≢ 0) × ((n : ℕ) → Uses l (k n))
Uses l (Prog.fd_close p k) =
    (r : List Ptr) × (count p l ≢ 0)
    × (count p r ≡ 0)
    × ((q : Ptr) → count q r ≤ count q l)
    × ((err : ℤ) → Uses r (k err))
Uses l Prog.exit = Unit {0}

-- The same at a place in the code.
abbrev pub UsesAt : List Ptr → (fn : Prog) → Point → Type 0
UsesAt l fn unset = Unit {0}
UsesAt l fn entry = Uses l fn
UsesAt l fn (in_fn p) = Uses l p
UsesAt l fn (after_recv k) = (o : Option Msg) → Uses l (k o)
UsesAt l fn (in_accept srv cli k) =
    (count srv l ≢ 0) × (count cli l ≢ 0) × ((err : ℤ) → Uses l (k err))
UsesAt l fn (in_read p n k) = (count p l ≢ 0) × ((r : ℤ) (bytes : List ℕ) → Uses l (k r bytes))
UsesAt l fn (after_write n k) = Uses l (k n)
UsesAt l fn in_exit = Unit {0}
UsesAt l fn after_main = Unit {0}

-- The descriptors that the next step closes.
unfoldable pub closed_at : Cpu → List Ptr
closed_at (in_actor (in_fn (Prog.fd_close p k))) = p ∷ []
closed_at _ = []

-- libuv calls `close_cb` only for descriptors that were closed.
abbrev pub ClosesOnly : List Ptr → List Callback → Type 0
ClosesOnly closed [] = Unit {0}
ClosesOnly closed (on_close p ∷ cs) = (count p closed ≢ 0) × ClosesOnly closed cs
ClosesOnly closed (on_listen p status ∷ cs) = ClosesOnly closed cs
ClosesOnly closed (on_read p n buf ∷ cs) = ClosesOnly closed cs
ClosesOnly closed (on_write i status ∷ cs) = ClosesOnly closed cs

module _ {Loop : Type 0} where
  -- Where an actor goes on.
  abbrev pub place : Cpu → Sched Loop → Ptr → Point
  place (in_actor pt) s a = if s.running == a then pt else (s.actor a).ctx
  place in_schdule s a = (s.actor a).ctx
  place stopped s a = after_main

  -- What each actor owns is live, belongs to it alone, and was not closed.
  pub record Shares (own : Ptr → List Ptr) (closed : List Ptr) (s : Sched Loop) : Type 0 where
    pub live : (a p : Ptr) → count p (own a) ≢ 0 → is_some (get_fd p s) ≡ true
    pub once : (a p : Ptr) → count p (own a) ≤ 1
    pub apart : (a b p : Ptr) → a ≢ b → count p (own a) + count p (own b) ≤ 1
    pub gone : (a p : Ptr) → count p closed ≢ 0 → count p (own a) ≡ 0
    pub made : (p : Ptr) → count p closed ≢ 0 → p < length s.fds
    pub fresh : (a p : Ptr) → s.next_actor ≤ a → count p (own a) ≡ 0

  -- And each actor goes on in code that uses only what it owns.
  pub record Owned (own : Ptr → List Ptr) (closed : List Ptr) (m : Machine Loop) : Type 0 where
    pub shares : Shares own closed m.sche
    pub uses :
        (a : Ptr)
        → a < m.sche.next_actor
        → UsesAt (own a) (m.sche.actor a).fn (place m.cpu m.sche a)

  -- Some shares keep the discipline.
  abbrev pub Keeps : List Ptr → Machine Loop → Type 0
  Keeps closed m = (own : Ptr → List Ptr) × Owned own closed m

  abbrev pub CalmRound : Uv Loop → List Ptr → List Ptr → Sched Loop → Type 0
  CalmRound uv closed [] s = ClosesOnly closed (uv.run_once s.loop).0
  CalmRound uv closed (p ∷ ps) s = Unit {0}

  -- What a step asks of libuv: its callbacks are for live descriptors, and no write fails.
  abbrev pub Calm : Uv Loop → List Ptr → Cpu → Sched Loop → Type 0
  Calm uv closed in_schdule s = (legal_round uv s.readyq s ≡ true) × CalmRound uv closed s.readyq s
  Calm uv closed (in_actor pt) s = Unit {0}
  Calm uv closed stopped s = Unit {0}

  -- The same of `n` steps.
  unfoldable pub CalmRun : Uv Loop → ℕ → List Ptr → Machine Loop → Type 0
  CalmRun uv zero closed m = Unit {0}
  CalmRun uv (suc n) closed m =
      Calm uv closed m.cpu m.sche × Holds (CalmRun uv n (closed_at m.cpu ++ closed)) (step uv m)
