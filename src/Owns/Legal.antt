-- ===== src/Owns/Legal.antt =====
-- Code that uses live file descriptors makes legal calls.
use sherry.Base.{◌<◌, ◌≡◌, ◌≢◌, refl, true, none, some, List, [], count, arith}
use sherry.Actor.{
  Ptr, Status, Prog, Point, unset, entry, in_fn, after_recv, in_accept, in_read, after_write,
  in_exit, after_main,
}
use sherry.Uv.{Uv}
use sherry.Sched.{Sched}
use sherry.Switch.{Cpu, in_actor, in_schdule, stopped, current}
use sherry.Net.{get_fd}
use sherry.Queues.{Queued}
use sherry.Queues.Switch.{Active}
use sherry.Progress.{is_some, legal_call, legal_point, legal_at}
use sherry.Owns.{Uses, UsesAt, Owned, Calm}
use sherry.Owns.Exec.{running-UsesAt}

module _ {Loop : Type 0} where
  -- Code that uses live descriptors makes a legal call.
  call_legal :
      (l : List Ptr) (pr : Prog) (s : Sched Loop)
      → ((p : Ptr) → count p l ≢ 0 → is_some (get_fd p s) ≡ true)
      → Uses l pr
      → legal_call pr s ≡ true
  unfolding legal_call
  call_legal l Prog.done s live u = refl
  call_legal l (Prog.printf n i k) s live u = refl
  call_legal l (Prog.spawn f k) s live u = refl
  call_legal l (Prog.sched_yield k) s live u = refl
  call_legal l (Prog.msg_send dst t x k) s live u = absurd u
  call_legal l (Prog.msg_recv k) s live u = refl
  call_legal l (Prog.fd_tcp k) s live u = refl
  call_legal l (Prog.tcp_bind p ip port k) s live (has, u) = live p has
  call_legal l (Prog.tcp_peername p n k) s live (has, u) = live p has
  call_legal l (Prog.listen none n k) s live u = refl
  call_legal l (Prog.listen (some p) n k) s live (has, u) = live p has
  call_legal l (Prog.accept srv cli k) s live u = refl
  call_legal l (Prog.read p n k) s live (has, u) = live p has
  call_legal l (Prog.write p bs k) s live (has, u) = live p has
  call_legal l (Prog.fd_close p k) s live (r, has, drops, less, u) = live p has
  call_legal l Prog.exit s live u = refl

  point_legal :
      (l : List Ptr) (fn : Prog) (pt : Point) (s : Sched Loop)
      → ((p : Ptr) → count p l ≢ 0 → is_some (get_fd p s) ≡ true)
      → UsesAt l fn pt
      → legal_point pt s ≡ true
  unfolding legal_point
  point_legal l fn unset s live u = refl
  point_legal l fn entry s live u = refl
  point_legal l fn (in_fn pr) s live u = call_legal l pr s live u
  point_legal l fn (after_recv k) s live u = refl
  point_legal l fn (in_accept srv cli k) s live (has, also, u) =
      rw (live srv has, live cli also) refl
  point_legal l fn (in_read p n k) s live (has, u) = live p has
  point_legal l fn (after_write n k) s live u = refl
  point_legal l fn in_exit s live u = refl
  point_legal l fn after_main s live u = refl

  pub running-lt :
      (s : Sched Loop)
      → Queued [] s
      → (current s).status ≡ Status.running
      → s.running < s.next_actor
  running-lt s v run = ground (arith, v.unused s.running, run)

  module _ (uv : Uv Loop) where
    pub legal-Owned :
        (own : Ptr → List Ptr) (closed : List Ptr) (cpu : Cpu) (s : Sched Loop)
        → Owned own closed (record { cpu = cpu; sche = s })
        → Queued [] s
        → Active cpu s
        → Calm uv closed cpu s
        → legal_at uv cpu s ≡ true
    unfolding legal_at
    legal-Owned own closed (in_actor pt) s v q run calm =
        let lt = running-lt s q run in
        point_legal (own s.running) (current s).fn pt s (v.shares.live s.running)
          (running-UsesAt uv own closed pt s v lt)
    legal-Owned own closed in_schdule s v q run (legal, only) = legal
    legal-Owned own closed stopped s v q run calm = refl
