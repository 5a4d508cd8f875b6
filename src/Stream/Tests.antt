-- ===== src/Stream/Tests.antt =====
-- A connection on which two buffers come, at a time or one after the other.
use sherry.Base.{◌≡◌, refl, pos, List, [], ◌∷◌}
use sherry.Actor.{Prog}
use sherry.Uv.{Uv, Callback, on_read}
use sherry.Step.{
  boot, sherry_init, step, step_at, steps, exec, call, exit_round, schdule, callbacks, finish,
  init_with, blank,
}
use sherry.Sched.{
  setready, setrunning, reg_actor, unreg_actor, clear_slot, alloc_actor, room, room_for, find_slot,
  grow, unblock_all,
}
use sherry.Switch.{sherry_yield}
use sherry.Net.{
  sherry_fd_tcp, sherry_read, read_begin, read_loop, read_fd, read_size, kept_offset, block_fd,
  callback, read_cb, store_read, unblock_fd,
}
use sherry.Queues.{Surely}
use sherry.Resume.Step.{boot-Sound}
use sherry.Examples.Quiet.{scripted}
use sherry.Progress.Run.{LegalRun}
use sherry.Progress.{legal_at, legal_round, legal_callbacks, lives_in, legal_point, legal_call}
use sherry.Stream.{lost_by, lost_by_all, given_at, lost_at}
use sherry.Runs.{Along}
use sherry.Stream.Reads.{Reads}
use sherry.Stream.Run.{given_in, lost_in, Delivers, steps-Delivers}

abbrev hello : Callback
hello = on_read 0 (pos 3) (1 ∷ 2 ∷ 3 ∷ [])

abbrev world : Callback
world = on_read 0 (pos 2) (4 ∷ 5 ∷ [])

-- `main` reads four times, two bytes at most.
abbrev reads : Prog
reads = Prog.fd_tcp λ p.
    Prog.read p 2
      λ n bs. Prog.read p 2 λ n bs. Prog.read p 2 λ n bs. Prog.read p 2 λ n bs. Prog.exit

abbrev apart : Uv (List (List Callback))
apart = scripted ((hello ∷ []) ∷ (world ∷ []) ∷ [])

abbrev at_once : Uv (List (List Callback))
at_once = scripted ((hello ∷ world ∷ []) ∷ [])

apart-given : given_in apart 0 14 (boot apart reads) ≡ 1 ∷ 2 ∷ 3 ∷ 4 ∷ 5 ∷ []
unfolding given_in given_at boot sherry_init step step_at steps exec call exit_round schdule
    callbacks finish init_with blank setready setrunning reg_actor unreg_actor clear_slot
    alloc_actor room room_for find_slot grow unblock_all sherry_yield sherry_fd_tcp sherry_read
    read_begin read_loop read_fd read_size kept_offset block_fd callback read_cb store_read
    unblock_fd
apart-given = refl

-- The second buffer takes the place of the first, which nobody has read.
at_once-lost : lost_in at_once 0 8 (boot at_once reads) ≡ 3
unfolding lost_in lost_at lost_by lost_by_all boot sherry_init step step_at steps exec call
    exit_round schdule callbacks finish init_with blank setready setrunning reg_actor unreg_actor
    clear_slot alloc_actor room room_for find_slot grow unblock_all sherry_yield sherry_fd_tcp
    sherry_read read_begin read_loop read_fd read_size kept_offset block_fd callback read_cb
    store_read unblock_fd
at_once-lost = refl

apart-LegalRun : LegalRun apart 14 (boot apart reads)
unfolding LegalRun legal_at legal_round legal_callbacks lives_in legal_point legal_call boot
    sherry_init step step_at steps exec call exit_round schdule callbacks finish init_with blank
    setready setrunning reg_actor unreg_actor clear_slot alloc_actor room room_for find_slot grow
    unblock_all sherry_yield sherry_fd_tcp sherry_read read_begin read_loop read_fd read_size
    kept_offset block_fd callback read_cb store_read unblock_fd
apart-LegalRun = (
  refl,
  (
    refl,
    (
      refl,
      (refl, (refl, (refl, (refl, (refl, (refl, (refl, (refl, (refl, (refl, (refl, tt))))))))))),
    ),
  ),
)

steps-Delivers_example :
    Surely
      (λ t. Delivers apart 0 14 (boot apart reads) t × Along apart Reads 14 (boot apart reads))
      (steps apart 14 (boot apart reads))
steps-Delivers_example =
    steps-Delivers apart 0 14 (boot apart reads) (boot-Sound apart reads) apart-LegalRun
