-- ===== src/Waits/Tests.antt =====
-- Runs in which actors wait: a read, and a write that libuv does not take.
use sherry.Base.{◌≡◌, refl, pos, negsuc, List, [], ◌∷◌, ◌++◌}
use sherry.Actor.{Prog}
use sherry.Uv.{Uv, Callback, on_read}
use sherry.Step.{
  boot, sherry_init, step, step_at, steps, exec, call, schdule, callbacks, init_with, blank,
}
use sherry.Sched.{
  setready, setrunning, reg_actor, alloc_actor, room, room_for, find_slot, unblock_all,
}
use sherry.Net.{
  sherry_fd_tcp, sherry_read, read_begin, read_loop, read_fd, read_size, kept_offset, block_fd,
  callback, read_cb, store_read, unblock_fd, sherry_write, write_begin,
}
use sherry.Queues.{Holds, Surely}
use sherry.Examples.{test_simple}
use sherry.Examples.Quiet.{quiet, scripted}
use sherry.Progress.Run.{LegalRun}
use sherry.Progress.{legal_at, legal_round, legal_callbacks, lives_in, legal_point, legal_call}
use sherry.Waits.{deserted_at}
use sherry.Waits.Run.{
  InQueues, deserted_in, boot-InQueues, step-InQueues, run-InQueues, legal-InQueues,
}

-- `main` reads before there is anything to read.
abbrev reads_once : Prog
reads_once = Prog.fd_tcp λ p. Prog.read p 2 λ n bs. Prog.exit

abbrev one_buffer : Uv (List (List Callback))
one_buffer = scripted ((on_read 0 (pos 3) (1 ∷ 2 ∷ 3 ∷ []) ∷ []) ∷ [])

reads_once-LegalRun : LegalRun one_buffer 5 (boot one_buffer reads_once)
unfolding LegalRun legal_at legal_round legal_callbacks lives_in legal_point legal_call boot
    sherry_init step step_at steps exec call schdule callbacks init_with blank setready setrunning
    reg_actor alloc_actor room room_for find_slot unblock_all sherry_fd_tcp sherry_read read_begin
    read_loop read_fd read_size kept_offset block_fd callback read_cb store_read unblock_fd
reads_once-LegalRun = (refl, (refl, (refl, (refl, (refl, tt)))))

legal-InQueues_example :
    Surely
      (InQueues (deserted_in one_buffer 5 (boot one_buffer reads_once)))
      (steps one_buffer 5 (boot one_buffer reads_once))
legal-InQueues_example = legal-InQueues one_buffer reads_once 5 reads_once-LegalRun

run-InQueues_example :
    Holds
      (InQueues (deserted_in one_buffer 3 (boot one_buffer reads_once)))
      (steps one_buffer 3 (boot one_buffer reads_once))
run-InQueues_example = run-InQueues one_buffer reads_once 3

-- The reader has blocked, and is in its queue.
reads_once-deserted : deserted_in one_buffer 4 (boot one_buffer reads_once) ≡ []
unfolding deserted_in boot sherry_init step step_at exec call schdule callbacks init_with blank
    setready setrunning reg_actor alloc_actor room room_for find_slot unblock_all sherry_fd_tcp
    sherry_read read_begin read_loop read_fd read_size kept_offset block_fd callback read_cb
    store_read unblock_fd
reads_once-deserted = refl

-- A network that takes no write.
abbrev no_write : Uv (Unit {0})
no_write = record quiet { write = λ p bs l. (negsuc 31, l) }

abbrev writes_once : Prog
writes_once = Prog.fd_tcp λ p. Prog.write p (1 ∷ []) λ n. Prog.exit

-- Then `main` waits for nothing.
writes_once-deserted : deserted_in no_write 4 (boot no_write writes_once) ≡ 0 ∷ []
unfolding deserted_in boot sherry_init step step_at exec call schdule callbacks init_with blank
    setrunning reg_actor alloc_actor room room_for find_slot sherry_fd_tcp sherry_write write_begin
writes_once-deserted = refl

step-InQueues_example :
    let m = boot quiet test_simple in
    Holds (InQueues (deserted_at quiet m.cpu m.sche ++ [])) (step quiet m)
step-InQueues_example =
    step-InQueues quiet [] (boot quiet test_simple) (boot-InQueues quiet test_simple)
