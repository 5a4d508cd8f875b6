-- ===== src/Read/Tests.antt =====
-- Reads from a file descriptor with five allocated bytes, of which two were received.
use sherry.Base.{ℕ, ◌≡◌, refl, pos, some, [], ◌∷◌, arith, ◌≤◌, zero, suc, count-nil, count-cons}
use sherry.Actor.{Ptr, Actor, Prog, Status, new_actor, in_read}
use sherry.Sched.{Fd, Sched}
use sherry.Net.{fdnew, fd_tcp_type, read_fd, read_loop, read_cb}
use sherry.Examples.Quiet.{quiet}
use sherry.Queues.{Queued, At, Surely, waits}
use sherry.Read.Outcome.{ReadOutcome, read_fd-ReadOutcome}
use sherry.Read.Arrive.{Arrival, read_cb-Arrival}
use sherry.Read.Stale.{Returned, read_cb_stale}

-- The actor 0 runs; the actor 1 waits for the file descriptor 0.
abbrev waited : Fd
waited = record (fdnew fd_tcp_type) { wait_read = 1 ∷ [] }

abbrev reader : Ptr → Actor
reader zero = record (new_actor Prog.done) { aid = pos 0; status = Status.running }
reader (suc zero) = record (new_actor Prog.done) {
  aid = pos 1;
  status = Status.wait_ev;
  ctx = in_read 0 9 (λ n bytes. Prog.done);
}
reader (suc (suc p)) = new_actor Prog.done

abbrev reading : Sched (Unit {0})
reading = record {
  actor = reader;
  next_actor = 2;
  actors = some 0 ∷ some 1 ∷ [];
  curractors = 2;
  main = 0;
  running = 0;
  readyq = [];
  waitingmsg = [];
  fds = some waited ∷ [];
  requests = [];
  loop = tt;
  printed = [];
}

reading-At : (p : ℕ) → At [] reading p
unfolding waits
reading-At zero = record {
  ready = count-nil 0;
  waiting = count-nil 0;
  event = ground (arith, count-nil 0, count-cons 0 1 []);
}
reading-At (suc zero) = record {
  ready = count-nil 1;
  waiting = count-nil 1;
  event = ground (arith, count-nil 1, count-cons 1 1 []);
}
reading-At (suc (suc p)) = record {
  ready = count-nil (suc (suc p));
  waiting = count-nil (suc (suc p));
  event = ground (arith, count-nil (suc (suc p)), count-cons (suc (suc p)) 1 []);
}

reading-unused : (p : ℕ) → 2 ≤ p → (reading.actor p).status ≡ Status.none
reading-unused zero h = ground arith
reading-unused (suc zero) h = ground arith
reading-unused (suc (suc p)) h = refl

reading-Queued : Queued [] reading
reading-Queued = record { place = reading-At; unused = reading-unused }

read_fd-ReadOutcome_example :
    Surely
      (ReadOutcome quiet 0 3
        (λ n bytes. Prog.done)
        (record waited { rbuf = some (7 ∷ 8 ∷ []) })
        reading)
      (read_fd quiet 0 3
        (λ n bytes. Prog.done)
        (some (record waited { rbuf = some (7 ∷ 8 ∷ []) }))
        reading)
read_fd-ReadOutcome_example =
    read_fd-ReadOutcome quiet 0 3 (λ n bytes. Prog.done)
      (record waited { rbuf = some (7 ∷ 8 ∷ []) }) reading

read_cb-Arrival_example :
    Surely (Arrival 0 (pos 2) (7 ∷ 8 ∷ []) waited reading) (read_cb 0 (pos 2) (7 ∷ 8 ∷ []) reading)
read_cb-Arrival_example = read_cb-Arrival 0 (pos 2) (7 ∷ 8 ∷ []) waited reading refl reading-Queued

-- Two bytes are received, and a read of nine returns all five of the buffer.
read_cb_stale_example :
    Surely
      (λ s.
        Surely
          (Returned (λ n bytes. Prog.done) (7 ∷ 8 ∷ 0 ∷ 0 ∷ 0 ∷ []))
          (read_loop quiet 0 9 (λ n bytes. Prog.done) s))
      (read_cb 0 (pos 2) (7 ∷ 8 ∷ 0 ∷ 0 ∷ 0 ∷ []) reading)
read_cb_stale_example =
    read_cb_stale quiet 0 9 (λ n bytes. Prog.done) waited reading 2 (7 ∷ 8 ∷ 0 ∷ 0 ∷ 0 ∷ []) refl
      reading-Queued refl refl (omega arith) (omega arith) (omega arith)
