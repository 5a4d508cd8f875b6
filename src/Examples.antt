-- ===== src/Examples.antt =====
-- The programs of examples/test.c.
pub mod Quiet
pub mod Http
pub mod Bench
pub mod Serve
mod Tests
use sherry.Base.{ℕ, zero, suc, ◌+◌, ℤ, pos, int_eq, Option, none, some, if◌then◌else◌}
use sherry.Actor.{Msg, Prog}

-- The loop of `testf` from `i` on, with `n` rounds left.
pub test_rounds : (prefix i n : ℕ) → Prog
test_rounds prefix i zero = Prog.done
test_rounds prefix i (suc n) =
    Prog.printf prefix i (Prog.sched_yield (test_rounds prefix (i + 1) n))

pub testf : (prefix round : ℕ) → Prog
unfolding test_rounds
testf prefix round = test_rounds prefix 1 round

-- `main` of `test_simple`.
pub test_simple : Prog
unfolding testf
test_simple = Prog.spawn (testf 1 5) λ _.
    Prog.spawn (testf 2 3) λ _. Prog.spawn (testf 3 10) λ _. Prog.spawn (testf 4 2) λ _. Prog.exit

abbrev pub msg_ping : ℤ
msg_ping = pos 100

-- The texts of `pingf` and `pongf`.
abbrev pub ping : ℕ
ping = 0

abbrev pub pong : ℕ
pong = 1

pub pingf : ℤ → Prog
pingf dst =
    Prog.printf ping 0
      (Prog.msg_send dst msg_ping 0 (Prog.printf ping 0 (Prog.msg_send dst msg_ping 0 Prog.done)))

-- `msg->msgtype` of a NULL message would be a fault, which no `Prog` says; here the actor then ends.
pong_answer : Option Msg → Prog
pong_answer none = Prog.done
pong_answer (some m) = if int_eq m.msgtype msg_ping then Prog.printf pong 0 Prog.done else Prog.done

pub pongf : Prog
unfolding pong_answer
pongf = Prog.msg_recv pong_answer

-- `main` of `test_message`.
pub test_message : Prog
unfolding pingf pongf
test_message = Prog.spawn pongf λ sid. Prog.spawn (pingf sid) λ _. Prog.exit

-- The loop of `benchf`, with `n` rounds left.
pub benchf : ℕ → Prog
benchf zero = Prog.done
benchf (suc n) = Prog.sched_yield (benchf n)

bench_spawns : ℕ → ℕ → Prog
unfolding benchf
bench_spawns zero rounds = Prog.exit
bench_spawns (suc n) rounds = Prog.spawn (benchf rounds) λ _. bench_spawns n rounds

-- `main` of `bench_switch`, with the number of actors and of rounds.
pub bench_switch : (actors rounds : ℕ) → Prog
unfolding bench_spawns
bench_switch actors rounds = bench_spawns actors rounds
