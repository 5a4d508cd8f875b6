-- ===== src/Stops/Tests.antt =====
-- Programs that end, from `sherry_init` to the end of `sherry_exit`.
use sherry.Actor.{Prog}

-- `main` prints, spawns an actor that yields once, and leaves by `sherry_exit`.
abbrev small : Prog
small = Prog.printf 1 1 (Prog.spawn (Prog.sched_yield Prog.done) λ _. Prog.exit)
