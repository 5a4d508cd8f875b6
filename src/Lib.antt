-- ===== src/Lib.antt =====
-- sherry: a library of actors for C, which run on stacks of their own in one thread and wait for
-- messages and for the network of libuv.
--
-- The parts of the program (sherry.c, sherry.h) and the files here:
--
--   Base       shared names, Boolean tests, the C `int`, lists, and counting in lists.
--   Dll        the doubly linked list (sherry.c, lines 44 to 128), pointer by pointer: a memory is a
--              function from addresses to nodes, NULL is 0, and a use of NULL is a fault. `Rep`
--              says which list of addresses a memory holds. The other files use such lists for
--              the queues `readyq`, `waitingmsg`, `waitq` and `mailbox`; this asks that an actor
--              hangs in one queue at a time, which is the invariant of Queues.
--   Actor      `struct actor` and its status. The code of an actor is a tree of the calls of sherry.h
--              (`Prog`), its saved context the place where it goes on (`Point`).
--   Uv         libuv, as the record `Uv` of its answers on a state `Loop` of its own. Every
--              definition that calls libuv takes it as an argument. `run_once` gives the callbacks
--              of one `uv_run` in UV_RUN_ONCE mode.
--   Sched      `struct scheduler`, the actor table (`reg_actor`, `unreg_actor`, `get_actor`) and
--              `setready`, `setrunning`, `unblock_all`.
--   Switch     `yield`, `sherry_yield`, `sherry_spawn`.
--   Message    `sherry_msg_send` and `sherry_msg_recv`, the latter in its two halves around `yield`.
--   Net        the calls on file descriptors and the callbacks that libuv runs.
--   Step       the whole machine: `exec` is what the running actor does next, `schdule` one round of
--              the scheduler's loop, `sherry_init` and `sherry_exit` the start and the end.
--              A step is one call of the running actor or one round of a loop, so a run is
--              `steps n` for any number `n`; nothing is cut off by fuel.
--   Links      the scheduler's queues as linked nodes inside the actors' structures, with `setready`,
--              the wake of a receiver, `block_fd`, `unblock_all` and the head of the loop in `schdule`
--              on them; between Dll and the lists of Sched, Message and Net.
--   Memory     which blocks and strings are live: the wrappers of malloc, messages and mailboxes at
--              their addresses, `free_actor`, the buffers of a file descriptor (Buffers), the life
--              of the library (Life), and the stacks that valgrind knows (Valgrind).
--   Context    `_makecontext` and `_swapcontext` for x86-64: the registers that a switch saves and the
--              words of a stack, below the level at which Switch stands; Stack places them in an
--              actor's block, and Ucontext has the variant for other processors.
--   Examples   the programs of examples/test.c, with their output in Examples/Tests and the end of
--              the benchmark in Examples/Bench, and in
--              Examples/Http the server of examples/http-server.c, whose endless loop is cut
--              after any number of rounds; Examples/Serve shows that it keeps
--              the discipline of Owns.
--   Chat       examples/sherry-chat.c: the server's handler of one message, its loop over a sequence
--              of them (Serve), the reader, writer and acceptor (Actors), their C strings
--              (Text) and the socket set-up over the system calls (Socket).
--   Frame      the small writes that every operation is made of, as an interface: what they keep, each
--              call and each callback keeps. Table, Mail and Turns fill it.
--   Runs       what holds of each step of a run.
--   Queues, Resume, Waits, Progress, Mail, Turns, Stops, Stream, Owns, Table, Exit, Read
--              lemmas on the above and the theorems listed below, each with its tests: the queue that an
--              actor hangs in, the place where it goes on, who waits in no queue, what a legal call is, the
--              messages and the turns of a run, programs that end, the bytes of a connection over a run,
--              which actor may use a file descriptor, the ids, actors that wait in `sherry_exit`, and one read or callback.
--
-- Choices: `none` as the result of an operation is a fault of the program, such as the use of a file
-- descriptor that was freed, of an id of no actor, or a failed assertion. In the scheduler's model
-- allocation succeeds, and the `int` sizes of the table do not overflow; Memory has the failures of
-- malloc and realloc. `sherry_init` makes a table of 1000 slots, as the source does; the lemmas
-- take any size. A message's payload, which the library only passes on and frees, is an opaque
-- value. `memcpy` into the reader's buffer is the list of bytes that `sherry_read` returns.
-- Fuel stands only in the loops over linked nodes, `free_mailbox` and `unblock_all_at`: more fuel
-- than the queue has nodes is enough. Parameters for code of others: libuv (Uv), `sdsfree`
-- (Memory), valgrind, ucontext.h, the system calls and what `%d` writes (Chat). Offsets and sizes of
-- structures are those of x86-64.
--
-- Not modelled: the strings of sds.c, sds.h and sdsalloc.h (a copy of another library), the clock of the
-- benchmark in examples/test.c, and the blocks that examples/sherry-chat.c takes and frees. That
-- program calls an earlier interface of the library, so its actors are functions from the answers of
-- those calls to what they do.
pub mod Base
pub mod Dll
pub mod Actor
pub mod Uv
pub mod Sched
pub mod Switch
pub mod Message
pub mod Net
pub mod Step
pub mod Queues
pub mod Runs
pub mod Frame
pub mod Resume
pub mod Waits
pub mod Table
pub mod Exit
pub mod Read
pub mod Memory
pub mod Links
pub mod Stops
pub mod Context
pub mod Progress
pub mod Chat
pub mod Mail
pub mod Turns
pub mod Stream
pub mod Owns
pub mod Examples
