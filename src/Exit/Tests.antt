-- ===== src/Exit/Tests.antt =====
-- `sherry_exit` while an actor waits for a message that nobody sends.
use sherry.Base.{refl, pos, some, [], ◌∷◌, arith, ◌==◌, if◌then◌else◌}
use sherry.Actor.{Ptr, Status, Prog, Actor, new_actor, after_recv, in_exit}
use sherry.Switch.{Machine, in_schdule}
use sherry.Step.{steps}
use sherry.Queues.{Surely}
use sherry.Examples.Quiet.{quiet}
use sherry.Exit.{Waiting, exit_starves}

-- `main` is in the loop of `sherry_exit`, and the actor at 1 waits for a message.
abbrev two_actors : Ptr → Actor
two_actors p =
    if p == 0
    then record (new_actor Prog.done) { aid = pos 0; status = Status.ready; ctx = in_exit }
    else record (new_actor Prog.done) {
      aid = pos 1;
      status = Status.wait_msg;
      ctx = after_recv (λ m. Prog.done);
    }

abbrev stuck : Machine (Unit {0})
stuck = record {
  cpu = in_schdule;
  sche = record {
    actor = two_actors;
    next_actor = 2;
    actors = some 0 ∷ some 1 ∷ [];
    curractors = 2;
    main = 0;
    running = 1;
    readyq = 0 ∷ [];
    waitingmsg = 1 ∷ [];
    fds = [];
    requests = [];
    loop = tt;
    printed = [];
  };
}

stuck-Waiting : Waiting tt stuck
stuck-Waiting = record { turn = (refl, refl); others = omega arith; untouched = refl }

exit_starves_example : Surely (Waiting tt) (steps quiet 100 stuck)
exit_starves_example = exit_starves quiet tt 100 stuck stuck-Waiting
