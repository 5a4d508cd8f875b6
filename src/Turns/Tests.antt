-- ===== src/Turns/Tests.antt =====
-- The turns of `main` and of an actor that it spawns.
use sherry.Base.{pos, refl, ◌≡◌, [], ◌∷◌}
use sherry.Actor.{Prog}
use sherry.Step.{
  boot, sherry_init, step, step_at, steps, exec, call, exit_round, schdule, callbacks, finish,
  init_with, blank,
}
use sherry.Switch.{sherry_spawn, sherry_yield}
use sherry.Sched.{
  setready, setrunning, reg_actor, unreg_actor, clear_slot, alloc_actor, room, room_for, find_slot,
  grow,
}
use sherry.Message.{sherry_msg_send, deliver, post, wake, recv_begin, recv_end}
use sherry.Examples.Quiet.{quiet}
use sherry.Turns.Run.{picked_at, picked_in}

abbrev two_actors : Prog
two_actors =
    Prog.spawn (Prog.msg_recv (λ m. Prog.done)) (λ id. Prog.msg_send id (pos 5) 0 Prog.exit)

-- `main` waits in `sherry_exit` for the other actor.
turns_of_two_actors : picked_in quiet 12 (boot quiet two_actors) ≡ 1 ∷ 0 ∷ []
unfolding picked_in picked_at boot sherry_init step step_at steps exec call exit_round schdule
    callbacks finish init_with blank sherry_spawn sherry_yield setready setrunning reg_actor
    unreg_actor clear_slot alloc_actor room room_for find_slot grow sherry_msg_send deliver post
    wake recv_begin recv_end
turns_of_two_actors = refl
