-- ===== src/Mail/Tests.antt =====
-- `main` sends itself two messages and receives the first.
use sherry.Base.{pos, refl, ◌<◌, [], ◌∷◌, arith, ◌≡◌}
use sherry.Actor.{Prog}
use sherry.Step.{
  boot, sherry_init, step, step_at, steps, exec, call, exit_round, schdule, callbacks, finish,
  init_with, blank,
}
use sherry.Switch.{sherry_spawn, sherry_yield}
use sherry.Sched.{
  setready, setrunning, reg_actor, unreg_actor, clear_slot, alloc_actor, room, room_for, find_slot,
  grow,
}
use sherry.Message.{sherry_msg_send, deliver, post, wake, recv_begin, recv_end}
use sherry.Queues.{Surely}
use sherry.Resume.Step.{boot-Sound}
use sherry.Examples.Quiet.{quiet}
use sherry.Progress.Run.{LegalRun}
use sherry.Progress.{legal_at, legal_round, legal_callbacks, lives_in, legal_point, legal_call}
use sherry.Mail.Run.{InOrder, steps-InOrder, taken_in}
use sherry.Runs.{Along}
use sherry.Mail.Hands.{Hands}
use sherry.Mail.History.{taken_at}

abbrev to_self : Prog
to_self =
    Prog.msg_send (pos 0) (pos 5) 7
      (Prog.msg_send (pos 0) (pos 6) 8 (Prog.msg_recv (λ m. Prog.exit)))

to_self-LegalRun : LegalRun quiet 5 (boot quiet to_self)
unfolding LegalRun legal_at legal_round legal_callbacks lives_in legal_point legal_call boot
    sherry_init step step_at steps exec call exit_round schdule callbacks finish init_with blank
    sherry_spawn sherry_yield setready setrunning reg_actor unreg_actor clear_slot alloc_actor room
    room_for find_slot grow sherry_msg_send deliver post wake recv_begin recv_end
to_self-LegalRun = (refl, (refl, (refl, (refl, (refl, tt)))))

main_allocated : 0 < (boot quiet to_self).sche.next_actor
unfolding boot sherry_init init_with setrunning reg_actor alloc_actor blank
main_allocated = omega arith

main_takes_one :
    taken_in quiet 0 5 (boot quiet to_self)
    ≡ record { sender = pos 0; recver = pos 0; msgtype = pos 5; payload = 7 } ∷ []
unfolding taken_in taken_at boot sherry_init step step_at steps exec call exit_round schdule
    callbacks finish init_with blank sherry_spawn sherry_yield setready setrunning reg_actor
    unreg_actor clear_slot alloc_actor room room_for find_slot grow sherry_msg_send deliver post
    wake recv_begin recv_end
main_takes_one = refl

steps-InOrder_example :
    Surely
      (λ t. InOrder quiet 0 5 (boot quiet to_self) t × Along quiet Hands 5 (boot quiet to_self))
      (steps quiet 5 (boot quiet to_self))
steps-InOrder_example =
    steps-InOrder quiet 0 5 (boot quiet to_self) main_allocated (boot-Sound quiet to_self)
      to_self-LegalRun
