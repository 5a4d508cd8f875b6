-- ===== src/Examples/Tests.antt =====
-- The example programs run to their end, from a table of four slots.
use sherry.Base.{ℕ, ◌≡◌, refl, Option, none, some, List, [], ◌∷◌}
use sherry.Actor.{Prog, in_fn}
use sherry.Step.{
  step, step_at, steps, exec, call, exit_round, schdule, callbacks, finish, init_with, blank,
}
use sherry.Switch.{sherry_spawn, sherry_yield}
use sherry.Sched.{
  setready, setrunning, reg_actor, unreg_actor, clear_slot, alloc_actor, room, room_for, find_slot,
  grow,
}
use sherry.Message.{sherry_msg_send, deliver, post, wake, recv_begin, recv_end}
use sherry.Switch.{goes_on}
use sherry.Examples.{
  test_rounds, testf, test_simple, pingf, pong_answer, pongf, test_message, ping, pong,
}
use sherry.Examples.Quiet.{quiet}

printed_by : ℕ → Prog → Option (List (ℕ × ℕ))
unfolding step step_at steps exec call exit_round schdule callbacks finish init_with blank
    sherry_spawn sherry_yield setready setrunning reg_actor unreg_actor clear_slot alloc_actor room
    room_for find_slot grow sherry_msg_send deliver post wake recv_begin recv_end
printed_by n p = elim (steps quiet n (goes_on (in_fn p) (init_with quiet 4))) [
  | none ↦ none
  | some m ↦ some m.sche.printed
]

-- `pongf` receives one message: the second ping is not answered.
test_message_prints : printed_by 60 test_message ≡ some ((ping, 0) ∷ (ping, 0) ∷ (pong, 0) ∷ [])
unfolding printed_by test_message pong_answer pongf pingf step step_at steps exec call exit_round
    schdule callbacks finish init_with blank sherry_spawn sherry_yield setready setrunning reg_actor
    unreg_actor clear_slot alloc_actor room room_for find_slot grow sherry_msg_send deliver post
    wake recv_begin recv_end
test_message_prints = refl

-- The four actors take turns as long as they have rounds left.
test_simple_prints :
    printed_by 200 test_simple
    ≡ some (
        (1, 1)
        ∷ (2, 1)
        ∷ (3, 1)
        ∷ (4, 1)
        ∷ (1, 2)
        ∷ (2, 2)
        ∷ (3, 2)
        ∷ (4, 2)
        ∷ (1, 3)
        ∷ (2, 3)
        ∷ (3, 3)
        ∷ (1, 4)
        ∷ (3, 4)
        ∷ (1, 5)
        ∷ (3, 5)
        ∷ (3, 6)
        ∷ (3, 7)
        ∷ (3, 8)
        ∷ (3, 9)
        ∷ (3, 10)
        ∷ [])
unfolding printed_by test_simple testf test_rounds step step_at steps exec call exit_round schdule
    callbacks finish init_with blank sherry_spawn sherry_yield setready setrunning reg_actor
    unreg_actor clear_slot alloc_actor room room_for find_slot grow sherry_msg_send deliver post
    wake recv_begin recv_end
test_simple_prints = refl
