-- ===== src/Owns/Tests.antt =====
-- A connection that is read and closed, and a request to the web server.
use sherry.Base.{◌≡◌, ◌≢◌, refl, true, pos, List, [], ◌∷◌, count, count-cons, count-nil, arith}
use sherry.Actor.{Prog}
use sherry.Uv.{Uv, Callback, on_read, on_write, on_close}
use sherry.Step.{
  boot, sherry_init, step, step_at, steps, exec, call, exit_round, schdule, callbacks, finish,
  init_with, blank,
}
use sherry.Sched.{
  setready, setrunning, reg_actor, unreg_actor, clear_slot, alloc_actor, room, room_for, find_slot,
  grow, unblock_all,
}
use sherry.Switch.{sherry_yield, sherry_spawn}
use sherry.Net.{
  sherry_fd_tcp, sherry_fd_close, sherry_tcp_bind, sherry_listen, listen_fd, sherry_accept,
  accept_fd, sherry_read, read_begin, read_loop, read_fd, read_size, kept_offset, block_fd,
  sherry_write, write_begin, callback, read_cb, store_read, unblock_fd, write_cb, finish_write,
  close_cb, fdfree,
}
use sherry.Queues.{Surely}
use sherry.Resume.Step.{Sound}
use sherry.Progress.{legal_round, legal_callbacks, lives_in}
use sherry.Examples.Quiet.{scripted}
use sherry.Examples.Http.{Texts, http_handler, accept_loop, http_server}
use sherry.Examples.Serve.{http_server-Sound}
use sherry.Owns.{Uses, CalmRun, closed_at}
use sherry.Owns.Run.{owned-Sound}

yes : true ≡ true
yes = refl

-- One line is read, and the connection is closed.
abbrev one_line : Prog
one_line = Prog.fd_tcp λ p. Prog.read p 9 λ n bs. Prog.fd_close p λ err. Prog.sched_yield Prog.exit

abbrev line_net : Uv (List (List Callback))
line_net = scripted ((on_read 0 (pos 2) (7 ∷ 10 ∷ []) ∷ []) ∷ (on_close 0 ∷ []) ∷ [])

one_line-Uses : Uses [] one_line
one_line-Uses = λ p. (
  (λ z. ground (arith, z, count-cons p p [])),
  λ n bs. (
    [],
    (λ z. ground (arith, z, count-cons p p [])),
    count-nil p,
    (λ q. ground (arith, count-nil q)),
    λ err. tt,
  ),
)

one_line-CalmRun : CalmRun line_net 9 [] (boot line_net one_line)
unfolding CalmRun closed_at legal_round legal_callbacks lives_in boot sherry_init step step_at steps
    exec call exit_round schdule callbacks finish init_with blank setready setrunning reg_actor
    unreg_actor clear_slot alloc_actor room room_for find_slot grow unblock_all sherry_yield
    sherry_spawn sherry_fd_tcp sherry_fd_close sherry_tcp_bind sherry_listen listen_fd sherry_accept
    accept_fd sherry_read read_begin read_loop read_fd read_size kept_offset block_fd sherry_write
    write_begin callback read_cb store_read unblock_fd write_cb finish_write close_cb fdfree
one_line-CalmRun = (tt, (tt, (tt, ((yes, tt), ((yes, tt), (tt, (tt, (tt, ((yes, tt), tt)))))))))

owned-Sound_example : Surely Sound (steps line_net 9 (boot line_net one_line))
owned-Sound_example = owned-Sound line_net one_line 9 one_line-Uses one_line-CalmRun

abbrev texts : Texts
texts = record {
  response_header = 1 ∷ 2 ∷ [];
  response_body = 3 ∷ [];
  error_read = 10;
  error_bind = 11;
  error_listen = 12;
  error_accept = 13;
  listening = 14;
}

abbrev web_net : Uv (List (List Callback))
web_net = scripted (
    (on_read 1 (pos 1) (9 ∷ []) ∷ [])
    ∷ (on_write 0 (pos 0) ∷ [])
    ∷ (on_write 0 (pos 0) ∷ [])
    ∷ (on_close 1 ∷ [])
    ∷ [])

has_one : count 1 (1 ∷ []) ≢ 0
has_one z = ground (arith, z, count-cons 1 1 [])

-- The request is read, the two parts of the answer are written, and the connection is freed.
web-CalmRun : CalmRun web_net 30 [] (boot web_net (http_server texts 0 2))
unfolding CalmRun closed_at legal_round legal_callbacks lives_in boot sherry_init step step_at steps
    exec call exit_round schdule callbacks finish init_with blank setready setrunning reg_actor
    unreg_actor clear_slot alloc_actor room room_for find_slot grow unblock_all sherry_yield
    sherry_spawn sherry_fd_tcp sherry_fd_close sherry_tcp_bind sherry_listen listen_fd sherry_accept
    accept_fd sherry_read read_begin read_loop read_fd read_size kept_offset block_fd sherry_write
    write_begin callback read_cb store_read unblock_fd write_cb finish_write close_cb fdfree
    http_server accept_loop http_handler
web-CalmRun = (
  tt,
  (
    tt,
    (
      tt,
      (
        tt,
        (
          tt,
          (
            tt,
            (
              tt,
              (
                tt,
                (
                  tt,
                  (
                    tt,
                    (
                      tt,
                      (
                        (yes, tt),
                        (
                          tt,
                          (
                            tt,
                            (
                              tt,
                              (
                                (yes, tt),
                                (
                                  (yes, tt),
                                  (
                                    tt,
                                    (
                                      tt,
                                      (
                                        (yes, tt),
                                        (
                                          (yes, tt),
                                          (
                                            tt,
                                            (
                                              tt,
                                              (
                                                (yes, tt),
                                                (
                                                  (yes, tt),
                                                  (
                                                    tt,
                                                    (
                                                      tt,
                                                      (tt, ((yes, (has_one, tt)), ((yes, tt), tt))),
                                                    ),
                                                  ),
                                                ),
                                              ),
                                            ),
                                          ),
                                        ),
                                      ),
                                    ),
                                  ),
                                ),
                              ),
                            ),
                          ),
                        ),
                      ),
                    ),
                  ),
                ),
              ),
            ),
          ),
        ),
      ),
    ),
  ),
)

http_server-Sound_example : Surely Sound (steps web_net 30 (boot web_net (http_server texts 0 2)))
http_server-Sound_example = http_server-Sound web_net texts 0 2 30 web-CalmRun
