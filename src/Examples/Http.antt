-- ===== src/Examples/Http.antt =====
-- The server of examples/http-server.c.
use sherry.Base.{ℕ, zero, suc, is_neg, is_zero, not, ◌||◌, some, List, if◌then◌else◌}
use sherry.Actor.{Ptr, Prog}

-- The texts that the server sends, and those that it prints.
pub record Texts : Type 0 where
  pub response_header : List ℕ
  pub response_body : List ℕ
  pub error_read : ℕ
  pub error_bind : ℕ
  pub error_listen : ℕ
  pub error_accept : ℕ
  pub listening : ℕ

-- `http_handler`; a failed read leaves the file descriptor open.
unfoldable pub http_handler : Texts → Ptr → Prog
http_handler t client_fd = Prog.read client_fd 1023 λ bytes_read request.
    if is_neg bytes_read || is_zero bytes_read
    then Prog.printf t.error_read 0 Prog.done
    else Prog.write client_fd t.response_header
        λ _. Prog.write client_fd t.response_body λ _. Prog.fd_close client_fd λ _. Prog.done

-- The first `n` rounds of the loop in `main`, which does not end.
unfoldable pub accept_loop : Texts → Ptr → ℕ → Prog
accept_loop t server_fd zero = Prog.done
accept_loop t server_fd (suc n) =
    let again = accept_loop t server_fd n in
    Prog.fd_tcp λ client_fd. Prog.accept server_fd client_fd λ err.
      if not (is_zero err)
      then Prog.printf t.error_accept 0 again
      else Prog.spawn (http_handler t client_fd) λ _. again

-- `main`, with the address and the port that it binds; it returns where a call fails.
unfoldable pub http_server : Texts → (ip : ℕ) → ℕ → Prog
http_server t ip n = Prog.fd_tcp λ server_fd. Prog.tcp_bind server_fd ip 6324 λ bound.
    if not (is_zero bound)
    then Prog.printf t.error_bind 0 Prog.done
    else Prog.listen (some server_fd) 511 λ listens.
      if not (is_zero listens)
      then Prog.printf t.error_listen 0 Prog.done
      else Prog.printf t.listening 0 (accept_loop t server_fd n)
