-- ===== src/Examples/Quiet.antt =====
-- Networks for test runs.
use sherry.Base.{pos, negsuc, List, [], ◌∷◌, ◌==◌, if◌then◌else◌}
use sherry.Uv.{Uv, Callback}

-- A network on which nothing happens.
abbrev pub quiet : Uv (Unit {0})
quiet = record {
  eof = negsuc 4094;
  eagain = negsuc 10;
  loop_init = tt;
  tcp_init = λ p l. l;
  tcp_bind = λ p ip port l. (pos 0, l);
  getpeername = λ p n l. (negsuc 106, []);
  listen = λ p b l. (pos 0, l);
  accept = λ p c l. (negsuc 10, l);
  read_start = λ p l. (pos 0, l);
  write = λ p bs l. (pos 0, l);
  close = λ p l. l;
  run_once = λ l. ([], l);
}

-- The callbacks of the next round, and of those behind it.
abbrev rounds_left : List (List Callback) → List Callback × List (List Callback)
rounds_left [] = ([], [])
rounds_left (cs ∷ css) = (cs, css)

-- A network on which these callbacks come, and one connection, as the file descriptor 1.
abbrev pub scripted : List (List Callback) → Uv (List (List Callback))
scripted css = record {
  eof = quiet.eof;
  eagain = quiet.eagain;
  loop_init = css;
  tcp_init = λ p l. l;
  tcp_bind = λ p ip port l. (pos 0, l);
  getpeername = λ p n l. (negsuc 106, []);
  listen = λ p b l. (pos 0, l);
  accept = λ p c l. (if c == 1 then pos 0 else negsuc 10, l);
  read_start = λ p l. (pos 0, l);
  write = λ p bs l. (pos 0, l);
  close = λ p l. l;
  run_once = rounds_left;
}
