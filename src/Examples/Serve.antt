-- ===== src/Examples/Serve.antt =====
-- The server of examples/http-server.c uses each connection in one actor only, and only until it
-- has closed it.
use sherry.Base.{
  ℕ, zero, suc, ◌≢◌, is_neg, is_zero, not, ◌||◌, List, [], ◌∷◌, count, count-cons, count-nil,
  if◌then◌else◌, Bool, true, false, arith,
}
use sherry.Actor.{Ptr, Prog}
use sherry.Uv.{Uv}
use sherry.Step.{steps, boot}
use sherry.Queues.{Surely}
use sherry.Resume.Step.{Sound}
use sherry.Owns.{Uses, CalmRun}
use sherry.Owns.Run.{owned-Sound}
use sherry.Examples.Http.{Texts, http_handler, accept_loop, http_server}

has_head : (p : Ptr) (l : List Ptr) → count p (p ∷ l) ≢ 0
has_head p l z = ground (arith, z, count-cons p p l)

has_tail : (p q : Ptr) (l : List Ptr) → count p l ≢ 0 → count p (q ∷ l) ≢ 0
has_tail p q l ne z = ne (omega (arith, z, count-cons p q l))

-- Either branch of a test.
Uses-if : (l : List Ptr) (b : Bool) (p q : Prog) → Uses l p → Uses l q → Uses l (if b then p else q)
Uses-if l true p q u v = u
Uses-if l false p q u v = v

http_handler-Uses : (t : Texts) (p : Ptr) → Uses (p ∷ []) (http_handler t p)
unfolding http_handler
http_handler-Uses t p = (
  has_head p [],
  λ n bytes. Uses-if (p ∷ []) (is_neg n || is_zero n) _ _ tt (
    has_head p [],
    λ _. (
      has_head p [],
      λ _. ([], has_head p [], count-nil p, (λ q. omega (arith, count-nil q)), λ err. tt),
    ),
  ),
)

accept_loop-Uses :
    (t : Texts) (server : Ptr) (n : ℕ) (l : List Ptr)
    → count server l ≢ 0
    → Uses l (accept_loop t server n)
unfolding accept_loop
accept_loop-Uses t server zero l has = tt
accept_loop-Uses t server (suc n) l has = λ client. (
  has_tail server client l has,
  has_head client l,
  λ err.
      Uses-if (client ∷ l) (not (is_zero err)) _ _
        (accept_loop-Uses t server n (client ∷ l) (has_tail server client l has))
        (
          client ∷ [],
          l,
          (λ p. omega (arith, count-cons p client [], count-cons p client l, count-nil p)),
          http_handler-Uses t client,
          λ id. accept_loop-Uses t server n l has,
        ),
)

http_server-Uses : (t : Texts) (ip n : ℕ) → Uses [] (http_server t ip n)
unfolding http_server
http_server-Uses t ip n = λ server. (
  has_head server [],
  λ bound. Uses-if (server ∷ []) (not (is_zero bound)) _ _ tt (
    has_head server [],
    λ listens.
        Uses-if (server ∷ []) (not (is_zero listens)) _ _ tt
          (accept_loop-Uses t server n (server ∷ []) (has_head server [])),
  ),
)

-- The web server, whose `main` makes any number of rounds of its loop, does not fault in any number
-- of steps and every state is `Sound`, whatever clients do: if libuv calls back on descriptors that
-- are not freed, calls `close_cb` only for those that were closed, and reports no write as failed.
pub http_server-Sound :
    {Loop : Type 0} (uv : Uv Loop) (t : Texts) (ip rounds n : ℕ)
    → CalmRun uv n [] (boot uv (http_server t ip rounds))
    → Surely Sound (steps uv n (boot uv (http_server t ip rounds)))
http_server-Sound uv t ip rounds n calm =
    owned-Sound uv (http_server t ip rounds) n (http_server-Uses t ip rounds) calm
