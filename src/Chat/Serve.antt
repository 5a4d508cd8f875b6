-- ===== src/Chat/Serve.antt =====
-- The server's loop over its messages, and `main` around it: lines 134 to 179.
use sherry.Base.{
  ℕ, zero, suc, ◌<◌, ◌≡◌, refl, ◌≢◌, Option, none, some, List, [], ◌∷◌, ◌++◌, and_then, length,
  length-set, length-replicate, get_elem?, get_elem?-set, set, arith, ◌∙◌,
}
use sherry.Chat.Text.{codes}
use sherry.Chat.Socket.{Posix, create_tcp_server}
use sherry.Queues.{Surely, Surely-then}
use sherry.Chat.{
  Chat, ChatMsg, MsgType, msg_read, msg_write, msg_create, msg_exit, Action, spawn_acceptor,
  sc_maxcli, init_chat, handle, on_create, on_exit,
}

-- A message that the server receives, with the ids that its spawns return.
pub record Round : Type 0 where
  pub message : ChatMsg
  pub reader : ℕ
  pub writer : ℕ

unfoldable pub serve : List ℕ → List Round → Chat → Option (Chat × List Action)
serve welcome [] c = some (c, [])
serve welcome (r ∷ rs) c =
    and_then (handle welcome r.reader r.writer r.message c)
      λ s. and_then (serve welcome rs s.0) λ t. some (t.0, s.1 ++ t.1)

-- SC_PORT and `welcomeMsg`
abbrev pub sc_port : ℕ
sc_port = 6324

abbrev pub welcome_msg : List ℕ
welcome_msg = codes "Welcome to sherry chat.\nUse /nick <nick> to set your nick.\n"

-- `main`, behind `createTCPServer`: -1, which is `none`, fails the assertion.
unfoldable pub main_with : Option ℕ → List Round → Option (Chat × List Action)
main_with none rounds = none
main_with (some sockfd) rounds =
    and_then (serve welcome_msg rounds init_chat) λ t. some (t.0, spawn_acceptor sockfd ∷ t.1)

unfoldable pub chat_main :
    {Kernel : Type 0} → Posix Kernel → Kernel → List Round → Option (Chat × List Action)
chat_main os k rounds = main_with (create_tcp_server os sc_port k).0 rounds

-- Both arrays have their size, and a place is in use in both or in none.
pub record Paired (c : Chat) : Type 0 where
  pub readers : length c.clireader ≡ sc_maxcli
  pub writers : length c.cliwriter ≡ sc_maxcli
  pub free_writer : (i : ℕ) → get_elem? c.clireader i ≡ some 0 → get_elem? c.cliwriter i ≡ some 0
  pub free_reader : (i : ℕ) → get_elem? c.cliwriter i ≡ some 0 → get_elem? c.clireader i ≡ some 0

-- The file descriptor is in the arrays, and the actors that a spawn returns are not `main`.
pub record InRange (r : Round) : Type 0 where
  pub in_arrays : r.message.fd < sc_maxcli
  pub has_reader : r.reader ≢ 0
  pub has_writer : r.writer ≢ 0

get-some : (xs : List ℕ) (i : ℕ) → i < length xs → (v : ℕ) × (get_elem? xs i ≡ some v)
get-some [] i h = elim h [ ]
get-some (x ∷ xs) zero h = (x, refl)
get-some (x ∷ xs) (suc i) h = get-some xs i (omega arith)

-- Both places are set, to ids or to 0.
set-Paired :
    (c : Chat) (fd r w : ℕ)
    → Paired c
    → fd < sc_maxcli
    → (r ≡ 0 → w ≡ 0)
    → (w ≡ 0 → r ≡ 0)
    → Paired (record { clireader = set c.clireader fd r; cliwriter = set c.cliwriter fd w })
set-Paired c fd r w p lt f g =
    let lr : fd < length c.clireader = omega (arith, lt, p.readers) in
    let lw : fd < length c.cliwriter = omega (arith, lt, p.writers) in
    record {
      readers = length-set c.clireader fd r ∙ p.readers;
      writers = length-set c.cliwriter fd w ∙ p.writers;
      free_writer = λ i e. ground (
        arith,
        get_elem?-set c.clireader fd i r lr,
        get_elem?-set c.cliwriter fd i w lw,
        p.free_writer i,
        f,
      );
      free_reader = λ i e. ground (
        arith,
        get_elem?-set c.clireader fd i r lr,
        get_elem?-set c.cliwriter fd i w lw,
        p.free_reader i,
        g,
      );
    }

handle_by :
    (welcome : List ℕ) (r : Round) (c : Chat)
    → Paired c
    → InRange r
    → (t : MsgType) → r.message.msgtype ≡ t
    → Surely (λ s. Paired s.0) (handle welcome r.reader r.writer r.message c)
unfolding handle on_create on_exit
handle_by welcome r c p h msg_create e =
    let w = get-some c.cliwriter r.message.fd (omega (arith, p.writers, h.in_arrays)) in
    rw (e, w.1)
      (set-Paired c r.message.fd r.reader r.writer p h.in_arrays (λ z. absurd (h.has_reader z))
        (λ z. absurd (h.has_writer z)))
handle_by welcome r c p h msg_exit e =
    let w = get-some c.cliwriter r.message.fd (omega (arith, p.writers, h.in_arrays)) in
    rw (e, w.1) (set-Paired c r.message.fd 0 0 p h.in_arrays (λ z. refl) (λ z. refl))
handle_by welcome r c p h msg_read e = rw e p
handle_by welcome r c p h msg_write e = rw e p

handle-Paired :
    (welcome : List ℕ) (r : Round) (c : Chat)
    → Paired c
    → InRange r
    → Surely (λ s. Paired s.0) (handle welcome r.reader r.writer r.message c)
handle-Paired welcome r c p h = handle_by welcome r c p h r.message.msgtype refl

serve-Paired :
    (welcome : List ℕ) (rs : List Round) (c : Chat)
    → Paired c
    → ((i : ℕ) (r : Round) → get_elem? rs i ≡ some r → InRange r)
    → Surely (λ s. Paired s.0) (serve welcome rs c)
unfolding serve
serve-Paired welcome [] c p h = p
serve-Paired welcome (r ∷ rs) c p h =
    Surely-then (λ s. Paired s.0) (λ s. Paired s.0) (handle welcome r.reader r.writer r.message c)
      (λ s. and_then (serve welcome rs s.0) λ t. some (t.0, s.1 ++ t.1))
      (handle-Paired welcome r c p (h 0 r refl))
      (λ s q.
        Surely-then (λ t. Paired t.0) (λ t. Paired t.0) (serve welcome rs s.0)
          (λ t. some (t.0, s.1 ++ t.1)) (serve-Paired welcome rs s.0 q (λ i r' e. h (suc i) r' e))
          (λ t k. k))

init_chat-Paired : Paired init_chat
unfolding init_chat
init_chat-Paired = record {
  readers = length-replicate {A = ℕ} sc_maxcli 0;
  writers = length-replicate {A = ℕ} sc_maxcli 0;
  free_writer = λ i e. e;
  free_reader = λ i e. e;
}

-- Where `createTCPServer` succeeds, every message names a file descriptor below SC_MAXCLI and no
-- spawn returns 0, the server's loop does not fault on any sequence of messages, and in the end
-- both arrays have their size and a place is in use in both or in none.
pub chat_main-Paired :
    {Kernel : Type 0} (os : Posix Kernel) (k : Kernel) (sockfd : ℕ) (rs : List Round)
    → (create_tcp_server os sc_port k).0 ≡ some sockfd
    → ((i : ℕ) (r : Round) → get_elem? rs i ≡ some r → InRange r)
    → Surely (λ s. Paired s.0) (chat_main os k rs)
unfolding chat_main main_with
chat_main-Paired os k sockfd rs e h = rw e (
    Surely-then (λ t. Paired t.0) (λ t. Paired t.0) (serve welcome_msg rs init_chat)
      (λ t. some (t.0, spawn_acceptor sockfd ∷ t.1))
      (serve-Paired welcome_msg rs init_chat init_chat-Paired h) (λ t k. k))
