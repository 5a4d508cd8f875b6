-- ===== src/Chat/Clients.antt =====
-- A client that comes and goes.
use sherry.Base.{ℕ, zero, suc, ◌≡◌, refl, ap, get_elem?, set, some, List, [], ◌∷◌, arith}
use sherry.Queues.{Surely}
use sherry.Chat.{Chat, ChatMsg, MsgType, send_exit, close, handle, on_create, on_exit}

set-set : (xs : List ℕ) (i a b : ℕ) → set (set xs i a) i b ≡ set xs i b
set-set [] i a b = refl
set-set (x ∷ xs) zero a b = refl
set-set (x ∷ xs) (suc i) a b = ap (λ ys. x ∷ ys) (set-set xs i a b)

set-same : (xs : List ℕ) (i a : ℕ) → get_elem? xs i ≡ some a → set xs i a ≡ xs
set-same [] i a e = refl
set-same (x ∷ xs) zero a e = let same : x ≡ a = cc in rw same refl
set-same (x ∷ xs) (suc i) a e = ap (λ ys. x ∷ ys) (set-same xs i a e)

get_set : (xs : List ℕ) (i a b : ℕ) → get_elem? xs i ≡ some a → get_elem? (set xs i b) i ≡ some b
get_set [] i a b e = ground arith
get_set (x ∷ xs) zero a b e = refl
get_set (x ∷ xs) (suc i) a b e = get_set xs i a b e

-- A client that comes to a free place and goes again leaves both arrays as they were; at its end
-- its writer is told to exit and the file descriptor is closed.
pub handle_create_exit :
    (welcome : List ℕ) (reader writer r w : ℕ) (m n : ChatMsg) (c : Chat)
    → m.msgtype ≡ MsgType.msg_create
    → n.msgtype ≡ MsgType.msg_exit
    → n.fd ≡ m.fd
    → get_elem? c.clireader m.fd ≡ some 0
    → get_elem? c.cliwriter m.fd ≡ some 0
    → Surely
        (λ s.
          Surely
            (λ t. (t.0 ≡ c) × (t.1 ≡ send_exit writer ∷ close m.fd ∷ []))
            (handle welcome r w n s.0))
        (handle welcome reader writer m c)
unfolding handle on_create on_exit
handle_create_exit welcome reader writer r w m n c e f same free_r free_w =
    rw (e, free_w, f, same, get_set c.cliwriter m.fd 0 writer free_w)
      (rw
        (
          set-set c.clireader m.fd reader 0,
          set-set c.cliwriter m.fd writer 0,
          set-same c.clireader m.fd 0 free_r,
          set-same c.cliwriter m.fd 0 free_w,
        )
        (refl, refl))
