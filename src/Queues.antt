-- ===== src/Queues.antt =====
-- Which queue an actor hangs in, by its status. A node that is put into a second list breaks the
-- first, so this is what every `list_enqueue` and `list_erase` of the scheduler rests on.
pub mod Ready
pub mod Switch
pub mod Message
pub mod Net
pub mod Calls
pub mod Step
use sherry.Base.{ℕ, ◌+◌, ◌≤◌, ◌≡◌, Option, none, some, List, [], ◌∷◌, to_nat, count, and_then}
use sherry.Actor.{Ptr, Status, Actor, is_ready, is_wait_msg, is_wait_ev}
use sherry.Sched.{Fd, Sched}

-- How often an actor hangs in the wait queues of the file descriptors.
abbrev pub waits_at : Ptr → Option Fd → ℕ
waits_at p none = 0
waits_at p (some f) = count p f.wait_read + count p f.wait_write

unfoldable pub waits : Ptr → List (Option Fd) → ℕ
waits p [] = 0
waits p (f ∷ fds) = waits_at p f + waits p fds

-- The actor `p` is in `readyq` once if it is ready, in `waitingmsg` once if it waits for a message,
-- and in a wait queue, a write request or the list `ps` at most once, and only if it waits
-- for an event. `ps` are actors that were just taken out of a wait queue.
pub record At {Loop : Type 0} (ps : List Ptr) (s : Sched Loop) (p : Ptr) : Type 0 where
  pub ready : count p s.readyq ≡ to_nat (is_ready (s.actor p).status)
  pub waiting : count p s.waitingmsg ≡ to_nat (is_wait_msg (s.actor p).status)
  pub event :
      waits p s.fds + count p s.requests + count p ps ≤ to_nat (is_wait_ev (s.actor p).status)

-- A run that ends without a fault ends with `P`.
abbrev pub Holds {ℓ} : {A : Type 0} → (A → Type ℓ) → Option A → Type ℓ
Holds P none = Unit
Holds P (some a) = P a

pub Holds-then {ℓ κ} :
    {A B : Type 0} (P : A → Type ℓ) (Q : B → Type κ) (o : Option A) (f : A → Option B)
    → Holds P o
    → ((a : A) → P a → Holds Q (f a))
    → Holds Q (and_then o f)
Holds-then P Q none f h g = tt
Holds-then P Q (some a) f h g = g a h

-- A run ends without a fault, and with `P`.
abbrev pub Surely : {A : Type 0} → (A → Type 0) → Option A → Type 0
Surely P none = ⊥
Surely P (some a) = P a

pub Surely-then :
    {A B : Type 0} (P : A → Type 0) (Q : B → Type 0) (o : Option A) (f : A → Option B)
    → Surely P o
    → ((a : A) → P a → Surely Q (f a))
    → Surely Q (and_then o f)
Surely-then P Q none f h g = elim h [ ]
Surely-then P Q (some a) f h g = g a h

pub Surely-map :
    {A : Type 0} (P Q : A → Type 0) (o : Option A) → Surely P o → ((a : A) → P a → Q a) → Surely Q o
Surely-map P Q none h g = h
Surely-map P Q (some a) h g = g a h

pub Holds-both {ℓ κ} :
    {A : Type 0} (P : A → Type ℓ) (Q : A → Type κ) (o : Option A)
    → Holds P o
    → Holds Q o
    → Holds (λ a. P a × Q a) o
Holds-both P Q none h k = tt
Holds-both P Q (some a) h k = (h, k)

-- Every actor is where its status says, and memory that is not allocated has no status.
pub record Queued {Loop : Type 0} (ps : List Ptr) (s : Sched Loop) : Type 0 where
  pub place : (p : Ptr) → At ps s p
  pub unused : (p : Ptr) → s.next_actor ≤ p → (s.actor p).status ≡ Status.none
