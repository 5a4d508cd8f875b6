-- ===== src/Chat/Socket.antt =====
-- The sockets of examples/sherry-chat.c, lines 17 to 53. The system calls are a parameter: what they
-- answer, on a state `Kernel` of their own; -1 is `false` or `none`.
use Prim.Native.Nat.{bit_or}
use sherry.Base.{
  ℕ, ◌≡◌, Bool, true, false, not, ◌&&◌, ◌||◌, refl, ◌∙◌, Option, none, some, if◌then◌else◌, ◌==◌,
  arith,
}

pub record Posix (Kernel : Type 0) : Type 0 where
  pub socket : Kernel → Option ℕ × Kernel
  pub setsockopt : ℕ → ℕ → Kernel → Kernel
  pub bind : ℕ → ℕ → Kernel → Bool × Kernel
  pub listen : ℕ → ℕ → Kernel → Bool × Kernel
  pub get_flags : ℕ → Kernel → Option ℕ × Kernel
  pub set_flags : ℕ → ℕ → Kernel → Bool × Kernel
  pub close : ℕ → Kernel → Kernel
  pub o_nonblock : ℕ
  pub tcp_nodelay : ℕ
  pub so_reuseaddr : ℕ

module _ {Kernel : Type 0} (os : Posix Kernel) where
  -- `socketSetNonBlockNoDelay`, behind its first `fcntl`
  unfoldable pub set_non_block_with : ℕ → Option ℕ → Kernel → Bool × Kernel
  set_non_block_with fd none k = (false, k)
  set_non_block_with fd (some flags) k =
      let r = os.set_flags fd (bit_or flags os.o_nonblock) k in
      if not r.0 then (false, r.1) else (true, os.setsockopt fd os.tcp_nodelay r.1)

  unfoldable pub set_non_block_no_delay : ℕ → Kernel → Bool × Kernel
  set_non_block_no_delay fd k =
      let flags = os.get_flags fd k in set_non_block_with fd flags.0 flags.1

  -- `createTCPServer`, behind its call of `socket`
  unfoldable pub create_on : ℕ → Option ℕ → Kernel → Option ℕ × Kernel
  create_on port none k = (none, k)
  create_on port (some s) k =
      let b = os.bind s port (os.setsockopt s os.so_reuseaddr k) in
      let l = os.listen s 511 b.1 in
      let n = set_non_block_no_delay s l.1 in
      if not b.0
      then (none, os.close s b.1)
      else if not l.0
      then (none, os.close s l.1)
      else if not n.0
      then (none, os.close s n.1)
      else (some s, n.1)

  unfoldable pub create_tcp_server : ℕ → Kernel → Option ℕ × Kernel
  create_tcp_server port k = let s = os.socket k in create_on port s.0 s.1

  -- What the calls do to the open descriptors, as their manual pages say.
  pub record OpensAndCloses (is_open : Kernel → ℕ → Bool) : Type 0 where
    pub socket_opens :
        (k : Kernel) (s fd : ℕ)
        → (os.socket k).0 ≡ some s
        → is_open (os.socket k).1 fd ≡ (fd == s || is_open k fd)
    pub socket_new : (k : Kernel) (s : ℕ) → (os.socket k).0 ≡ some s → is_open k s ≡ false
    pub socket_fails :
        (k : Kernel) (fd : ℕ) → (os.socket k).0 ≡ none → is_open (os.socket k).1 fd ≡ is_open k fd
    pub closes :
        (s : ℕ) (k : Kernel) (fd : ℕ) → is_open (os.close s k) fd ≡ (not (fd == s) && is_open k fd)
    pub option_keeps :
        (s o : ℕ) (k : Kernel) (fd : ℕ) → is_open (os.setsockopt s o k) fd ≡ is_open k fd
    pub bind_keeps :
        (s port : ℕ) (k : Kernel) (fd : ℕ) → is_open (os.bind s port k).1 fd ≡ is_open k fd
    pub listen_keeps :
        (s n : ℕ) (k : Kernel) (fd : ℕ) → is_open (os.listen s n k).1 fd ≡ is_open k fd
    pub get_keeps : (s : ℕ) (k : Kernel) (fd : ℕ) → is_open (os.get_flags s k).1 fd ≡ is_open k fd
    pub set_keeps :
        (s f : ℕ) (k : Kernel) (fd : ℕ) → is_open (os.set_flags s f k).1 fd ≡ is_open k fd

  -- The result of `createTCPServer` and the descriptors that are open after it.
  abbrev pub Created : (Kernel → ℕ → Bool) → Kernel → Option ℕ × Kernel → Type 0
  Created is_open k (none, k') = (fd : ℕ) → is_open k' fd ≡ is_open k fd
  Created is_open k (some s, k') =
      (is_open k s ≡ false) × ((fd : ℕ) → is_open k' fd ≡ (fd == s || is_open k fd))

  module _ (is_open : Kernel → ℕ → Bool) (laws : OpensAndCloses is_open) where
    set_non_block_with-open :
        (fd : ℕ) (flags : Option ℕ) (k : Kernel) (x : ℕ)
        → is_open (set_non_block_with fd flags k).1 x ≡ is_open k x
    unfolding set_non_block_with
    set_non_block_with-open fd none k x = refl
    set_non_block_with-open fd (some flags) k x =
        let f = bit_or flags os.o_nonblock in
        ground (
          arith,
          laws.set_keeps fd f k x,
          laws.option_keeps fd os.tcp_nodelay (os.set_flags fd f k).1 x,
        )

    set_non_block_no_delay-open :
        (fd : ℕ) (k : Kernel) (x : ℕ) → is_open (set_non_block_no_delay fd k).1 x ≡ is_open k x
    unfolding set_non_block_no_delay
    set_non_block_no_delay-open fd k x =
        set_non_block_with-open fd (os.get_flags fd k).0 (os.get_flags fd k).1 x
        ∙ laws.get_keeps fd k x

    -- The descriptor of the new socket is open besides those of before.
    abbrev Opened : Kernel → ℕ → Kernel → Type 0
    Opened k s k' = (fd : ℕ) → is_open k' fd ≡ (fd == s || is_open k fd)

    close-Created :
        (k k' : Kernel) (s : ℕ)
        → is_open k s ≡ false
        → Opened k s k'
        → Created is_open k (none, os.close s k')
    close-Created k k' s new o = λ fd. ground (arith, laws.closes s k' fd, o fd, new)

    if-Created :
        (k : Kernel) (b : Bool) (r r' : Option ℕ × Kernel)
        → Created is_open k r
        → Created is_open k r'
        → Created is_open k (if b then r else r')
    if-Created k true r r' h h' = h
    if-Created k false r r' h h' = h'

    create_on-Created :
        (port : ℕ) (k : Kernel) (o : Option ℕ)
        → (os.socket k).0 ≡ o
        → Created is_open k (create_on port o (os.socket k).1)
    unfolding create_on
    create_on-Created port k none e = λ fd. laws.socket_fails k fd e
    create_on-Created port k (some s) e =
        let k0 = (os.socket k).1 in
        let new = laws.socket_new k s e in
        let k1 = os.setsockopt s os.so_reuseaddr k0 in
        let b = os.bind s port k1 in
        let l = os.listen s 511 b.1 in
        let n = set_non_block_no_delay s l.1 in
        let opened : Opened k s b.1 = λ fd.
          laws.bind_keeps s port k1 fd
          ∙ laws.option_keeps s os.so_reuseaddr k0 fd
          ∙ laws.socket_opens k s fd e in
        let listens : Opened k s l.1 = λ fd. laws.listen_keeps s 511 b.1 fd ∙ opened fd in
        let set : Opened k s n.1 = λ fd. set_non_block_no_delay-open s l.1 fd ∙ listens fd in
        if-Created k (not b.0) (none, os.close s b.1)
          (if not l.0
            then (none, os.close s l.1)
            else if not n.0
            then (none, os.close s n.1)
            else (some s, n.1))
          (close-Created k b.1 s new opened)
          (if-Created k (not l.0) (none, os.close s l.1)
            (if not n.0 then (none, os.close s n.1) else (some s, n.1))
            (close-Created k l.1 s new listens)
            (if-Created k (not n.0) (none, os.close s n.1) (some s, n.1)
              (close-Created k n.1 s new set) (new, set)))

    -- With system calls that open and close descriptors as their manual pages say,
    -- `createTCPServer` leaves no descriptor open that was not open before when it returns -1,
    -- whichever call fails; a descriptor that it returns is new, and the only one more.
    pub create_tcp_server-Created :
        (port : ℕ) (k : Kernel) → Created is_open k (create_tcp_server port k)
    unfolding create_tcp_server
    create_tcp_server-Created port k = create_on-Created port k (os.socket k).0 refl
