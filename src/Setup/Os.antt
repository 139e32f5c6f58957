-- ===== src/Setup/Os.antt =====
-- The calls of the operating system that `init` and `stop` make: parameters, and what is documented of them.
use cpp_backend.Prelude.{ℕ, ◌≡◌, Bool, true, false, Option, none, some, if◌then◌else◌, ◌==◌}

pub data Call : Type 0 where
  setsockopt : Call
  bind : Call
  listen : (backlog : ℕ) → Call
  epoll_add : Call  -- epoll_ctl(epfd, EPOLL_CTL_ADD, server_fd, &ev)
  shutdown : Call  -- shutdown(server_fd, SHUT_RD)
  epoll_mod : (epfd : ℕ) → Call  -- epoll_ctl(epfd, EPOLL_CTL_MOD, server_fd, &dummy)

pub record Os : Type 1 where
  pub World : Type 0
  pub socket : World → Option ℕ × World
  pub epoll_create : World → Option ℕ × World
  pub call : Call → Option ℕ → World → Bool × World  -- on this descriptor: did it succeed
  pub close : ℕ → World → World
  pub is_open : World → ℕ → Bool  -- the descriptor table, which the program does not see

-- A call that gives a descriptor gives one that was not open, and opens it and no other; one that fails opens none.
abbrev pub Opens : (os : Os) → (os.World → Option ℕ × os.World) → Type 0
Opens os make =
    (w : os.World) (i : ℕ)
    → ((fd : ℕ) → (make w).0 ≡ some fd → os.is_open w fd ≡ false)
      × (os.is_open (make w).1 i ≡ (elim (make w).0 [
        | none ↦ os.is_open w i
        | some fd ↦ if i == fd then true else os.is_open w i
      ]))

-- socket(2), epoll_create(2), close(2); the others open and close nothing.
pub record Documented (os : Os) : Type 0 where
  pub socket_opens : Opens os os.socket
  pub epoll_opens : Opens os os.epoll_create
  pub call_keeps :
      (c : Call) (fd : Option ℕ) (w : os.World) (i : ℕ)
      → os.is_open (os.call c fd w).1 i ≡ os.is_open w i
  pub close_lem :
      (fd i : ℕ) (w : os.World)
      → os.is_open (os.close fd w) i ≡ (if i == fd then false else os.is_open w i)
