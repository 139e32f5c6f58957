-- ===== src/PollServer/Os.antt =====
-- The calls of the operating system that pollserver.cpp makes: parameters, and what is documented of them.
use cpp_backend.Prelude.{ℕ, ◌<◌, ◌≤◌, ◌≡◌, ◌≢◌, Bool, true, false, Option, some, List}

-- pollfd: `fd` is `none` for -1; `events` is POLLIN or 0.
pub data Revents : Type 0 where
  nothing : Revents
  pollin : Revents  -- POLLIN, perhaps with others
  hangup : Revents  -- only POLLERR, POLLHUP or POLLNVAL

pub record PollFd : Type 0 where
  pub fd : Option ℕ
  pub events : Bool
  pub revents : Revents

pub record Os : Type 1 where
  pub World : Type 0
  pub accept : ℕ → World → Option ℕ × World
  pub recv : ℕ → ℕ → World → List ℕ × World  -- the bytes, of which there are none at the end and on an error
  pub send : ℕ → List ℕ → World → World  -- its result is only printed
  pub close : ℕ → World → World
  pub poll : (ℕ → PollFd) → ℕ → World → Option (ℕ × (ℕ → PollFd)) × World
  pub interrupted : World → Bool  -- was SIGINT delivered, so that `stop` has run
  pub is_open : World → ℕ → Bool  -- the descriptor table, which the program does not see

-- accept(2), recv(2), send(2), close(2) and poll(2).
pub record Documented (os : Os) : Type 0 where
  pub accept_fresh :
      (l fd : ℕ) (w w' : os.World)
      → os.accept l w ≡ (some fd, w')
      → (os.is_open w fd ≡ false) × (os.is_open w' fd ≡ true)
  pub accept_keeps :
      (l i : ℕ) (w : os.World) → os.is_open w i ≡ true → os.is_open (os.accept l w).1 i ≡ true
  pub recv_keeps :
      (fd n i : ℕ) (w : os.World) → os.is_open w i ≡ true → os.is_open (os.recv fd n w).1 i ≡ true
  pub send_keeps :
      (fd i : ℕ) (bs : List ℕ) (w : os.World)
      → os.is_open w i ≡ true
      → os.is_open (os.send fd bs w) i ≡ true
  pub poll_keeps :
      (fds : ℕ → PollFd) (n i : ℕ) (w : os.World)
      → os.is_open w i ≡ true
      → os.is_open (os.poll fds n w).1 i ≡ true
  pub close_gone : (fd : ℕ) (w : os.World) → os.is_open (os.close fd w) fd ≡ false
  pub close_keeps :
      (fd i : ℕ) (w : os.World) → i ≢ fd → os.is_open (os.close fd w) i ≡ os.is_open w i
  -- poll writes `revents` of the first n entries alone, and POLLIN only where it was asked for.
  pub poll_fd :
      (fds fds' : ℕ → PollFd) (n cnt i : ℕ) (w w' : os.World)
      → os.poll fds n w ≡ (some (cnt, fds'), w')
      → ((fds' i).fd ≡ (fds i).fd) × ((fds' i).events ≡ (fds i).events)
  pub poll_asked :
      (fds fds' : ℕ → PollFd) (n cnt i : ℕ) (w w' : os.World)
      → os.poll fds n w ≡ (some (cnt, fds'), w')
      → i < n
      → (fds' i).revents ≡ pollin
      → (fds i).events ≡ true
  pub poll_rest :
      (fds fds' : ℕ → PollFd) (n cnt i : ℕ) (w w' : os.World)
      → os.poll fds n w ≡ (some (cnt, fds'), w')
      → n ≤ i
      → (fds' i).revents ≡ (fds i).revents
