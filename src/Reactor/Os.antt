-- ===== src/Reactor/Os.antt =====
-- The calls of the operating system that reactor_server.cpp makes: parameters, and what is documented of them.
use cpp_backend.Prelude.{ℕ, ◌≡◌, ◌≢◌, Bool, true, false, ◌||◌, ◌==◌, Option, some, List, [], ◌∷◌}

-- A Channel*, by the object that the Channel is a part of: a Connection stands for itself by its address.
pub data Channel : Type 0 where
  acceptor : Channel
  connection : (address : ℕ) → Channel

-- An epoll_event: data.ptr, and whether EPOLLIN is among its events.
pub record Event : Type 0 where
  pub ch : Channel
  pub readable : Bool

pub record Os : Type 1 where
  pub World : Type 0
  pub accept : ℕ → World → Option ℕ × World
  pub recv : ℕ → ℕ → World → List ℕ × World  -- the bytes, of which there are none at the end and on an error
  pub send : ℕ → List ℕ → World → World  -- a task does not look at its result
  pub close : ℕ → World → World
  pub epoll_wait : (ℕ → Option Channel) → World → List Event × World  -- with the channels that epoll_ctl added
  pub is_open : World → ℕ → Bool  -- the descriptor table, which the program does not see

abbrev pub is_connection : ℕ → Channel → Bool
is_connection c acceptor = false
is_connection c (connection d) = c == d

-- Is there an event of the connection at this address?
abbrev pub mentions : ℕ → List Event → Bool
mentions c [] = false
mentions c (e ∷ es) = is_connection c e.ch || mentions c es

-- No connection has two events.
abbrev pub Distinct : List Event → Type 0
Distinct [] = Unit {0}
Distinct (e ∷ es) = ((c : ℕ) → is_connection c e.ch ≡ true → mentions c es ≡ false) × Distinct es

-- accept(2), recv(2), send(2), close(2), and epoll_wait(2), which reports descriptors of the interest list, each once.
pub record Documented (os : Os) : Type 0 where
  pub accept_fresh :
      (l fd : ℕ) (w w' : os.World)
      → os.accept l w ≡ (some fd, w')
      → (os.is_open w fd ≡ false) × (os.is_open w' fd ≡ true)
  pub accept_keeps :
      (l i : ℕ) (w : os.World) → os.is_open w i ≡ true → os.is_open (os.accept l w).1 i ≡ true
  pub recv_keeps :
      (fd n i : ℕ) (w : os.World) → os.is_open w i ≡ true → os.is_open (os.recv fd n w).1 i ≡ true
  pub wait_keeps :
      (f : ℕ → Option Channel) (i : ℕ) (w : os.World)
      → os.is_open w i ≡ true
      → os.is_open (os.epoll_wait f w).1 i ≡ true
  pub send_keeps :
      (fd i : ℕ) (bs : List ℕ) (w : os.World)
      → os.is_open w i ≡ true
      → os.is_open (os.send fd bs w) i ≡ true
  pub close_keeps :
      (fd i : ℕ) (w : os.World) → i ≢ fd → os.is_open (os.close fd w) i ≡ os.is_open w i
  pub wait_once :
      (f : ℕ → Option Channel) (es : List Event) (w w' : os.World)
      → os.epoll_wait f w ≡ (es, w')
      → Distinct es
  pub wait_added :
      (f : ℕ → Option Channel) (es : List Event) (w w' : os.World)
      → os.epoll_wait f w ≡ (es, w')
      → (c : ℕ) → mentions c es ≡ true
      → (fd : ℕ) × (f fd ≡ some (connection c))
