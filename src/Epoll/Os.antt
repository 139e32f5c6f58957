-- ===== src/Epoll/Os.antt =====
-- The calls of the operating system that the epoll servers make: parameters, and what is documented of them.
use cpp_backend.Prelude.{
  ℕ, ◌≡◌, ◌≢◌, Bool, true, false, ◌||◌, ◌==◌, Option, none, some, List, [], ◌∷◌,
}

-- recv: the bytes, of which there are none at the end of the stream, or -1 with errno (is it EAGAIN).
pub data Recv : Type 0 where
  bytes : List ℕ → Recv
  failed : (again : Bool) → Recv

-- An epoll_event: data.fd, and whether EPOLLIN is among its events.
pub record Event : Type 0 where
  pub fd : ℕ
  pub readable : Bool

pub record Os : Type 1 where
  pub World : Type 0
  pub accept : ℕ → World → Option ℕ × World
  pub add : ℕ → World → Bool × World  -- epoll_ctl(epfd, EPOLL_CTL_ADD, fd, &ev): did it succeed
  pub recv : ℕ → ℕ → World → Recv × World
  pub send : ℕ → List ℕ → World → Bool × World
  pub close : ℕ → World → World
  pub epoll_wait : (ℕ → Bool) → World → Option (List Event) × World  -- with the descriptors that were added
  pub eintr : World → Bool  -- is errno EINTR
  pub interrupted : World → Bool  -- was SIGINT delivered, so that is_running is false
  pub is_open : World → ℕ → Bool  -- the descriptor table, which the program does not see

-- All events are of descriptors that were added.
abbrev pub AllAdded : (ℕ → Bool) → List Event → Type 0
AllAdded added [] = Unit {0}
AllAdded added (e ∷ es) = (added e.fd ≡ true) × AllAdded added es

-- accept(2), close(2), epoll_ctl(2), which adds open descriptors alone, and epoll_wait(2); the other calls open and close nothing.
pub record Documented (os : Os) : Type 0 where
  pub accept_fresh :
      (l fd : ℕ) (w w' : os.World)
      → os.accept l w ≡ (some fd, w')
      → (os.is_open w fd ≡ false) × ((i : ℕ) → os.is_open w' i ≡ (i == fd || os.is_open w i))
  pub accept_none :
      (l i : ℕ) (w w' : os.World) → os.accept l w ≡ (none, w') → os.is_open w' i ≡ os.is_open w i
  pub add_keeps : (fd i : ℕ) (w : os.World) → os.is_open (os.add fd w).1 i ≡ os.is_open w i
  pub add_open : (fd : ℕ) (w : os.World) → (os.add fd w).0 ≡ true → os.is_open w fd ≡ true
  pub recv_keeps : (fd n i : ℕ) (w : os.World) → os.is_open (os.recv fd n w).1 i ≡ os.is_open w i
  pub send_keeps :
      (fd i : ℕ) (bs : List ℕ) (w : os.World) → os.is_open (os.send fd bs w).1 i ≡ os.is_open w i
  pub wait_keeps :
      (f : ℕ → Bool) (i : ℕ) (w : os.World) → os.is_open (os.epoll_wait f w).1 i ≡ os.is_open w i
  pub close_gone : (fd : ℕ) (w : os.World) → os.is_open (os.close fd w) fd ≡ false
  pub close_keeps :
      (fd i : ℕ) (w : os.World) → i ≢ fd → os.is_open (os.close fd w) i ≡ os.is_open w i
  pub wait_added :
      (f : ℕ → Bool) (es : List Event) (w w' : os.World)
      → os.epoll_wait f w ≡ (some es, w')
      → AllAdded f es
