-- ===== src/Select/Os.antt =====
-- The calls of the operating system that the select servers make: parameters, and what is documented of them.
use cpp_backend.Prelude.{ℕ, ◌<◌, ◌≡◌, ◌≢◌, Bool, true, false, ◌||◌, ◌==◌, Option, none, some, List}

pub record Os : Type 1 where
  pub World : Type 0
  pub accept : ℕ → World → Option ℕ × World
  pub recv : ℕ → ℕ → World → List ℕ × World  -- no bytes, if it gives 0 or -1
  pub send : ℕ → List ℕ → World → World  -- whose failure is printed alone
  pub close : ℕ → World → World
  pub select : ℕ → (ℕ → Bool) → World → Option (ℕ → Bool) × World  -- nfds, and the set before and after
  pub eintr : World → Bool  -- is errno EINTR
  pub interrupted : World → Bool  -- was SIGINT delivered, so that is_running is false
  pub is_open : World → ℕ → Bool  -- the descriptor table, which the program does not see

-- accept(2), close(2) and select(2), which leaves no descriptor in the set that was not in it; the other calls open and close nothing.
pub record Documented (os : Os) : Type 0 where
  pub accept_fresh :
      (l fd : ℕ) (w w' : os.World)
      → os.accept l w ≡ (some fd, w')
      → (os.is_open w fd ≡ false) × ((i : ℕ) → os.is_open w' i ≡ (i == fd || os.is_open w i))
  pub accept_none :
      (l i : ℕ) (w w' : os.World) → os.accept l w ≡ (none, w') → os.is_open w' i ≡ os.is_open w i
  pub recv_keeps : (fd n i : ℕ) (w : os.World) → os.is_open (os.recv fd n w).1 i ≡ os.is_open w i
  pub send_keeps :
      (fd i : ℕ) (bs : List ℕ) (w : os.World) → os.is_open (os.send fd bs w) i ≡ os.is_open w i
  pub select_keeps :
      (n i : ℕ) (f : ℕ → Bool) (w : os.World) → os.is_open (os.select n f w).1 i ≡ os.is_open w i
  pub select_asked :
      (n i : ℕ) (f g : ℕ → Bool) (w w' : os.World)
      → os.select n f w ≡ (some g, w')
      → g i ≡ true
      → f i ≡ true
  pub close_gone : (fd : ℕ) (w : os.World) → os.is_open (os.close fd w) fd ≡ false
  pub close_keeps :
      (fd i : ℕ) (w : os.World) → i ≢ fd → os.is_open (os.close fd w) i ≡ os.is_open w i

-- The limit of open files is at most FD_SETSIZE, as it is by default: accept gives no descriptor beyond.
abbrev pub SmallDescriptors : Os → Type 0
SmallDescriptors os = (l fd : ℕ) (w w' : os.World) → os.accept l w ≡ (some fd, w') → fd < 1024
