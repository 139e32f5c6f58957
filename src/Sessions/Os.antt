-- ===== src/Sessions/Os.antt =====
-- The calls of the operating system that the blocking servers make: parameters, and what is documented of them.
use cpp_backend.Prelude.{ℕ, ◌<◌, ◌≤◌, ◌≡◌, ◌≢◌, Bool, true, false, Option, List, [], ◌∷◌, ◌++◌}

-- recv: the bytes, of which there are none at the end of the stream, or -1.
pub data Recv : Type 0 where
  bytes : List ℕ → Recv
  failed : Recv

pub record Os : Type 1 where
  pub World : Type 0
  pub accept : ℕ → World → Option ℕ × World
  pub recv : ℕ → ℕ → World → Recv × World
  pub send : ℕ → List ℕ → World → Bool × World
  pub close : ℕ → World → World
  pub is_open : World → ℕ → Bool
  pub read : World → List (List ℕ)  -- what recv gave of the client until now
  pub sent : World → List (List ℕ)  -- what send took for the client until now
  pub left : World → ℕ  -- a bound on the calls of recv that still give a text

-- recv(2), send(2), accept(2) and close(2), for one client, who sends finitely much and then closes, or fails.
pub record Documented (os : Os) : Type 0 where
  pub recv_read :
      (fd n b : ℕ) (bs : List ℕ) (w w' : os.World)
      → os.recv fd n w ≡ (bytes (b ∷ bs), w')
      → (os.read w' ≡ os.read w ++ (b ∷ bs) ∷ []) × (os.left w' < os.left w)
  pub recv_end :
      (fd n : ℕ) (w w' : os.World) → os.recv fd n w ≡ (bytes [], w') → os.read w' ≡ os.read w
  pub recv_failed :
      (fd n : ℕ) (w w' : os.World) → os.recv fd n w ≡ (failed, w') → os.read w' ≡ os.read w
  pub recv_keeps : (fd n : ℕ) (w : os.World) → os.sent (os.recv fd n w).1 ≡ os.sent w
  pub recv_opens : (fd n i : ℕ) (w : os.World) → os.is_open (os.recv fd n w).1 i ≡ os.is_open w i
  pub send_sent :
      (fd : ℕ) (msg : List ℕ) (w w' : os.World)
      → os.send fd msg w ≡ (true, w')
      → os.sent w' ≡ os.sent w ++ msg ∷ []
  pub send_failed :
      (fd : ℕ) (msg : List ℕ) (w w' : os.World)
      → os.send fd msg w ≡ (false, w')
      → os.sent w' ≡ os.sent w
  pub send_keeps : (fd : ℕ) (msg : List ℕ) (w : os.World) → os.read (os.send fd msg w).1 ≡ os.read w
  pub send_left : (fd : ℕ) (msg : List ℕ) (w : os.World) → os.left (os.send fd msg w).1 ≤ os.left w
  pub send_opens :
      (fd i : ℕ) (msg : List ℕ) (w : os.World) → os.is_open (os.send fd msg w).1 i ≡ os.is_open w i
  pub close_gone : (fd : ℕ) (w : os.World) → os.is_open (os.close fd w) fd ≡ false
  pub close_keeps :
      (fd i : ℕ) (w : os.World) → i ≢ fd → os.is_open (os.close fd w) i ≡ os.is_open w i
  pub close_read : (fd : ℕ) (w : os.World) → os.read (os.close fd w) ≡ os.read w
  pub close_sent : (fd : ℕ) (w : os.World) → os.sent (os.close fd w) ≡ os.sent w
