-- ===== src/Udp/Os.antt =====
-- The calls of the operating system that the UDP server and client make: parameters.
use cpp_backend.Prelude.{ℕ, ◌≤◌, ◌≡◌, Bool, Option, List, length}

-- recvfrom: a datagram, cut off to the bytes that were asked for, and its sender; or -1, with errno (is it EINTR).
pub data Received (Address : Type 0) : Type 0 where
  datagram : (bytes : List ℕ) (from : Address) → Received Address
  failed : (eintr : Bool) → Received Address

pub record Os : Type 1 where
  pub World : Type 0
  pub Address : Type 0
  pub recvfrom : ℕ → ℕ → World → Received Address × World
  pub sendto : ℕ → List ℕ → Address → World → Bool × World
  pub inet_pton : List ℕ → Option Address  -- with htons of the port
  pub close : ℕ → World → World
  pub stopped : World → Bool  -- another thread, or a handler, called stop

-- recvfrom(2) gives at most as many bytes as were asked for.
abbrev pub Bounded : Os → Type 0
Bounded os =
    (fd size : ℕ) (w w' : os.World) (bs : List ℕ) (from : os.Address)
    → os.recvfrom fd size w ≡ (datagram bs from, w')
    → length bs ≤ size
