-- ===== src/Framing/Net.antt =====
-- The sockets, which the programs only call: `recv` and `send` of the operating system are parameters.
use cpp_backend.Prelude.{ℕ, ◌<◌, ◌≤◌, ◌≡◌, List, ◌++◌, length, take}

-- What recv gives: the bytes that it put into the buffer (none at the end of the stream), or -1.
pub data Recv : Type 0 where
  bytes : List ℕ → Recv
  failed : Recv

-- What send gives: how many bytes it took, or -1.
pub data Sent : Type 0 where
  sent : ℕ → Sent
  refused : Sent

pub record Net : Type 1 where
  pub Conn : Type 0  -- the state of a connected socket
  pub recv : ℕ → Conn → Recv × Conn  -- with the size of the buffer
  pub send : List ℕ → Conn → Sent × Conn

-- recv(2): at most as many bytes as the buffer holds.
abbrev pub IsBounded : Net → Type 0
IsBounded net =
    (n : ℕ) (c c' : net.Conn) (bs : List ℕ) → net.recv n c ≡ (bytes bs, c') → length bs ≤ n

-- recv(2) on a stream socket: while bytes are on their way, a call takes some from the front of them, as many
-- as it likes up to the size of the buffer.
abbrev pub Delivers : (net : Net) → (net.Conn → List ℕ) → Type 0
Delivers net incoming =
    (n : ℕ) (c : net.Conn)
    → 0 < n
    → 0 < length (incoming c)
    → (bs : List ℕ) × (c' : net.Conn) × (net.recv n c ≡ (bytes bs, c'))
      × (0 < length bs)
      × (length bs ≤ n)
      × (incoming c ≡ bs ++ incoming c')

-- send(2): the bytes that a call took are sent after those sent before.
abbrev pub Transmits : (net : Net) → (net.Conn → List ℕ) → Type 0
Transmits net outgoing =
    (bs : List ℕ) (c c' : net.Conn) (k : ℕ)
    → net.send bs c ≡ (sent k, c')
    → (k ≤ length bs) × (outgoing c' ≡ outgoing c ++ take k bs)
