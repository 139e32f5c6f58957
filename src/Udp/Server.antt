-- ===== src/Udp/Server.antt =====
-- The class UDPServer of UDP_Server.cpp, after init. `none` is an access out of the bounds of the buffer.
use cpp_backend.Prelude.{
  ℕ, zero, suc, Bool, true, false, not, ◌&&◌, Option, some, List, [], ◌∷◌, ◌++◌, ◌>>=◌, ◌-◌,
  if◌then◌else◌, length,
}
use cpp_backend.Texts.{c_str}
use cpp_backend.Udp.Os.{Received, datagram, failed, Os}
use cpp_backend.Udp.Buffer.{capacity, zeros, fill, terminate}

-- "Server received your message: "
abbrev pub prefix : List ℕ
prefix =
    83 ∷ 101 ∷ 114 ∷ 118 ∷ 101 ∷ 114 ∷ 32 ∷ 114 ∷ 101 ∷ 99 ∷ 101 ∷ 105 ∷ 118 ∷ 101 ∷ 100 ∷ 32 ∷ 121
    ∷ 111 ∷ 117 ∷ 114 ∷ 32 ∷ 109 ∷ 101 ∷ 115 ∷ 115 ∷ 97 ∷ 103 ∷ 101 ∷ 58 ∷ 32 ∷ []

pub record State (os : Os) : Type 0 where
  pub server_fd : ℕ
  pub buffer : List ℕ
  pub world : os.World

-- How a round, or start_communicate, ends.
pub data Outcome (os : Os) : Type 0 where
  again : State os → Outcome os
  returned : State os → Outcome os
  thrown : State os → Outcome os

module _ (os : Os) where
  abbrev pub running : State os → Bool
  running s = not (os.stopped s.world)

  -- error("Failed to receive message!", false)
  abbrev pub error : State os → Outcome os
  error s = thrown s

  -- send_msg, whose failure is printed alone
  unfoldable pub send_msg : List ℕ → os.Address → State os → State os
  send_msg msg client_addr s = record s {
    world = (os.sendto s.server_fd msg client_addr s.world).1;
  }

  -- The body of the while after recvfrom
  unfoldable pub received : Received os.Address → State os → Option (Outcome os)
  unfolding send_msg
  received (failed eintr) s =
      some (if eintr && running s then again (record s { buffer = zeros }) else error s)
  received (datagram [] client_addr) s = some (again s)
  received (datagram (b ∷ bs) client_addr) s =
      terminate (length (b ∷ bs)) (fill (b ∷ bs) s.buffer) >>= λ buffer.
      let t : State os =
        send_msg (prefix ++ c_str buffer) client_addr (record s { buffer = buffer }) in
      some (again (record t { buffer = zeros }))

  unfoldable pub communicate_round : State os → Option (Outcome os)
  unfolding received
  communicate_round s =
      let (r, w) = os.recvfrom s.server_fd (capacity - 1) s.world in
      received r (record s { world = w })

  -- The while of start_communicate, for so many rounds at most
  unfoldable pub communicate_loop : ℕ → State os → Option (Outcome os)
  unfolding communicate_round
  communicate_loop zero s = some (again s)
  communicate_loop (suc rounds) s = elim (running s) [
    | false ↦ some (returned s)
    | true ↦ communicate_round s >>= λ o. elim o [
      | again t ↦ communicate_loop rounds t
      | returned t ↦ some (returned t)
      | thrown t ↦ some (thrown t)
    ]
  ]

  unfoldable pub start_communicate : ℕ → State os → Option (Outcome os)
  unfolding communicate_loop
  start_communicate rounds s = communicate_loop rounds (record s { buffer = zeros })

  -- ~UDPServer
  unfoldable pub destroy : State os → os.World
  destroy s = os.close s.server_fd s.world
