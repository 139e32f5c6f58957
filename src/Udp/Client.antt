-- ===== src/Udp/Client.antt =====
-- The class UDPClient of UDP_Client.cpp, after init. `none` is an access out of the bounds of the buffer.
use cpp_backend.Prelude.{
  ℕ, Bool, true, false, Option, none, some, List, ◌>>=◌, ◌-◌, if◌then◌else◌, length,
}
use cpp_backend.Texts.{c_str}
use cpp_backend.Udp.Os.{Received, datagram, failed, Os}
use cpp_backend.Udp.Buffer.{capacity, zeros, fill, terminate}

pub record State (os : Os) : Type 0 where
  pub server_ip : List ℕ
  pub client_fd : Option ℕ  -- `none` is -1
  pub world : os.World

-- What send_and_receive prints of the answer, or the exception.
pub data Outcome (os : Os) : Type 0 where
  printed : List ℕ → State os → Outcome os
  thrown : State os → Outcome os

module _ (os : Os) where
  -- error(msg, close_client)
  unfoldable pub error : Bool → State os → Outcome os
  error false s = thrown s
  error true s = thrown (record s {
    client_fd = none;
    world = elim s.client_fd [ none ↦ s.world | some fd ↦ os.close fd s.world ];
  })

  -- send_and_receive after its recvfrom
  unfoldable pub show_response : Received os.Address → State os → Option (Outcome os)
  unfolding error
  show_response (failed eintr) s = some (error true s)
  show_response (datagram bs from) s =
      terminate (length bs) (fill bs zeros) >>= λ buffer. some (printed (c_str buffer) s)

  unfoldable pub send_and_receive : List ℕ → State os → Option (Outcome os)
  unfolding error show_response
  send_and_receive msg s = elim s.client_fd [
    | none ↦ some (error false s)
    | some fd ↦ elim (os.inet_pton s.server_ip) [
      | none ↦ some (error true s)
      | some server_addr ↦
          let (ok, w) = os.sendto fd msg server_addr s.world in
          if ok
          then (let (r, w') = os.recvfrom fd (capacity - 1) w in
              show_response r (record s { world = w' }))
          else some (error true (record s { world = w }))
    ]
  ]

  -- ~UDPClient
  unfoldable pub destroy : State os → os.World
  destroy s = elim s.client_fd [ none ↦ s.world | some fd ↦ os.close fd s.world ]
