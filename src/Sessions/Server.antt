-- ===== src/Sessions/Server.antt =====
-- The conversation with one client, and what each file does when it ends. `none` is a conversation that has not ended after so
-- many rounds.
use cpp_backend.Prelude.{
  ℕ, zero, suc, Bool, true, false, Option, none, some, List, [], ◌∷◌, ◌++◌, ◌>>=◌, if◌then◌else◌,
}
use cpp_backend.Texts.{c_str, message_received, message_received_cpp}
use cpp_backend.Sessions.Os.{bytes, failed, Os}

-- Why the while ends.
pub data End : Type 0 where
  client_left : End
  recv_failed : End
  send_failed : End

-- The fields of the servers for one client; `none` is -1.
pub record State (os : Os) : Type 0 where
  pub server_fd : Option ℕ
  pub client_fd : Option ℕ
  pub world : os.World

pub data Outcome (os : Os) : Type 0 where
  returned : State os → Outcome os
  thrown : State os → Outcome os

module _ (os : Os) where
  -- The while over recv and send, with the text before an answer
  unfoldable pub converse : List ℕ → ℕ → ℕ → os.World → Option (End × os.World)
  converse prefix zero fd w = none
  converse prefix (suc rounds) fd w =
      let (r, w') = os.recv fd 1023 w in
      elim r [
        | failed ↦ some (recv_failed, w')
        | bytes [] ↦ some (client_left, w')
        | bytes (b ∷ bs) ↦
            let (ok, w'') = os.send fd (prefix ++ c_str (b ∷ bs)) w' in
            let rest = converse prefix rounds fd w'' in if ok then rest else some (send_failed, w'')
      ]

  -- TCP_MultiThreadServer.cpp: client_communicate
  unfoldable pub client_communicate : ℕ → ℕ → os.World → Option os.World
  unfolding converse
  client_communicate rounds client_fd w =
      converse message_received rounds client_fd w >>= λ r. some (os.close client_fd r.1)

  -- Multithreadserverretype.cpp: client_communicate
  unfoldable pub client_communicate_retype : ℕ → ℕ → os.World → Option os.World
  unfolding converse
  client_communicate_retype rounds client_fd w =
      converse message_received rounds client_fd w >>= λ r. some (os.close client_fd r.1)

  abbrev pub close_if : Option ℕ → os.World → os.World
  close_if none w = w
  close_if (some fd) w = os.close fd w

  -- error(msg, CloseServer), and handleError
  unfoldable pub error : Bool → State os → Outcome os
  error false s =
      thrown
        (record { server_fd = s.server_fd; client_fd = none; world = close_if s.client_fd s.world })
  error true s = thrown (record {
    server_fd = none;
    client_fd = none;
    world = close_if s.client_fd (close_if s.server_fd s.world);
  })

  -- AcceptClient
  unfoldable pub accept_client : ℕ → State os → Outcome os
  unfolding error
  accept_client server_fd s =
      let (r, w) = os.accept server_fd s.world in
      let t : State os = record s { client_fd = r; world = w } in
      elim r [ none ↦ error true t | some fd ↦ returned t ]

  -- ServerRetype.cpp: communicate after its while
  unfoldable pub finish_retype : End → State os → Outcome os
  unfolding error
  finish_retype client_left s = returned s
  finish_retype recv_failed s = error false s
  finish_retype send_failed s = error true s

  -- ServerRetype.cpp: communicate, with the client that was accepted
  unfoldable pub communicate_retype : ℕ → ℕ → State os → Option (Outcome os)
  unfolding converse finish_retype
  communicate_retype rounds fd s = converse message_received rounds fd s.world >>= λ r.
      some (finish_retype r.0 (record s { world = r.1 }))

  -- TCP_ServerCommunicateCpp.cpp: communicate after its while
  unfoldable pub finish_cpp : End → State os → Outcome os
  unfolding error
  finish_cpp client_left s = returned s
  finish_cpp recv_failed s = error false s
  finish_cpp send_failed s = returned s

  -- TCP_ServerCommunicateCpp.cpp: communicate, with the client that was accepted
  unfoldable pub communicate_cpp : ℕ → ℕ → State os → Option (Outcome os)
  unfolding converse finish_cpp
  communicate_cpp rounds fd s = converse message_received_cpp rounds fd s.world >>= λ r.
      some (finish_cpp r.0 (record s { world = r.1 }))

  -- ~TCPServer
  unfoldable pub destroy : State os → os.World
  destroy s = close_if s.client_fd (close_if s.server_fd s.world)
