-- ===== src/Udp/Tests.antt =====
-- The UDP server and client on a small network: the datagrams that have come, and those that were sent.
use cpp_backend.Prelude.{
  ℕ, ◌≤◌, ◌≡◌, refl, ap, true, false, some, List, [], ◌∷◌, ◌++◌, length, take, length-take, arith,
}
use cpp_backend.Udp.Os.{Received, datagram, failed, Os, Bounded}
use cpp_backend.Udp.Buffer.{zeros, length-zeros}
use cpp_backend.Udp.Server.{prefix, again, communicate_round, start_communicate}
use cpp_backend.Udp.Server
use cpp_backend.Udp.Client.{State, Outcome, printed, send_and_receive}
use cpp_backend.Udp.Refine.{view, respond_all, start_communicate-refines}
use cpp_backend.Udp.Echo.{Leaves, send_and_receive-Leaves, echo}

record World : Type 0 where
  inbox : List (List ℕ)
  sent : List (List ℕ)

abbrev receive : ℕ → List (List ℕ) → List (List ℕ) → Received ℕ × World
receive size [] sent = (failed false, record { inbox = []; sent = sent })
receive size (bs ∷ inbox) sent = (datagram (take size bs) 7, record { inbox = inbox; sent = sent })

abbrev small : Os
small = record {
  World = World;
  Address = ℕ;
  recvfrom = λ fd size w. receive size w.inbox w.sent;
  sendto = λ fd bs to w. (true, record { inbox = w.inbox; sent = bs ∷ w.sent });
  inet_pton = λ ip. some 7;
  close = λ fd w. w;
  stopped = λ w. false;
}

received_bytes : {A : Type 0} → Received A → List ℕ
received_bytes (datagram bs from) = bs
received_bytes (failed eintr) = []

small-Bounded : Bounded small
small-Bounded fd size w w' bs from e = by_inbox w.inbox refl
  where
    by_inbox : (inbox : List (List ℕ)) → w.inbox ≡ inbox → length bs ≤ size
    by_inbox [] is = absurd (ground (arith, is))
    by_inbox (x ∷ rest) is =
        let same : take size x ≡ bs = ground (arith, is) in
        omega (arith, ap length same, length-take size x)

-- "hi", after a longer text that stands in the buffer
abbrev server : Server.State small
server = record {
  server_fd = 3;
  buffer = zeros;
  world = record { inbox = (104 ∷ 105 ∷ []) ∷ []; sent = [] };
}

abbrev client : State small
client = record {
  server_ip = [];
  client_fd = some 4;
  world = record { inbox = (prefix ++ 104 ∷ 105 ∷ []) ∷ []; sent = [] };
}

start_communicate-refines_example :
    (o : Server.Outcome small) × (start_communicate small 2 server ≡ some o)
    × (view small o ≡ respond_all small 2 3 server.world)
start_communicate-refines_example = start_communicate-refines small small-Bounded 2 server

send_and_receive-Leaves_example :
    (r : Outcome small) × (send_and_receive small (104 ∷ 105 ∷ []) client ≡ some r)
    × Leaves small client r
send_and_receive-Leaves_example =
    send_and_receive-Leaves small small-Bounded (104 ∷ 105 ∷ []) client

echo_example :
    (t : Server.State small) × (communicate_round small server ≡ some (again t))
    × (t.world ≡ record { inbox = []; sent = (prefix ++ 104 ∷ 105 ∷ []) ∷ [] })
    × (send_and_receive small (104 ∷ 105 ∷ []) client
        ≡ some (
            printed
              (prefix ++ 104 ∷ 105 ∷ [])
              (record client { world = record { inbox = []; sent = (104 ∷ 105 ∷ []) ∷ [] } })))
echo_example =
    echo small small server client 104 (105 ∷ []) 7 (record { inbox = []; sent = [] }) 4 7 7
      (record { inbox = client.world.inbox; sent = (104 ∷ 105 ∷ []) ∷ [] })
      (record { inbox = []; sent = (104 ∷ 105 ∷ []) ∷ [] }) length-zeros
      (omega arith, (omega arith, tt)) (omega arith) refl refl refl refl refl

-- An empty datagram is not answered, though the client waits for the answer.
empty_unanswered :
    communicate_round small (record server { world = record { inbox = [] ∷ []; sent = [] } })
    ≡ some (again (record server { world = record { inbox = []; sent = [] } }))
unfolding communicate_round
empty_unanswered = refl
