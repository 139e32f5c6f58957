-- ===== src/Framing/Tests.antt =====
-- The framing functions on sockets that give and take at most so many bytes in a call.
use cpp_backend.Prelude.{
  ℕ, suc, ◌≡◌, refl, sym, ap, ◌∙◌, true, some, List, [], ◌∷◌, ◌++◌, length, take, drop, arith,
  length-take, take-append-drop, min,
}
use cpp_backend.Framing.Net.{
  Net, Recv, bytes, failed, Sent, sent, refused, Delivers, IsBounded, Transmits,
}
use cpp_backend.Framing.Words.{htonl}
use cpp_backend.Framing.Loop.{Result}
use cpp_backend.Framing.Client
use cpp_backend.Framing.Client.Receive.{recv_packets_lem, recv_packets, frames, recv_packet-Returns}
use cpp_backend.Framing.Client.Transmit.{send_packet_lem}
use cpp_backend.Framing.Server
use cpp_backend.Framing.Server.Prefix.{recv_packet-prefix, recv_packet-short}

-- What is still to be read, and what was sent.
record Pipe : Type 0 where
  to_read : List ℕ
  written : List ℕ

abbrev pipe : ℕ → Net
pipe k = record {
  Conn = Pipe;
  recv = λ n c. (
    bytes (take (min n k) c.to_read),
    record { to_read = drop (min n k) c.to_read; written = c.written },
  );
  send = λ bs c. (
    sent (min k (length bs)),
    record { to_read = c.to_read; written = c.written ++ take (min k (length bs)) bs },
  );
}

abbrev ready : List ℕ → Pipe
ready bs = record { to_read = bs; written = [] }

abbrev bytes_of : Recv → List ℕ
bytes_of (bytes bs) = bs
bytes_of failed = []

abbrev count_of : Sent → ℕ
count_of (sent n) = n
count_of refused = 0

pipe-Delivers : (k : ℕ) → Delivers (pipe (suc k)) (λ c. c.to_read)
pipe-Delivers k n c room some_bytes = (
  take (min n (suc k)) c.to_read,
  record { to_read = drop (min n (suc k)) c.to_read; written = c.written },
  refl,
  omega (arith, length-take (min n (suc k)) c.to_read),
  omega (arith, length-take (min n (suc k)) c.to_read),
  sym (take-append-drop (min n (suc k)) c.to_read),
)

pipe-IsBounded : (k : ℕ) → IsBounded (pipe k)
pipe-IsBounded k n c c' bs e =
    let front : take (min n k) c.to_read ≡ bs = ap (λ p. bytes_of p.0) e in
    omega (arith, length-take (min n k) c.to_read, ap length front)

pipe-Transmits : (k : ℕ) → Transmits (pipe k) (λ c. c.written)
pipe-Transmits k bs c c' n e =
    let count : min k (length bs) ≡ n = ap (λ p. count_of p.0) e in
    let after : c.written ++ take (min k (length bs)) bs ≡ c'.written = ap (λ p. p.1.written) e in
    (omega (arith, count), sym after ∙ ap (λ n. c.written ++ take n bs) count)

abbrev hello : List ℕ
hello = 104 ∷ 101 ∷ 108 ∷ 108 ∷ 111 ∷ []

abbrev on_stream : List ℕ
on_stream = 0 ∷ 0 ∷ 0 ∷ 5 ∷ 104 ∷ 101 ∷ 108 ∷ 108 ∷ 111 ∷ []

-- Two packets, the first of them empty.
abbrev two_packets : List (List ℕ)
two_packets = [] ∷ hello ∷ []

htonl_hello : htonl 5 ≡ 0 ∷ 0 ∷ 0 ∷ 5 ∷ []
unfolding htonl
htonl_hello = refl

hello_stream : on_stream ++ (0 ∷ []) ≡ htonl (length hello) ++ (hello ++ (0 ∷ []))
unfolding htonl
hello_stream = refl

two_stream :
    0 ∷ 0 ∷ 0 ∷ 0 ∷ on_stream ≡ frames (pipe 3) (λ c. c.to_read) (pipe-Delivers 2) two_packets ++ []
unfolding htonl
two_stream = refl

recv_packets_lem_example :
    (d : Pipe) × (recv_packets
        (pipe 3)
        (λ c. c.to_read)
        (pipe-Delivers 2)
        2
        (ready (0 ∷ 0 ∷ 0 ∷ 0 ∷ on_stream))
      ≡ some (two_packets, d))
    × (d.to_read ≡ [])
recv_packets_lem_example =
    recv_packets_lem (pipe 3) (λ c. c.to_read) (pipe-Delivers 2) two_packets []
      (ready (0 ∷ 0 ∷ 0 ∷ 0 ∷ on_stream)) (omega arith, (omega arith, tt)) two_stream

recv_packet-Returns_example :
    (r : Result (pipe 2)) × (Client.recv_packet (pipe 2) (ready (1 ∷ 2 ∷ 3 ∷ [])) ≡ some r)
recv_packet-Returns_example =
    recv_packet-Returns (pipe 2) (pipe-IsBounded 2) (ready (1 ∷ 2 ∷ 3 ∷ []))

hello_sent :
    Client.send_packet (pipe 4) hello (ready [])
    ≡ some (true, record { to_read = []; written = on_stream })
unfolding Client.send_packet htonl
hello_sent = refl

send_packet_lem_example : on_stream ≡ [] ++ (htonl 5 ++ hello)
send_packet_lem_example =
    send_packet_lem (pipe 4) (λ c. c.written) (pipe-Transmits 4) hello (ready [])
      (record { to_read = []; written = on_stream }) (omega arith) hello_sent

recv_packet-prefix_example :
    (c' : Pipe) × (Server.recv_packet (pipe 4) (ready on_stream)
      ≡ some (record { ok = true; out_data = hello; conn = c' }))
    × (c'.to_read ≡ [])
recv_packet-prefix_example =
    recv_packet-prefix (pipe 4) (λ c. c.to_read) (pipe-Delivers 3) hello [] (ready on_stream)
      (ready hello) (omega arith) (ap (λ bs. (bytes bs, ready hello)) (sym htonl_hello)) refl

-- One byte at a time: the packet is `hello`.
recv_packet-short_example :
    Server.recv_packet (pipe 1) (ready on_stream)
    ≡ some (record { ok = true; out_data = []; conn = ready (drop 1 on_stream) })
recv_packet-short_example =
    recv_packet-short (pipe 1) 1 (ready on_stream) (ready (drop 1 on_stream)) (omega arith)
      (omega arith) refl

hello_whole :
    Server.send_packet (pipe 5) hello (ready [])
    ≡ (true, record { to_read = []; written = on_stream })
unfolding Server.send_packet htonl
hello_whole = refl
