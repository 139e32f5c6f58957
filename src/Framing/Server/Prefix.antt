-- ===== src/Framing/Server/Prefix.antt =====
-- package_sticking.cpp: recv_packet depends on the one recv of the length prefix giving all of its four bytes.
use native.Mathlib.Decide.{ℕ_discrete}
use mathlib.Core.List.{append_assoc, append-nil}
use cpp_backend.Prelude.{
  ℕ, zero, suc, ◌-◌, ◌<◌, ◌≡◌, refl, sym, ap, ◌∙◌, true, false, some, List, [], ◌∷◌, ◌++◌, length,
  take, replicate, arith, take-length,
}
use cpp_backend.Framing.Net.{
  Net, Recv, bytes, failed, Sent, sent, refused, Delivers, IsBounded, Transmits,
}
use cpp_backend.Framing.Words.{word, htonl, ntohl, length-htonl, ntohl-htonl, ntohl-bound}
use cpp_backend.Framing.Loop.{Result, read_data}
use cpp_backend.Framing.Loop.Laws.{read_data_lem, read_data-end, read_data-Returns}
use cpp_backend.Framing.Server.{buffer_size, data_len_of, send_packet, recv_packet}

data_len_of-htonl : (n : ℕ) → n < word → data_len_of (htonl n) ≡ n
data_len_of-htonl n small = rw (length-htonl n, append-nil (htonl n)) (ntohl-htonl n small)

module _ (net : Net) where
  whole_prefix :
      (n : ℕ) (c c1 : net.Conn)
      → n < word
      → net.recv 4 c ≡ (bytes (htonl n), c1)
      → recv_packet net c ≡ read_data net buffer_size (suc n) [] n 0 c1
  unfolding recv_packet
  whole_prefix n c c1 small got = ground (arith, data_len_of-htonl n small, length-htonl n)

  -- If recv gives some bytes from the front of the stream whenever there are any, and never more than it is asked
  -- for, and if the one call of recv for the prefix gives all of its four bytes, then the packet behind it,
  -- shorter than 2 ^ 32 bytes, is received whole, and the stream is left at its end.
  pub recv_packet-prefix :
      (incoming : net.Conn → List ℕ)
      → Delivers net incoming
      → (text rest : List ℕ) (c c1 : net.Conn) → length text < word
      → net.recv 4 c ≡ (bytes (htonl (length text)), c1)
      → incoming c1 ≡ text ++ rest
      → (c' : net.Conn) × (recv_packet net c
          ≡ some (record { ok = true; out_data = text; conn = c' }))
        × (incoming c' ≡ rest)
  recv_packet-prefix incoming delivers text rest c c1 small got e =
      let (d, runs, at) =
        read_data_lem net buffer_size (omega arith) incoming delivers (suc (length text)) [] text
          rest 0 (length text) c1 (omega arith) (omega arith) small e in
      (d, whole_prefix (length text) c c1 small got ∙ runs, at)

  length-replicate : (k : ℕ) → length (replicate {A = ℕ} k 0) ≡ k
  length-replicate zero = refl
  length-replicate (suc k) = ap suc (length-replicate k)

  short_zeros : (k : ℕ) → 0 < k → k < 4 → data_len_of (replicate k 0) ≡ 0
  unfolding ntohl
  short_zeros zero some_bytes short = refl
  short_zeros (suc zero) some_bytes short = refl
  short_zeros (suc (suc zero)) some_bytes short = refl
  short_zeros (suc (suc (suc zero))) some_bytes short = refl
  short_zeros (suc (suc (suc (suc k)))) some_bytes short = absurd (omega arith)

  -- If the one recv of the prefix gives fewer than its four bytes, and these are zero, recv_packet reports an
  -- empty packet, whatever packet is on the stream, and leaves the rest of its length to be read as the next one.
  pub recv_packet-short :
      (k : ℕ) (c c1 : net.Conn)
      → 0 < k
      → k < 4
      → net.recv 4 c ≡ (bytes (replicate k 0), c1)
      → recv_packet net c ≡ some (record { ok = true; out_data = []; conn = c1 })
  unfolding recv_packet
  recv_packet-short k c c1 some_bytes short got = ground (
    arith,
    short_zeros k some_bytes short,
    length-replicate k,
    read_data-end net buffer_size 0 [] 0 0 c1 (omega arith),
  )

  -- The two calls of send that a success of send_packet stands on.
  both_sent :
      (text : List ℕ) (c c' : net.Conn) (p q : Sent × net.Conn)
      → net.send (htonl (length text)) c ≡ p
      → net.send text p.1 ≡ q
      → length text < word
      → send_packet net text c ≡ (true, c')
      → (p.0 ≡ sent 4) × (q ≡ (sent (length text), c'))
  unfolding send_packet
  both_sent text c c' (refused, c1) q got got' small e = absurd (ground arith)
  both_sent text c c' (sent k, c1) (refused, c2) got got' small e = absurd (ground arith)
  both_sent text c c' (sent k, c1) (sent n, c2) got got' small e = elim (ℕ_discrete k 4) [
    | no part ↦ absurd (ground arith)
    | yes whole ↦ elim (ℕ_discrete n (length text)) [
      | no part ↦ absurd (ground arith)
      | yes all ↦ (ground arith, ground arith)
    ]
  ]

  -- If each call of send puts as many bytes on the stream as it reports, and send_packet reports success for a
  -- text shorter than 2 ^ 32 bytes, then the length and the text were put on the stream, whole and in this order.
  pub send_packet-whole :
      (outgoing : net.Conn → List ℕ)
      → Transmits net outgoing
      → (text : List ℕ) (c c' : net.Conn) → length text < word
      → send_packet net text c ≡ (true, c')
      → outgoing c' ≡ outgoing c ++ (htonl (length text) ++ text)
  send_packet-whole outgoing transmits text c c' small e =
      let p : Sent × net.Conn = net.send (htonl (length text)) c in
      let (whole, all) = both_sent text c c' p (net.send text p.1) refl refl small e in
      let (few, more) = transmits (htonl (length text)) c p.1 4 (ap (λ k. (k, p.1)) whole) in
      let (few', more') = transmits text p.1 c' (length text) all in
      let all_of_it : take 4 (htonl (length text)) ≡ htonl (length text) =
        ap (λ n. take n (htonl (length text))) (sym (length-htonl (length text)))
        ∙ take-length (htonl (length text)) in
      more'
      ∙ ap (◌++◌ (outgoing p.1)) (take-length text)
      ∙ ap (λ o. o ++ text) (more ∙ ap (◌++◌ (outgoing c)) all_of_it)
      ∙ append_assoc (outgoing c) (htonl (length text)) text

  ends_by :
      IsBounded net
      → (c : net.Conn) (p : Recv × net.Conn) → net.recv 4 c ≡ p
      → (r : Result net) × (recv_packet net c ≡ some r)
  unfolding recv_packet
  ends_by bounded c (failed, c') got =
      (record { ok = false; out_data = []; conn = c' }, ground arith)
  ends_by bounded c (bytes [], c') got =
      (record { ok = false; out_data = []; conn = c' }, ground arith)
  ends_by bounded c (bytes (b ∷ bs), c') got =
      let n : ℕ = data_len_of (b ∷ bs) in
      let (r, runs) =
        read_data-Returns net buffer_size bounded (suc n) [] n 0 c' (omega arith)
          (ntohl-bound ((b ∷ bs) ++ replicate (4 - length (b ∷ bs)) 0)) in
      (r, ground arith)

  -- If recv never gives more than it is asked for, recv_packet returns, whatever length it read: its loop ends
  -- within its fuel.
  pub recv_packet-ends :
      IsBounded net → (c : net.Conn) → (r : Result net) × (recv_packet net c ≡ some r)
  recv_packet-ends bounded c = ends_by bounded c (net.recv 4 c) refl
