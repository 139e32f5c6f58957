-- ===== src/Framing/Client/Receive.antt =====
-- recv_packet of package_client.cpp puts a packet together from whatever pieces recv gives.
use cpp_backend.Prelude.{
  ℕ, zero, suc, ◌+◌, ◌-◌, ◌%◌, ◌<◌, ◌≤◌, ◌≡◌, refl, sym, ap, ◌∙◌, true, false, Option, none, some,
  List, [], ◌∷◌, ◌++◌, length, ◌>>=◌, if◌then◌else◌, arith, length-append, Bool-cases, inl, inr,
  append-split,
}
use native.Mathlib.Decide.{dec_lt}
use mathlib.Core.List.{append_assoc, append-nil}
use cpp_backend.Framing.Net.{Net, Recv, bytes, failed, IsBounded, Delivers}
use cpp_backend.Framing.Words.{word, htonl, ntohl, length-htonl, ntohl-htonl}
use cpp_backend.Framing.Client.{buffer_size, max_packet, read_prefix, after_prefix, recv_packet}
use cpp_backend.Framing.Loop.{Result}
use cpp_backend.Framing.Loop.Laws.{read_data_lem, read_data-Returns}

module _ (net : Net) (incoming : net.Conn → List ℕ) (delivers : Delivers net incoming) where
  -- The packet was received, and the stream goes on behind it.
  abbrev pub Receives : Option (Result net) → List ℕ → List ℕ → Type 0
  Receives r out rest =
      (c' : net.Conn) × (r ≡ some (record { ok = true; out_data = out; conn = c' }))
      × (incoming c' ≡ rest)

  read_prefix_lem :
      (fuel : ℕ) (done todo rest : List ℕ) (c : net.Conn)
      → length todo < fuel
      → length todo < word
      → incoming c ≡ todo ++ rest
      → Receives (read_prefix net fuel done (length todo) c) (done ++ todo) rest
  unfolding read_prefix
  read_prefix_lem zero done todo rest c enough small e = elim enough [ ]
  read_prefix_lem (suc fuel) done [] rest c enough small e = (c, ground (arith, append-nil done), e)
  read_prefix_lem (suc fuel) done (x ∷ xs) rest c enough small e =
      let (bs, c', got, some_bytes, few, front) =
        delivers (length (x ∷ xs)) c (omega arith) (omega (arith, ap length e)) in
      let (todo, split, now) = append-split bs (x ∷ xs) (incoming c') rest few (sym front ∙ e) in
      let left : length xs + 1 ≡ length bs + length todo =
        omega (arith, ap length split, length-append bs todo) in
      let (d, runs, at) =
        read_prefix_lem fuel (done ++ bs) todo rest c' (omega arith) (omega arith) now in
      (d, ground (arith, append_assoc done bs todo), at)

  -- If recv gives some bytes from the front of the stream whenever there are any, and never more than it is asked
  -- for, then a packet of at most max_packet bytes at the front of the stream is received whole, and the stream is
  -- left at its end.
  pub recv_packet_lem :
      (text rest : List ℕ) (c : net.Conn)
      → length text ≤ max_packet
      → incoming c ≡ htonl (length text) ++ (text ++ rest)
      → Receives (recv_packet net c) text rest
  unfolding recv_packet
  recv_packet_lem text rest c small e =
      let (d, runs, at) =
        read_prefix_lem 5 [] (htonl (length text)) (text ++ rest) c
          (omega (arith, length-htonl (length text))) (omega (arith, length-htonl (length text)))
          e in
      let (d', runs', at') =
        read_data_lem net buffer_size (omega arith) incoming delivers (suc (length text)) [] text
          rest 0 (length text) d (omega arith) (omega arith) (omega arith) at in
      (d', ground (arith, length-htonl (length text), ntohl-htonl (length text)), at')

  -- A sequence of packets, each with its length in front, as it stands on the stream.
  abbrev pub frames : List (List ℕ) → List ℕ
  frames [] = []
  frames (text ∷ texts) = htonl (length text) ++ (text ++ frames texts)

  -- Calls of recv_packet, one after the other.
  abbrev pub recv_packets : ℕ → net.Conn → Option (List (List ℕ) × net.Conn)
  recv_packets zero c = some ([], c)
  recv_packets (suc n) c = recv_packet net c >>= λ r.
      if r.ok then (recv_packets n r.conn >>= λ q. some (r.out_data ∷ q.0, q.1)) else none

  abbrev pub count_packets : List (List ℕ) → ℕ
  count_packets [] = 0
  count_packets (t ∷ ts) = suc (count_packets ts)

  abbrev pub AllShort : List (List ℕ) → Type 0
  AllShort [] = Unit {0}
  AllShort (t ∷ ts) = (length t ≤ max_packet) × AllShort ts

  -- If recv gives some bytes from the front of the stream whenever there are any, and never more than it is asked
  -- for, then a sequence of packets on the stream, each of at most max_packet bytes, is received as that sequence
  -- by as many calls of recv_packet, and the stream is left at its end.
  pub recv_packets_lem :
      (texts : List (List ℕ)) (rest : List ℕ) (c : net.Conn)
      → AllShort texts
      → incoming c ≡ frames texts ++ rest
      → (d : net.Conn) × (recv_packets (count_packets texts) c ≡ some (texts, d))
        × (incoming d ≡ rest)
  recv_packets_lem [] rest c short e = (c, refl, e)
  recv_packets_lem (text ∷ texts) rest c short e =
      let (d, runs, at) = recv_packet_lem text (frames texts ++ rest) c short.0 (
        e
        ∙ append_assoc (htonl (length text)) (text ++ frames texts) rest
        ∙ ap (◌++◌ (htonl (length text))) (append_assoc text (frames texts) rest)) in
      let (d', runs', at') = recv_packets_lem texts rest d short.1 at in
      (d', rw (runs, runs') refl, at')

module _ (net : Net) (bounded : IsBounded net) where
  abbrev pub Returns : Option (Result net) → Type 0
  Returns o = (r : Result net) × (o ≡ some r)

  prefix_round :
      (fuel : ℕ) (done : List ℕ) (n : ℕ) (c : net.Conn) (p : Recv × net.Conn)
      → net.recv n c ≡ p
      → 0 < n
      → ((bs : List ℕ) (c' : net.Conn)
          → p ≡ (bytes bs, c')
          → 0 < length bs
          → Returns (read_prefix net fuel (done ++ bs) ((n + word - length bs) % word) c'))
      → Returns (read_prefix net (suc fuel) done n c)
  unfolding read_prefix
  prefix_round fuel done n c (failed, c') got more rest =
      (record { ok = false; out_data = []; conn = c' }, ground arith)
  prefix_round fuel done n c (bytes [], c') got more rest =
      (record { ok = false; out_data = []; conn = c' }, ground arith)
  prefix_round fuel done n c (bytes (b ∷ bs), c') got more rest =
      let (r, runs) = rest (b ∷ bs) c' refl (omega arith) in (r, ground arith)

  read_prefix-Returns :
      (fuel : ℕ) (done : List ℕ) (n : ℕ) (c : net.Conn)
      → n < fuel
      → n < word
      → Returns (read_prefix net fuel done n c)
  unfolding read_prefix
  read_prefix-Returns zero done n c h small = elim h [ ]
  read_prefix-Returns (suc fuel) done n c h small = elim (dec_lt 0 n) [
    | no over ↦ (record { ok = true; out_data = done; conn = c }, ground arith)
    | yes more ↦ prefix_round fuel done n c (net.recv n c) refl more λ bs c' got pos.
        let few : length bs ≤ n = bounded n c c' bs got in
        read_prefix-Returns fuel (done ++ bs) ((n + word - length bs) % word) c' (omega arith)
          (omega arith)
  ]

  after_prefix-Returns : (r : Result net) → Returns (after_prefix net r)
  unfolding after_prefix
  after_prefix-Returns r = elim (Bool-cases r.ok) [
    | inr bad ↦ (r, ground arith)
    | inl good ↦ elim (dec_lt max_packet (ntohl r.out_data)) [
      | yes long ↦ (record { ok = false; out_data = []; conn = r.conn }, ground arith)
      | no short ↦
          let (q, runs) =
            read_data-Returns net buffer_size bounded (suc (ntohl r.out_data)) [] (ntohl r.out_data)
              0 r.conn (omega arith) (omega arith) in
          (q, ground arith)
    ]
  ]

  -- If recv never gives more than it is asked for, recv_packet returns: its loops end within their fuel.
  pub recv_packet-Returns : (c : net.Conn) → Returns (recv_packet net c)
  unfolding recv_packet
  recv_packet-Returns c =
      let (r, runs) = read_prefix-Returns 5 [] 4 c (omega arith) (omega arith) in
      let (q, runs') = after_prefix-Returns r in (q, rw (runs, runs') refl)
