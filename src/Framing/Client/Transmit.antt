-- ===== src/Framing/Client/Transmit.antt =====
-- send_packet of package_client.cpp puts the whole packet on the stream, however send cuts it up.
use native.Mathlib.Decide.{dec_lt, ℕ_discrete}
use mathlib.Core.List.{append_assoc, append-nil}
use cpp_backend.Prelude.{
  ℕ, zero, suc, ◌+◌, ◌-◌, ◌%◌, ◌<◌, ◌≤◌, ◌≡◌, refl, sym, ap, ◌∙◌, Bool, true, false, Option, some,
  List, [], ◌∷◌, ◌++◌, length, take, drop, arith, length-drop, length-take, take-length,
  take-append-drop,
}
use cpp_backend.Framing.Net.{Net, Sent, sent, refused, Transmits}
use cpp_backend.Framing.Words.{word, htonl, length-htonl}
use cpp_backend.Framing.Client.{send_data, send_packet}

module _ (net : Net) (outgoing : net.Conn → List ℕ) (transmits : Transmits net outgoing) where
  -- If the loop reports success, the text is on the stream.
  abbrev Sends : Option (Bool × net.Conn) → net.Conn → List ℕ → Type 0
  Sends o c text = (c' : net.Conn) → o ≡ some (true, c') → outgoing c' ≡ outgoing c ++ text

  send_round :
      (fuel : ℕ) (text : List ℕ) (c : net.Conn) (p : Sent × net.Conn)
      → net.send text c ≡ p
      → 0 < length text
      → length text < word
      → ((k : ℕ) (c1 : net.Conn)
          → p ≡ (sent k, c1)
          → 0 < k
          → Sends (send_data net fuel (drop k text) (length (drop k text)) c1) c1 (drop k text))
      → Sends (send_data net (suc fuel) text (length text) c) c text
  unfolding send_data
  send_round fuel text c (refused, c1) got some_text small rest c' e =
      absurd (ground (arith, take-length text))
  send_round fuel text c (sent zero, c1) got some_text small rest c' e =
      absurd (ground (arith, take-length text))
  send_round fuel text c (sent (suc k), c1) got some_text small rest c' e =
      let (few, more) = transmits text c c1 (suc k) got in
      rest (suc k) c1 refl (omega arith) c'
        (ground (arith, take-length text, length-drop (suc k) text))
      ∙ ap (λ o. o ++ drop (suc k) text) more
      ∙ append_assoc (outgoing c) (take (suc k) text) (drop (suc k) text)
      ∙ ap (◌++◌ (outgoing c)) (take-append-drop (suc k) text)

  send_data_lem :
      (fuel : ℕ) (text : List ℕ) (c : net.Conn)
      → length text < word
      → Sends (send_data net fuel text (length text) c) c text
  unfolding send_data
  send_data_lem zero text c small c' e = absurd (cc)
  send_data_lem (suc fuel) [] c small c' e = ground (arith, append-nil (outgoing c))
  send_data_lem (suc fuel) (x ∷ xs) c small c' e =
      send_round fuel (x ∷ xs) c (net.send (x ∷ xs) c) refl (omega arith) small
        (λ k c1 got pos.
          send_data_lem fuel (drop k (x ∷ xs)) c1 (omega (arith, length-drop k (x ∷ xs))))
        c' e

  prefix_sent :
      (text : List ℕ) (c : net.Conn) (p : Sent × net.Conn)
      → net.send (htonl (length text)) c ≡ p
      → length text < word
      → Sends (send_packet net text c) c (htonl (length text) ++ text)
  unfolding send_packet
  prefix_sent text c (refused, c1) got small c' e = absurd (ground arith)
  prefix_sent text c (sent k, c1) got small c' e = elim (ℕ_discrete k 4) [
    | no short ↦ absurd (ground arith)
    | yes whole ↦
        let (few, more) = transmits (htonl (length text)) c c1 k got in
        let all_of_it : take k (htonl (length text)) ≡ htonl (length text) =
          ap (λ n. take n (htonl (length text))) (whole ∙ sym (length-htonl (length text)))
          ∙ take-length (htonl (length text)) in
        send_data_lem (suc (length text)) text c1 small c' (ground arith)
        ∙ ap (λ o. o ++ text) (more ∙ ap (◌++◌ (outgoing c)) all_of_it)
        ∙ append_assoc (outgoing c) (htonl (length text)) text
  ]

  -- If each call of send puts as many bytes on the stream as it reports, and send_packet reports success for a
  -- text shorter than 2 ^ 32 bytes, then the length and the text were put on the stream, whole and in this order.
  pub send_packet_lem :
      (text : List ℕ) (c c' : net.Conn)
      → length text < word
      → send_packet net text c ≡ some (true, c')
      → outgoing c' ≡ outgoing c ++ (htonl (length text) ++ text)
  send_packet_lem text c c' small e =
      prefix_sent text c (net.send (htonl (length text)) c) refl small c' e

  send_next :
      (fuel : ℕ) (text : List ℕ) (n : ℕ) (c : net.Conn) (p : Sent × net.Conn)
      → net.send (take n text) c ≡ p
      → 0 < n
      → ((k : ℕ) (c1 : net.Conn)
          → p ≡ (sent k, c1)
          → 0 < k
          → (q : Bool × net.Conn) × (send_data net fuel (drop k text) ((n + word - k) % word) c1
              ≡ some q))
      → (q : Bool × net.Conn) × (send_data net (suc fuel) text n c ≡ some q)
  unfolding send_data
  send_next fuel text n c (refused, c1) got more rest = ((false, c1), ground arith)
  send_next fuel text n c (sent zero, c1) got more rest = ((false, c1), ground arith)
  send_next fuel text n c (sent (suc k), c1) got more rest =
      let (q, runs) = rest (suc k) c1 refl (omega arith) in (q, ground arith)

  send_data-returns :
      (fuel : ℕ) (text : List ℕ) (n : ℕ) (c : net.Conn)
      → n < fuel
      → n < word
      → (p : Bool × net.Conn) × (send_data net fuel text n c ≡ some p)
  unfolding send_data
  send_data-returns zero text n c h small = elim h [ ]
  send_data-returns (suc fuel) text n c h small = elim (dec_lt 0 n) [
    | no over ↦ ((true, c), ground arith)
    | yes more ↦ send_next fuel text n c (net.send (take n text) c) refl more λ k c1 got pos.
        let few : k ≤ length (take n text) = (transmits (take n text) c c1 k got).0 in
        send_data-returns fuel (drop k text) ((n + word - k) % word) c1
          (omega (arith, length-take n text)) (omega (arith, length-take n text))
  ]

  send_packet-by :
      (text : List ℕ) (c : net.Conn) (p : Sent × net.Conn)
      → net.send (htonl (length text % word)) c ≡ p
      → (q : Bool × net.Conn) × (send_packet net text c ≡ some q)
  unfolding send_packet
  send_packet-by text c (refused, c1) got = ((false, c1), ground arith)
  send_packet-by text c (sent k, c1) got = elim (ℕ_discrete k 4) [
    | no short ↦ ((false, c1), ground arith)
    | yes whole ↦
        let (q, runs) =
          send_data-returns (suc (length text % word)) text (length text % word) c1 (omega arith)
            (omega arith) in
        (q, ground arith)
  ]

  -- If each call of send puts as many bytes on the stream as it reports, send_packet returns: its loop ends within
  -- its fuel, also when send takes one byte at a time.
  pub send_packet-returns :
      (text : List ℕ) (c : net.Conn) → (q : Bool × net.Conn) × (send_packet net text c ≡ some q)
  send_packet-returns text c = send_packet-by text c (net.send (htonl (length text % word)) c) refl
