-- ===== src/Udp/Echo.antt =====
-- The client and the server together: UDP_Client.cpp shows what UDP_Server.cpp answers.
use cpp_backend.Prelude.{
  ℕ, ◌-◌, ◌<◌, ◌≡◌, refl, ap, ◌∙◌, true, Option, none, some, List, ◌∷◌, ◌++◌, ◌>>=◌, length, arith,
  Bool-cases, Option-cases, inl, inr,
}
use cpp_backend.Texts.{c_str, AllNonzero, c_str-all}
use cpp_backend.Udp.Os.{Received, datagram, failed, Os, Bounded}
use cpp_backend.Udp.Buffer.{capacity, zeros, length-zeros, terminate-fill}
use cpp_backend.Udp.Server.{prefix, again, received, communicate_round, send_msg}
use cpp_backend.Udp.Server
use cpp_backend.Udp.Client.{State, Outcome, printed, thrown, error, show_response, send_and_receive}

prefix_text : (bs : List ℕ) → AllNonzero bs → c_str (prefix ++ bs) ≡ prefix ++ bs
unfolding c_str
prefix_text bs all = ap (◌++◌ prefix) (c_str-all bs all)

module _ (os : Os) where
  received-sent :
      (s : Server.State os) (b : ℕ) (bs : List ℕ) (from : os.Address)
      → length s.buffer ≡ capacity
      → length (b ∷ bs) < capacity
      → AllNonzero (b ∷ bs)
      → (t : Server.State os) × (received os (datagram (b ∷ bs) from) s ≡ some (again t))
        × (t.world ≡ (os.sendto s.server_fd (prefix ++ b ∷ bs) from s.world).1)
  unfolding received
  received-sent s b bs from full short all =
      let (buffer, ends, is) = terminate-fill (b ∷ bs) s.buffer (omega (arith, full, short)) in
      let sent : Server.State os =
        send_msg os (prefix ++ c_str buffer) from (record s { buffer = buffer }) in
      (
        record sent { buffer = zeros },
        ap
            (λ o. o >>= λ buffer. some (
              again
                (record (send_msg os (prefix ++ c_str buffer) from (record s { buffer = buffer })) {
                  buffer = zeros;
                })))
            ends,
        ap (λ text. (os.sendto s.server_fd (prefix ++ text) from s.world).1)
            (is ∙ c_str-all (b ∷ bs) all),
      )

  show_response-printed :
      (bs : List ℕ) (from : os.Address) (s : State os)
      → length bs < capacity
      → show_response os (datagram bs from) s ≡ some (printed (c_str bs) s)
  unfolding show_response
  show_response-printed bs from s short =
      let (buffer, ends, is) = terminate-fill bs zeros (omega (arith, length-zeros, short)) in
      ap (λ o. o >>= λ buffer. some (printed (c_str buffer) s)) ends
      ∙ ap (λ text. some (printed text s)) is

  -- What send_and_receive leaves of the descriptor: nothing after an exception.
  abbrev pub Leaves : State os → Outcome os → Type 0
  Leaves s (printed text u) = u.client_fd ≡ s.client_fd
  Leaves s (thrown u) = u.client_fd ≡ none

  abbrev Ends : State os → Option (Outcome os) → Type 0
  Ends s o = (r : Outcome os) × (o ≡ some r) × Leaves s r

  shown-Ends :
      (bounded : Bounded os) (fd : ℕ) (s : State os) (w w' : os.World) (r : Received os.Address)
      → os.recvfrom fd (capacity - 1) w ≡ (r, w')
      → Ends s (show_response os r (record s { world = w' }))
  unfolding show_response error
  shown-Ends bounded fd s w w' (failed eintr) got = (_, refl, refl)
  shown-Ends bounded fd s w w' (datagram bs from) got = (
    printed (c_str bs) (record s { world = w' }),
    show_response-printed bs from (record s { world = w' })
        (omega (arith, bounded fd (capacity - 1) w w' bs from got)),
    refl,
  )

  sent-Ends :
      (bounded : Bounded os) (msg : List ℕ) (s : State os) (fd : ℕ) (at : os.Address)
      → s.client_fd ≡ some fd
      → os.inet_pton s.server_ip ≡ some at
      → Ends s (send_and_receive os msg s)
  unfolding send_and_receive error
  sent-Ends bounded msg s fd at has valid =
      let sent = os.sendto fd msg at s.world in
      elim (Bool-cases sent.0) [
        | inr lost ↦ (error os true (record s { world = sent.1 }), ground (arith, has, valid), refl)
        | inl ok ↦
            let got = os.recvfrom fd (capacity - 1) sent.1 in
            let (r, e, leaves) = shown-Ends bounded fd s sent.1 got.1 got.0 refl in
            (r, ground (arith, has, valid, e), leaves)
      ]

  -- If recvfrom gives at most as many bytes as it is asked for, then send_and_receive always ends without an access out of
  -- the bounds of its buffer: it prints an answer and keeps its descriptor, or it throws and has no descriptor any more.
  pub send_and_receive-Leaves :
      (bounded : Bounded os) (msg : List ℕ) (s : State os)
      → (r : Outcome os) × (send_and_receive os msg s ≡ some r) × Leaves s r
  unfolding send_and_receive error
  send_and_receive-Leaves bounded msg s = elim (Option-cases s.client_fd) [
    | inl closed ↦ (thrown s, ground (arith, closed), closed)
    | inr (fd, has) ↦ elim (Option-cases (os.inet_pton s.server_ip)) [
      | inl invalid ↦ (error os true s, ground (arith, has, invalid), refl)
      | inr (at, valid) ↦ sent-Ends bounded msg s fd at has valid
    ]
  ]

-- If a text of the client without zero bytes, not empty and short enough for the answer to fit into 1023 bytes, reaches
-- the server, and the answer reaches the client, then a round of start_communicate answers to the sender, and
-- send_and_receive prints the text behind "Server received your message: ".
pub echo :
    (os net : Os) (s : Server.State os) (c : State net) (b : ℕ) (bs : List ℕ) (from : os.Address)
    (ws : os.World) (fd : ℕ) (at : net.Address) (sender : net.Address) (wc wc' : net.World)
    → length s.buffer ≡ capacity
    → AllNonzero (b ∷ bs)
    → length (prefix ++ b ∷ bs) < capacity
    → os.recvfrom s.server_fd (capacity - 1) s.world ≡ (datagram (b ∷ bs) from, ws)
    → c.client_fd ≡ some fd
    → net.inet_pton c.server_ip ≡ some at
    → net.sendto fd (b ∷ bs) at c.world ≡ (true, wc)
    → net.recvfrom fd (capacity - 1) wc ≡ (datagram (prefix ++ b ∷ bs) sender, wc')
    → (t : Server.State os) × (communicate_round os s ≡ some (again t))
      × (t.world ≡ (os.sendto s.server_fd (prefix ++ b ∷ bs) from ws).1)
      × (send_and_receive net (b ∷ bs) c
          ≡ some (printed (prefix ++ b ∷ bs) (record c { world = wc' })))
unfolding communicate_round send_and_receive
echo os net s c b bs from ws fd at sender wc wc' full all short came has valid sent back =
    let (t, e, same) =
      received-sent os (record s { world = ws }) b bs from full (omega (arith, short)) all in
    let answer : show_response net (datagram (prefix ++ b ∷ bs) sender) (record c { world = wc' })
        ≡ some (printed (prefix ++ b ∷ bs) (record c { world = wc' })) =
      show_response-printed net (prefix ++ b ∷ bs) sender (record c { world = wc' }) short
      ∙ ap (λ text. some (printed text (record c { world = wc' }))) (prefix_text (b ∷ bs) all) in
    (
      t,
      ap (λ p. received os p.0 (record s { world = p.1 })) came ∙ e,
      same,
      ground (arith, has, valid, sent, back, answer),
    )
