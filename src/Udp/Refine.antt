-- ===== src/Udp/Refine.antt =====
-- start_communicate against a server without a buffer: what it sends is made of the datagram alone.
use cpp_backend.Prelude.{
  ℕ, zero, suc, ◌-◌, ◌<◌, ◌≡◌, refl, sym, ap, subst, ◌∙◌, true, false, not, ◌&&◌, Option, some,
  List, [], ◌∷◌, ◌++◌, ◌>>=◌, if◌then◌else◌, length, arith, Bool-cases, inl, inr,
}
use cpp_backend.Texts.{c_str}
use cpp_backend.Udp.Os.{Received, datagram, failed, Os, Bounded}
use cpp_backend.Udp.Buffer.{capacity, zeros, length-zeros, terminate-fill}
use cpp_backend.Udp.Server.{
  prefix, State, Outcome, again, returned, thrown, running, send_msg, received, communicate_round,
  communicate_loop, start_communicate,
}

pub data Ending : Type 0 where
  goes_on : Ending
  returns : Ending
  throws : Ending

module _ (os : Os) where
  -- The answer to a datagram: none to an empty one.
  unfoldable pub respond : ℕ → Received os.Address → os.World → Ending × os.World
  respond fd (failed eintr) w = (if eintr && not (os.stopped w) then goes_on else throws, w)
  respond fd (datagram [] from) w = (goes_on, w)
  respond fd (datagram (b ∷ bs) from) w =
      (goes_on, (os.sendto fd (prefix ++ c_str (b ∷ bs)) from w).1)

  abbrev pub respond_next : ℕ → os.World → Ending × os.World
  respond_next fd w = let (r, w') = os.recvfrom fd (capacity - 1) w in respond fd r w'

  -- The server without a buffer, for so many rounds at most
  unfoldable pub respond_all : ℕ → ℕ → os.World → Ending × os.World
  respond_all zero fd w = (goes_on, w)
  respond_all (suc rounds) fd w = elim (os.stopped w) [
    | true ↦ (returns, w)
    | false ↦
        let (e, w') = respond_next fd w in
        let rest = respond_all rounds fd w' in
        elim e [ goes_on ↦ rest | returns ↦ (returns, w') | throws ↦ (throws, w') ]
  ]

  -- What is left of the state without the buffer.
  abbrev pub view : Outcome os → Ending × os.World
  view (again s) = (goes_on, s.world)
  view (returned s) = (returns, s.world)
  view (thrown s) = (throws, s.world)

  -- The buffer has its size, and the server its descriptor.
  abbrev Ready : ℕ → Outcome os → Type 0
  Ready fd (again s) = (length s.buffer ≡ capacity) × (s.server_fd ≡ fd)
  Ready fd _ = Unit {0}

  -- A round does what `respond` does.
  abbrev Agrees : ℕ → Option (Outcome os) → Ending × os.World → Type 0
  Agrees fd o e = (r : Outcome os) × (o ≡ some r) × (view r ≡ e) × Ready fd r

  received-Agrees :
      (r : Received os.Address) (s : State os)
      → length s.buffer ≡ capacity
      → ((bs : List ℕ) (from : os.Address) → r ≡ datagram bs from → length bs < capacity)
      → Agrees s.server_fd (received os r s) (respond s.server_fd r s.world)
  unfolding received respond
  received-Agrees (failed eintr) s full fits = elim (Bool-cases (eintr && running os s)) [
    | inl goes ↦
        (again (record s { buffer = zeros }), ground arith, ground arith, (length-zeros, refl))
    | inr over ↦ (thrown s, ground arith, ground arith, tt)
  ]
  received-Agrees (datagram [] from) s full fits = (again s, refl, refl, (full, refl))
  received-Agrees (datagram (b ∷ bs) from) s full fits =
      let (buffer, ends, is) =
        terminate-fill (b ∷ bs) s.buffer (omega (arith, full, fits (b ∷ bs) from refl)) in
      let sent : State os =
        send_msg os (prefix ++ c_str buffer) from (record s { buffer = buffer }) in
      (
        again (record sent { buffer = zeros }),
        ap
            (λ o. o >>= λ buffer. some (
              again
                (record (send_msg os (prefix ++ c_str buffer) from (record s { buffer = buffer })) {
                  buffer = zeros;
                })))
            ends,
        ap (λ text. (goes_on, (os.sendto s.server_fd (prefix ++ text) from s.world).1)) is,
        (length-zeros, refl),
      )

  round_by :
      (bounded : Bounded os) (s : State os)
      → length s.buffer ≡ capacity
      → (p : Received os.Address × os.World) → os.recvfrom s.server_fd (capacity - 1) s.world ≡ p
      → Agrees s.server_fd (communicate_round os s) (respond_next s.server_fd s.world)
  unfolding communicate_round
  round_by bounded s full (r, w) got =
      let (o, e, same, ready) =
        received-Agrees r (record s { world = w }) full
          (λ bs from is. omega (
            arith,
            bounded s.server_fd (capacity - 1) s.world w bs from (got ∙ ap (λ x. (x, w)) is),
          )) in
      (
        o,
        ap (λ p. received os p.0 (record s { world = p.1 })) got ∙ e,
        same ∙ sym (ap (λ p. respond s.server_fd p.0 p.1) got),
        ready,
      )

  next_rounds :
      (rounds : ℕ) (s : State os) (o : Outcome os)
      → running os s ≡ true
      → communicate_round os s ≡ some o
      → view o ≡ respond_next s.server_fd s.world
      → Ready s.server_fd o
      → ((t : State os)
          → length t.buffer ≡ capacity
          → t.server_fd ≡ s.server_fd
          → Agrees s.server_fd
              (communicate_loop os rounds t)
              (respond_all rounds s.server_fd t.world))
      → Agrees s.server_fd
          (communicate_loop os (suc rounds) s)
          (respond_all (suc rounds) s.server_fd s.world)
  unfolding communicate_loop respond_all
  next_rounds rounds s (again t) runs e same (full, fd) rest =
      let (o, e', same', ready) = rest t full fd in
      (o, ground (arith, e, e'), same' ∙ ground (arith, sym same), ready)
  next_rounds rounds s (returned t) runs e same ready rest =
      (returned t, ground (arith, e), ground (arith, same), tt)
  next_rounds rounds s (thrown t) runs e same ready rest =
      (thrown t, ground (arith, e), ground (arith, same), tt)

  loop-Agrees :
      (bounded : Bounded os) (rounds : ℕ) (s : State os)
      → length s.buffer ≡ capacity
      → Agrees s.server_fd (communicate_loop os rounds s) (respond_all rounds s.server_fd s.world)
  unfolding communicate_loop respond_all
  loop-Agrees bounded zero s full = (again s, refl, refl, (full, refl))
  loop-Agrees bounded (suc rounds) s full = elim (Bool-cases (running os s)) [
    | inr over ↦ (returned s, ground arith, ground arith, tt)
    | inl runs ↦
        let (o, e, same, ready) =
          round_by bounded s full (os.recvfrom s.server_fd (capacity - 1) s.world) refl in
        next_rounds rounds s o runs e same ready (λ t full fd.
          subst (λ i. Agrees i (communicate_loop os rounds t) (respond_all rounds i t.world)) fd
            (loop-Agrees bounded rounds t full))
  ]

  -- If recvfrom gives at most as many bytes as it is asked for, then start_communicate never reads or writes outside of its
  -- buffer, and for any number of rounds it ends, goes on and sends as the server without a buffer does: what it
  -- sends for a datagram is made of that datagram alone, and of nothing that was in the buffer before.
  pub start_communicate-refines :
      (bounded : Bounded os) (rounds : ℕ) (s : State os)
      → (o : Outcome os) × (start_communicate os rounds s ≡ some o)
        × (view o ≡ respond_all rounds s.server_fd s.world)
  unfolding start_communicate
  start_communicate-refines bounded rounds s =
      let (o, e, same, ready) =
        loop-Agrees bounded rounds (record s { buffer = zeros }) length-zeros in
      (o, e, same)
