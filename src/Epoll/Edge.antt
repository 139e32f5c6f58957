-- ===== src/Epoll/Edge.antt =====
-- epollthread_tpet.cpp: client_communicate reads until recv has nothing more.
use cpp_backend.Prelude.{
  ℕ, zero, suc, ◌<◌, ◌≡◌, refl, sym, ap, subst, ◌∙◌, true, false, Option, none, some, List, [], ◌∷◌,
  ◌++◌, ◌>>=◌, length, arith, length-append, nil_of_length, get_elem?-end, remove-end,
}
use native.Mathlib.Decide.{dec_lt}
use mathlib.Core.List.{append_assoc, append-nil}
use cpp_backend.Texts.{
  c_str, greeting, empty_input, equals, AllNonzero, c_str-all, AllNonzero-front, AllNonzero-rest,
}
use cpp_backend.Epoll.Os.{bytes, failed, Os, Documented}
use cpp_backend.Epoll.Machine.{
  Job, locked_reply, State, job, step, run_job, keep_job, epollthread_tpet, drain, after_drain,
  drain_client,
}

module _ (os : Os) where
  -- recv(2) on a socket that does not block: it gives some bytes of those that have come, and EAGAIN when there are
  -- none.
  abbrev pub DeliversAll : ℕ → (os.World → List ℕ) → Type 0
  DeliversAll fd incoming =
      (w : os.World)
      → (0 < length (incoming w)
          → (b : ℕ) × (bs : List ℕ) × (w' : os.World) × (os.recv fd 1023 w ≡ (bytes (b ∷ bs), w'))
            × (incoming w ≡ (b ∷ bs) ++ incoming w'))
        × (incoming w ≡ []
            → (w' : os.World) × (os.recv fd 1023 w ≡ (failed true, w')) × (incoming w' ≡ []))

  after_drain-reply :
      (fd b : ℕ) (bs : List ℕ) (s : State os)
      → s.errno_again ≡ true
      → equals (b ∷ bs) empty_input ≡ false
      → after_drain os fd (b ∷ bs) s
        ≡ record s { jobs = s.jobs ++ locked_reply fd (greeting ++ b ∷ bs) ∷ [] }
  unfolding after_drain
  after_drain-reply fd b bs s again other = ground arith

  module _ (fd : ℕ) (incoming : os.World → List ℕ) (delivers : DeliversAll fd incoming) where
    -- drain has read its text, and errno is EAGAIN.
    abbrev Drained : Option (List ℕ × State os) → List ℕ → State os → Type 0
    Drained o msg s =
        (w : os.World) × (o ≡ some (msg, record s { errno_again = true; world = w }))
        × (incoming w ≡ [])

    drain-next :
        (chunks : ℕ) (msg : List ℕ) (s : State os) (b : ℕ) (bs : List ℕ) (w : os.World)
        → os.recv fd 1023 s.world ≡ (bytes (b ∷ bs), w)
        → AllNonzero (b ∷ bs)
        → drain os (suc chunks) fd msg s
          ≡ drain os chunks fd (msg ++ b ∷ bs) (record s { world = w })
    unfolding drain
    drain-next chunks msg s b bs w got all = ground (arith, c_str-all (b ∷ bs) all)

    drain-last :
        (chunks : ℕ) (msg : List ℕ) (s : State os) (w : os.World)
        → os.recv fd 1023 s.world ≡ (failed true, w)
        → drain os (suc chunks) fd msg s ≡ some (msg, record s { errno_again = true; world = w })
    unfolding drain
    drain-last chunks msg s w got = ground arith

    drain_lem :
        (chunks : ℕ) (msg : List ℕ) (s : State os)
        → length (incoming s.world) < chunks
        → AllNonzero (incoming s.world)
        → Drained (drain os chunks fd msg s) (msg ++ incoming s.world) s
    drain_lem zero msg s enough all = elim enough [ ]
    drain_lem (suc chunks) msg s enough all = elim (dec_lt 0 (length (incoming s.world))) [
      | no over ↦
          let nothing : incoming s.world ≡ [] = nil_of_length (incoming s.world) (omega arith) in
          let (w, got, still) = (delivers s.world).1 nothing in
          (
            w,
            drain-last chunks msg s w got
                ∙ ap (λ m. some (m, record s { errno_again = true; world = w }))
                    (sym (append-nil msg) ∙ ap (◌++◌ msg) (sym nothing)),
            still,
          )
      | yes more ↦
          let (b, bs, w, got, front) = (delivers s.world).0 more in
          let split : AllNonzero ((b ∷ bs) ++ incoming w) = subst AllNonzero front all in
          let (w', runs, over) =
            drain_lem chunks (msg ++ b ∷ bs) (record s { world = w })
              (omega (arith, ap length front, length-append bs (incoming w)))
              (AllNonzero-rest (b ∷ bs) (incoming w) split) in
          (
            w',
            drain-next chunks msg s b bs w got (AllNonzero-front (b ∷ bs) (incoming w) split)
                ∙ runs
                ∙ ap (λ m. some (m, record s { errno_again = true; world = w' }))
                    (append_assoc msg (b ∷ bs) (incoming w) ∙ ap (◌++◌ msg) (sym front)),
            over,
          )
    ]

    -- If recv gives what has come and then EAGAIN, then client_communicate of epollthread_tpet.cpp reads all of it, in
    -- as many calls as it takes, and gives the pool one reply with all of it; the client stays watched. This is so
    -- for a text without zero bytes that is not empty and not "[EMPTY INPUT]".
    pub drain_client-replies :
        (chunks : ℕ) (s : State os) (b : ℕ) (bs : List ℕ)
        → incoming s.world ≡ b ∷ bs
        → length (b ∷ bs) < chunks
        → AllNonzero (b ∷ bs)
        → equals (b ∷ bs) empty_input ≡ false
        → (t : State os) × (drain_client os chunks fd s ≡ some t)
          × (t.jobs ≡ s.jobs ++ locked_reply fd (greeting ++ b ∷ bs) ∷ [])
          × (t.watched ≡ s.watched)
          × (incoming t.world ≡ [])
    unfolding drain_client
    drain_client-replies chunks s b bs text enough all other =
        let (w, runs, over) =
          drain_lem chunks [] s (omega (arith, ap length text)) (subst AllNonzero (sym text) all) in
        let u : State os = record s { errno_again = true; world = w } in
        (
          record u { jobs = s.jobs ++ locked_reply fd (greeting ++ b ∷ bs) ∷ [] },
          ap (λ o. o >>= λ r. some (after_drain os fd r.0 r.1)) (runs ∙ ap (λ m. some (m, u)) text)
              ∙ ap some (after_drain-reply fd b bs u refl other),
          refl,
          refl,
          over,
        )

  two_calls :
      (fd chunks : ℕ) (s : State os) (b : ℕ) (bs : List ℕ) (w w' : os.World)
      → os.recv fd 1023 s.world ≡ (bytes (b ∷ bs), w)
      → os.recv fd 1023 w ≡ (bytes [], w')
      → drain os (suc (suc chunks)) fd [] s ≡ some (c_str (b ∷ bs), record s { world = w' })
  unfolding drain
  two_calls fd chunks s b bs w w' got over = ground arith

  locked_reply-sent :
      (fd : ℕ) (msg : List ℕ) (t : State os) (w : os.World)
      → os.interrupted t.world ≡ false
      → os.send fd msg t.world ≡ (true, w)
      → run_job os (locked_reply fd msg) t ≡ (none, record t { world = w })
  unfolding run_job
  locked_reply-sent fd msg t w going sent = ground arith

  -- If errno is EAGAIN from before, and a client that is watched sends a text, not "[EMPTY INPUT]", and closes its side
  -- before it is read, then client_communicate of epollthread_tpet.cpp reads to the end of the stream, and once the
  -- reply that it submits has been sent, by a send that succeeds before the server is interrupted, nothing is left
  -- to do for the client, which is still watched and open.
  pub half_closed_kept :
      (doc : Documented os) (server_fd fd chunks : ℕ) (s : State os) (b c : ℕ) (bs cs : List ℕ)
      (w w' w'' : os.World)
      → s.errno_again ≡ true
      → s.watched fd ≡ true
      → os.is_open s.world fd ≡ true
      → os.recv fd 1023 s.world ≡ (bytes (b ∷ bs), w)
      → c_str (b ∷ bs) ≡ c ∷ cs
      → equals (c ∷ cs) empty_input ≡ false
      → os.recv fd 1023 w ≡ (bytes [], w')
      → os.interrupted w' ≡ false
      → os.send fd (greeting ++ c ∷ cs) w' ≡ (true, w'')
      → (t : State os) × (u : State os) × (drain_client os (suc (suc chunks)) fd s ≡ some t)
        × (step os server_fd epollthread_tpet (job (length s.jobs)) t ≡ some u)
        × (u.jobs ≡ s.jobs)
        × (u.watched fd ≡ true)
        × (os.is_open u.world fd ≡ true)
  unfolding drain_client step
  half_closed_kept doc server_fd fd chunks s b c bs cs w w' w'' again watched opened got text other
        over going sent =
      let reply : Job = locked_reply fd (greeting ++ c ∷ cs) in
      let t : State os = record s { world = w'; jobs = s.jobs ++ reply ∷ [] } in
      let same : os.is_open w'' fd ≡ os.is_open s.world fd =
        ap (λ p. os.is_open p.1 fd) (sym sent)
        ∙ doc.send_keeps fd fd (greeting ++ c ∷ cs) w'
        ∙ ap (λ p. os.is_open p.1 fd) (sym over)
        ∙ doc.recv_keeps fd 1023 fd w
        ∙ ap (λ p. os.is_open p.1 fd) (sym got)
        ∙ doc.recv_keeps fd 1023 fd s.world in
      (
        t,
        record s { world = w'' },
        ap (λ o. o >>= λ r. some (after_drain os fd r.0 r.1))
              (two_calls fd chunks s b bs w w' got over
                ∙ ap (λ m. some (m, record s { world = w' })) text)
            ∙ ap some (after_drain-reply fd c cs (record s { world = w' }) again other),
        ap (λ o. o >>= λ j. some (keep_job os (length s.jobs) (run_job os j t)))
              (get_elem?-end s.jobs reply)
            ∙ ap (λ p. some (keep_job os (length s.jobs) p))
                (locked_reply-sent fd (greeting ++ c ∷ cs) t w'' going sent)
            ∙ ap (λ js. some (record t { world = w''; jobs = js })) (remove-end s.jobs reply),
        refl,
        watched,
        same ∙ opened,
      )
