-- ===== src/Epoll/Moves.antt =====
-- What the main thread does with a client, and what a thread or task does in a step, keeps the invariant.
use cpp_backend.Prelude.{
  ℕ, zero, suc, ◌≡◌, refl, sym, ap, subst, ◌∙◌, Bool, true, false, ◌||◌, Option, none, some, List,
  [], ◌∷◌, ◌++◌, >>=-eq-some, some_inj, if◌then◌else◌, arith, Bool-cases, inl, inr,
}
use cpp_backend.Texts.{c_str, greeting, short_greeting}
use cpp_backend.Epoll.Os.{Recv, bytes, failed, Os, Documented}
use cpp_backend.Epoll.Machine.{
  Job, communicate, closing, reply, locked_reply, State, close_fd, run_job, serve_client,
  submit_reply, drain, after_drain, drain_client, serve, File, epollserver, epollthread,
  epollthread_tp, epollthread_tpet, running,
}
use cpp_backend.Epoll.Invariant.{fd_of, Inv, Inv-world, Inv-errno, Inv-submit, close_fd-Inv}

module _ (os : Os) (doc : Documented os) (server : ℕ) (base : ℕ → Bool) where
  abbrev pub Good : State os → Type 0
  Good s = Inv os doc server base s

  either-Good : (b : Bool) (s t : State os) → Good s → Good t → Good (if b then s else t)
  either-Good true s t v w = v
  either-Good false s t v w = w

  -- A call of recv or of send
  received-Good :
      (fd : ℕ) (s : State os) (r : Recv) (w : os.World)
      → Good s
      → os.recv fd 1023 s.world ≡ (r, w)
      → Good (record s { world = w })
  received-Good fd s r w v got =
      Inv-world os doc server base s w v
        (λ i. ap (λ p. os.is_open p.1 i) (sym got) ∙ doc.recv_keeps fd 1023 i s.world)

  sent-Good :
      (fd : ℕ) (msg : List ℕ) (s : State os)
      → Good s
      → Good (record s { world = (os.send fd msg s.world).1 })
  sent-Good fd msg s v =
      Inv-world os doc server base s (os.send fd msg s.world).1 v
        (λ i. doc.send_keeps fd i msg s.world)

  module _ (fd : ℕ) (client : base fd ≡ false) where
    close_at : (s : State os) → Good s → Good (close_fd os fd s)
    close_at s v = close_fd-Inv os doc server base fd s v client

    serve_client-Good :
        (s : State os) (p : Recv × os.World)
        → os.recv fd 1023 s.world ≡ p
        → Good s
        → Good (serve_client os fd s)
    unfolding serve_client
    serve_client-Good s (failed again, w) got v =
        let u : State os = record s { world = w } in
        let e : serve_client os fd s ≡ close_fd os fd u = ground arith in
        subst Good (sym e) (close_at u (received-Good fd s (failed again) w v got))
    serve_client-Good s (bytes [], w) got v =
        let u : State os = record s { world = w } in
        let e : serve_client os fd s ≡ close_fd os fd u = ground arith in
        subst Good (sym e) (close_at u (received-Good fd s (bytes []) w v got))
    serve_client-Good s (bytes (b ∷ bs), w) got v =
        let u : State os = record s { world = w } in
        let sent = os.send fd (short_greeting ++ c_str (b ∷ bs)) w in
        let t : State os = record s { world = sent.1 } in
        let e : serve_client os fd s ≡ (if sent.0 then t else close_fd os fd t) = ground arith in
        let v' : Good t =
          sent-Good fd (short_greeting ++ c_str (b ∷ bs)) u
            (received-Good fd s (bytes (b ∷ bs)) w v got) in
        subst Good (sym e) (either-Good sent.0 t (close_fd os fd t) v' (close_at t v'))

    submit_reply-Good :
        (s : State os) (p : Recv × os.World)
        → os.recv fd 1023 s.world ≡ p
        → Good s
        → Good (submit_reply os fd s)
    unfolding submit_reply
    submit_reply-Good s (failed again, w) got v =
        let u : State os = record s { world = w } in
        let e : submit_reply os fd s ≡ close_fd os fd u = ground arith in
        subst Good (sym e) (close_at u (received-Good fd s (failed again) w v got))
    submit_reply-Good s (bytes [], w) got v =
        let u : State os = record s { world = w } in
        let e : submit_reply os fd s ≡ close_fd os fd u = ground arith in
        subst Good (sym e) (close_at u (received-Good fd s (bytes []) w v got))
    submit_reply-Good s (bytes (b ∷ bs), w) got v =
        let u : State os = record s { world = w } in
        let j : Job = reply fd (greeting ++ c_str (b ∷ bs)) in
        let e : submit_reply os fd s ≡ record u { jobs = s.jobs ++ j ∷ [] } = ground arith in
        subst Good (sym e)
          (Inv-submit os doc server base u j (received-Good fd s (bytes (b ∷ bs)) w v got) client)

    after_drain-Good : (msg : List ℕ) (s : State os) → Good s → Good (after_drain os fd msg s)
    unfolding after_drain
    after_drain-Good msg s v =
        either-Good _ _ _ (close_at s v)
          (Inv-submit os doc server base s (locked_reply fd _) v client)

    drained_by :
        (chunks : ℕ) (msg : List ℕ) (s : State os) (q : List ℕ × State os)
        → (p : Recv × os.World) → os.recv fd 1023 s.world ≡ p
        → Good s
        → drain os (suc chunks) fd msg s ≡ some q
        → ((m : List ℕ) (t : State os) → Good t → drain os chunks fd m t ≡ some q → Good q.1)
        → Good q.1
    unfolding drain
    drained_by chunks msg s q (failed again, w) got v e rest =
        let t : State os = record s { errno_again = again; world = w } in
        let is : t ≡ q.1 = ground arith in
        subst Good is (
          Inv-errno os doc server base (record s { world = w }) again
            (received-Good fd s (failed again) w v got))
    drained_by chunks msg s q (bytes [], w) got v e rest =
        let is : record s { world = w } ≡ q.1 = ground arith in
        subst Good is (received-Good fd s (bytes []) w v got)
    drained_by chunks msg s q (bytes (b ∷ bs), w) got v e rest =
        rest (msg ++ c_str (b ∷ bs)) (record s { world = w })
          (received-Good fd s (bytes (b ∷ bs)) w v got) (ground arith)

    drain-Good :
        (chunks : ℕ) (msg : List ℕ) (s : State os) (q : List ℕ × State os)
        → Good s
        → drain os chunks fd msg s ≡ some q
        → Good q.1
    unfolding drain
    drain-Good zero msg s q v e = absurd (cc)
    drain-Good (suc chunks) msg s q v e =
        drained_by chunks msg s q (os.recv fd 1023 s.world) refl v e λ m t. drain-Good chunks m t q

    pub serve-Good :
        (f : File) (chunks : ℕ) (s t : State os) → Good s → serve os f chunks fd s ≡ some t → Good t
    unfolding serve drain_client
    serve-Good epollserver chunks s t v e =
        subst Good (some_inj e) (serve_client-Good s (os.recv fd 1023 s.world) refl v)
    serve-Good epollthread chunks s t v e =
        subst Good (some_inj e) (Inv-submit os doc server base s (communicate fd) v client)
    serve-Good epollthread_tp chunks s t v e =
        subst Good (some_inj e) (submit_reply-Good s (os.recv fd 1023 s.world) refl v)
    serve-Good epollthread_tpet chunks s t v e =
        let (r, drained, after) =
          >>=-eq-some (drain os chunks fd [] s) (λ r. some (after_drain os fd r.0 r.1)) e in
        subst Good (some_inj after) (after_drain-Good r.0 r.1 (drain-Good chunks [] s r v drained))

    -- What a thread or task does in one step, to the descriptors and of its own place
    abbrev pub Goes : Option Job × State os → List Job → Type 0
    Goes p js = Good p.1 × (p.1.jobs ≡ js) × ((j : Job) → p.0 ≡ some j → base (fd_of j) ≡ false)

    will_close : (s t : State os) → Good t → t.jobs ≡ s.jobs → Goes (some (closing fd), t) s.jobs
    will_close s t v same = (v, same, λ j e. ap (λ k. base (fd_of k)) (sym (some_inj e)) ∙ client)

    ends : (s t : State os) → Good t → t.jobs ≡ s.jobs → Goes (none, t) s.jobs
    ends s t v same = (v, same, λ j e. absurd (cc))

    either-Goes :
        (b : Bool) (p q : Option Job × State os) (js : List Job)
        → Goes p js
        → Goes q js
        → Goes (if b then p else q) js
    either-Goes true p q js a c = a
    either-Goes false p q js a c = c

    communicate-Goes :
        (s : State os) (p : Recv × os.World)
        → os.recv fd 1023 s.world ≡ p
        → running os s ≡ true
        → Good s
        → Goes (run_job os (communicate fd) s) s.jobs
    unfolding run_job
    communicate-Goes s (failed again, w) got runs v =
        let t : State os = record s { world = w } in
        let e : run_job os (communicate fd) s ≡ (some (closing fd), t) = ground arith in
        subst (λ p. Goes p s.jobs) (sym e)
          (will_close s t (received-Good fd s (failed again) w v got) refl)
    communicate-Goes s (bytes [], w) got runs v =
        let t : State os = record s { world = w } in
        let e : run_job os (communicate fd) s ≡ (some (closing fd), t) = ground arith in
        subst (λ p. Goes p s.jobs) (sym e)
          (will_close s t (received-Good fd s (bytes []) w v got) refl)
    communicate-Goes s (bytes (b ∷ bs), w) got runs v =
        let u : State os = record s { world = w } in
        let msg : List ℕ = greeting ++ c_str (b ∷ bs) in
        let t : State os = record s { world = (os.send fd msg w).1 } in
        let v' : Good t = sent-Good fd msg u (received-Good fd s (bytes (b ∷ bs)) w v got) in
        let ok : Bool = (os.send fd msg w).0 || os.interrupted t.world in
        let e : run_job os (communicate fd) s ≡ (if ok then (none, t) else (some (closing fd), t)) =
          ground arith in
        subst (λ p. Goes p s.jobs) (sym e)
          (either-Goes ok (none, t) (some (closing fd), t) s.jobs (ends s t v' refl)
            (will_close s t v' refl))

  -- A step of a thread or task keeps the invariant, and it stays with its client.
  pub run_job-Goes :
      (j : Job) (s : State os) (client : base (fd_of j) ≡ false)
      → Good s
      → Goes (fd_of j) client (run_job os j s) s.jobs
  unfolding run_job close_fd
  run_job-Goes (communicate fd) s client v = elim (Bool-cases (running os s)) [
    | inr stopped ↦
        let e : run_job os (communicate fd) s ≡ (some (closing fd), s) = ground arith in
        subst (λ p. Goes fd client p s.jobs) (sym e) (will_close fd client s s v refl)
    | inl runs ↦ communicate-Goes fd client s (os.recv fd 1023 s.world) refl runs v
  ]
  run_job-Goes (closing fd) s client v =
      ends fd client s (close_fd os fd s) (close_at fd client s v) refl
  run_job-Goes (reply fd msg) s client v = elim (Bool-cases (running os s)) [
    | inr stopped ↦
        let e : run_job os (reply fd msg) s ≡ (none, s) = ground arith in
        subst (λ p. Goes fd client p s.jobs) (sym e) (ends fd client s s v refl)
    | inl runs ↦
        let t : State os = record s { world = (os.send fd msg s.world).1 } in
        let v' : Good t = sent-Good fd msg s v in
        let ok : Bool = (os.send fd msg s.world).0 in
        let e : run_job os (reply fd msg) s ≡ (if ok then (none, t) else (some (closing fd), t)) =
          ground arith in
        subst (λ p. Goes fd client p s.jobs) (sym e)
          (either-Goes fd client ok (none, t) (some (closing fd), t) s.jobs
            (ends fd client s t v' refl) (will_close fd client s t v' refl))
  ]
  run_job-Goes (locked_reply fd msg) s client v = elim (Bool-cases (running os s)) [
    | inr stopped ↦
        let e : run_job os (locked_reply fd msg) s ≡ (none, s) = ground arith in
        subst (λ p. Goes fd client p s.jobs) (sym e) (ends fd client s s v refl)
    | inl runs ↦
        let t : State os = record s { world = (os.send fd msg s.world).1 } in
        let v' : Good t = sent-Good fd msg s v in
        let ok : Bool = (os.send fd msg s.world).0 in
        let e : run_job os (locked_reply fd msg) s
            ≡ (if ok then (none, t) else (none, close_fd os fd t)) =
          ground arith in
        subst (λ p. Goes fd client p s.jobs) (sym e)
          (either-Goes fd client ok (none, t) (none, close_fd os fd t) s.jobs
            (ends fd client s t v' refl)
            (ends fd client s (close_fd os fd t) (close_at fd client t v') refl))
  ]
