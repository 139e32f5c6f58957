-- ===== src/Select/Moves.antt =====
-- What the main thread does with a descriptor that is ready, or when select fails, and what a thread or task does in a step, keeps
-- the invariant.
use cpp_backend.Prelude.{
  ℕ, ◌≡◌, refl, sym, ap, subst, ◌∙◌, Bool, true, false, Option, none, some, List, [], ◌∷◌, ◌++◌,
  arith, Bool-cases, inl, inr, some_inj, All-set, All-remove, set, remove,
}
use cpp_backend.Texts.{c_str, greeting, short_greeting}
use cpp_backend.Select.Os.{Os, Documented}
use cpp_backend.Select.Machine.{
  File, select_server, select_retype, select_thread, select_thread_pool, Job, communicate, leaving,
  closing, reply, State, drop_client, remove_client, prefix_of, serve_client, handle_client_io,
  serve, run_job, keep_job,
}
use cpp_backend.Select.Invariant.{fd_of, Inv-world, Inv-jobs, Inv-submit}
use cpp_backend.Select.Blocks.{Good, remove_client-Good, drop_client-Good}

module _ (os : Os) (doc : Documented os) (server : ℕ) (base : ℕ → Bool)
    (listens : base server ≡ true) where
  abbrev pub Fine : State os → Type 0
  Fine s = Good os doc server base listens s

  received-Fine :
      (fd n : ℕ) (s : State os) (msg : List ℕ) (w : os.World)
      → Fine s
      → os.recv fd n s.world ≡ (msg, w)
      → Fine (record s { world = w })
  received-Fine fd n s msg w v got =
      Inv-world os server base s w v
        (λ i. ap (λ p. os.is_open p.1 i) (sym got) ∙ doc.recv_keeps fd n i s.world)

  sent-Fine :
      (fd : ℕ) (msg : List ℕ) (s : State os)
      → Fine s
      → Fine (record s { world = os.send fd msg s.world })
  sent-Fine fd msg s v =
      Inv-world os server base s (os.send fd msg s.world) v (λ i. doc.send_keeps fd i msg s.world)

  module _ (fd : ℕ) (client : base fd ≡ false) where
    serve_client-Fine :
        (f : File) (s : State os) (p : List ℕ × os.World)
        → os.recv fd 1023 s.world ≡ p
        → Fine s
        → Fine (serve_client os server f fd s)
    unfolding serve_client
    serve_client-Fine f s ([], w) got v =
        let u : State os = record s { world = w } in
        let e : serve_client os server f fd s ≡ drop_client os server fd u = ground arith in
        subst Fine (sym e) (
          drop_client-Good os doc server base listens fd u (received-Fine fd 1023 s [] w v got)
            client)
    serve_client-Fine f s (b ∷ bs, w) got v =
        let u : State os = record s { world = w } in
        let e : serve_client os server f fd s
            ≡ record s { world = os.send fd (prefix_of f ++ c_str (b ∷ bs)) w } =
          ground arith in
        subst Fine (sym e) (
          sent-Fine fd (prefix_of f ++ c_str (b ∷ bs)) u (received-Fine fd 1023 s (b ∷ bs) w v got))

    handle_client_io-Fine :
        (s : State os) (p : List ℕ × os.World)
        → os.recv fd 1024 s.world ≡ p
        → Fine s
        → Fine (handle_client_io os server fd s)
    unfolding handle_client_io
    handle_client_io-Fine s ([], w) got v =
        let u : State os = record s { world = w } in
        let e : handle_client_io os server fd s ≡ drop_client os server fd u = ground arith in
        subst Fine (sym e) (
          drop_client-Good os doc server base listens fd u (received-Fine fd 1024 s [] w v got)
            client)
    handle_client_io-Fine s (b ∷ bs, w) got v =
        let u : State os = record s { world = w } in
        let j : Job = reply fd (short_greeting ++ b ∷ bs) in
        let e : handle_client_io os server fd s ≡ record u { jobs = s.jobs ++ j ∷ [] } =
          ground arith in
        subst Fine (sym e)
          (Inv-submit os server base u j (received-Fine fd 1024 s (b ∷ bs) w v got) client)

    pub serve-Fine : (f : File) (s : State os) → Fine s → Fine (serve os server f fd s)
    unfolding serve
    serve-Fine select_server s v =
        serve_client-Fine select_server s (os.recv fd 1023 s.world) refl v
    serve-Fine select_retype s v =
        serve_client-Fine select_retype s (os.recv fd 1023 s.world) refl v
    serve-Fine select_thread s v = Inv-submit os server base s (communicate fd) v client
    serve-Fine select_thread_pool s v = handle_client_io-Fine s (os.recv fd 1024 s.world) refl v

    -- What a thread or task does in one step, to the descriptors and of its own place
    abbrev pub Goes : Option Job × State os → List Job → Type 0
    Goes p js = Fine p.1 × (p.1.jobs ≡ js) × ((j : Job) → p.0 ≡ some j → base (fd_of j) ≡ false)

    ends : (s t : State os) → Fine t → t.jobs ≡ s.jobs → Goes (none, t) s.jobs
    ends s t v same = (v, same, λ j e. absurd (cc))

    waits :
        (s t : State os) (k : Job)
        → fd_of k ≡ fd
        → Fine t
        → t.jobs ≡ s.jobs
        → Goes (some k, t) s.jobs
    waits s t k of_client v same =
        (v, same, λ j e. ap (λ k. base (fd_of k)) (sym (some_inj e)) ∙ ap base of_client ∙ client)

    communicate-Goes :
        (s : State os) (p : List ℕ × os.World)
        → os.recv fd 1023 s.world ≡ p
        → os.interrupted s.world ≡ false
        → Fine s
        → Goes (run_job os server (communicate fd) s) s.jobs
    unfolding run_job
    communicate-Goes s ([], w) got runs v =
        let t : State os = record s { world = w } in
        let e : run_job os server (communicate fd) s ≡ (some (closing fd), t) = ground arith in
        subst (λ p. Goes p s.jobs) (sym e)
          (waits s t (closing fd) refl (received-Fine fd 1023 s [] w v got) refl)
    communicate-Goes s (b ∷ bs, w) got runs v =
        let u : State os = record s { world = w } in
        let t : State os = record s { world = os.send fd (greeting ++ c_str (b ∷ bs)) w } in
        let e : run_job os server (communicate fd) s ≡ (none, t) = ground arith in
        subst (λ p. Goes p s.jobs) (sym e)
          (ends s t
            (sent-Fine fd (greeting ++ c_str (b ∷ bs)) u (received-Fine fd 1023 s (b ∷ bs) w v got))
            refl)

  -- A step of a thread or task keeps the invariant, and it stays with its client.
  pub run_job-Goes :
      (j : Job) (s : State os) (client : base (fd_of j) ≡ false)
      → Fine s
      → Goes (fd_of j) client (run_job os server j s) s.jobs
  unfolding run_job remove_client drop_client
  run_job-Goes (communicate fd) s client v = elim (Bool-cases (os.interrupted s.world)) [
    | inl stopped ↦
        let e : run_job os server (communicate fd) s ≡ (some (leaving fd), s) = ground arith in
        subst (λ p. Goes fd client p s.jobs) (sym e) (waits fd client s s (leaving fd) refl v refl)
    | inr runs ↦ communicate-Goes fd client s (os.recv fd 1023 s.world) refl runs v
  ]
  run_job-Goes (leaving fd) s client v =
      ends fd client s (remove_client os server fd s)
        (remove_client-Good os doc server base listens fd s v client) refl
  run_job-Goes (closing fd) s client v =
      ends fd client s (drop_client os server fd s)
        (drop_client-Good os doc server base listens fd s v client) refl
  run_job-Goes (reply fd msg) s client v = elim (Bool-cases (os.interrupted s.world)) [
    | inl stopped ↦
        let e : run_job os server (reply fd msg) s ≡ (none, s) = ground arith in
        subst (λ p. Goes fd client p s.jobs) (sym e) (ends fd client s s v refl)
    | inr runs ↦
        let t : State os = record s { world = os.send fd msg s.world } in
        let e : run_job os server (reply fd msg) s ≡ (none, t) = ground arith in
        subst (λ p. Goes fd client p s.jobs) (sym e)
          (ends fd client s t (sent-Fine fd msg s v) refl)
  ]

  pub keep_job-Fine :
      (k : ℕ) (s : State os) (j : Job) (client : base (fd_of j) ≡ false) (p : Option Job × State os)
      → Goes (fd_of j) client p s.jobs
      → Fine (keep_job os server k p)
  keep_job-Fine k s j client (none, t) (v, same, next) =
      Inv-jobs os server base t (remove t.jobs k) v
        (All-remove (λ j. base (fd_of j) ≡ false) t.jobs k v.jobs)
  keep_job-Fine k s j client (some i, t) (v, same, next) =
      Inv-jobs os server base t (set t.jobs k i) v
        (All-set (λ j. base (fd_of j) ≡ false) t.jobs k i v.jobs (next i refl))
