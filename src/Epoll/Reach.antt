-- ===== src/Epoll/Reach.antt =====
-- Every interleaving of the main thread with the threads and tasks keeps the invariant.
use cpp_backend.Prelude.{
  ℕ, ◌≡◌, ◌≢◌, refl, sym, ap, subst, ◌∙◌, Bool, false, ◌&&◌, ◌||◌, Option, none, some, List, [],
  ◌∷◌, >>=-eq-some, some_inj, ◌==◌, get_elem?, set, remove, All-remove, All-set, All-at, arith,
  Bool-cases, inl, inr,
}
use native.Mathlib.Decide.{ℕ_discrete}
use cpp_backend.Epoll.Os.{Event, Os, AllAdded, Documented}
use cpp_backend.Epoll.Machine.{
  Job, State, accept_client, add_client, run_job, keep_job, Step, wait, handle, add, job,
  handle_event, step, run, start, File, accepts_first, after_wait,
}
use cpp_backend.Epoll.Invariant.{
  fd_of, is_adding, AllEvents, Inv, Inv-world, Inv-jobs, Inv-looping, add_client-Inv,
  accept_client-Inv,
}
use cpp_backend.Epoll.Moves.{Good, Goes, serve-Good, run_job-Goes}

module _ (os : Os) (doc : Documented os) (server : ℕ) (base : ℕ → Bool) where
  keep_job-Good :
      (k : ℕ) (s : State os) (j : Job) (client : base (fd_of j) ≡ false) (p : Option Job × State os)
      → Good os doc server base s
      → Goes os doc server base (fd_of j) client p s.jobs
      → Good os doc server base (keep_job os k p)
  keep_job-Good k s j client (none, t) v (v', same, next) =
      Inv-jobs os doc server base t (remove t.jobs k) v'
        (All-remove (λ j. base (fd_of j) ≡ false) t.jobs k v'.jobs)
  keep_job-Good k s j client (some i, t) v (v', same, next) =
      Inv-jobs os doc server base t (set t.jobs k i) v'
        (All-set (λ j. base (fd_of j) ≡ false) t.jobs k i v'.jobs (next i refl))

  batch_added :
      (s : State os) (es : List Event)
      → Good os doc server base s
      → AllAdded (λ i. i == server || s.watched i) es
      → AllEvents base server es
  batch_added s [] v all = tt
  batch_added s (e ∷ es) v (added, all) = (
    (λ other. elim (Bool-cases (base e.fd)) [
      | inl is_base ↦ absurd (ground (arith, v.apart e.fd is_base))
      | inr client ↦ client
    ]),
    batch_added s es v all,
  )

  Inv-batch :
      (s : State os) (es : List Event)
      → Good os doc server base s
      → AllEvents base server es
      → Good os doc server base (record s { batch = es })
  Inv-batch s es v all = record {
    opened = v.opened;
    apart = v.apart;
    new = v.new;
    jobs = v.jobs;
    events = all;
  }

  handle_event-Good :
      (f : File) (chunks : ℕ) (e : Event) (s t : State os)
      → Good os doc server base s
      → s.adding ≡ none
      → (e.fd ≢ server → base e.fd ≡ false)
      → handle_event os server f chunks e s ≡ some t
      → Good os doc server base t
  unfolding handle_event
  handle_event-Good f chunks e s t v idle of_client is =
      elim (Bool-cases (e.readable || (accepts_first f && e.fd == server))) [
        | inr skipped ↦ let same : s ≡ t = ground arith in subst (Good os doc server base) same v
        | inl handled ↦ elim (ℕ_discrete e.fd server) [
          | yes is_server ↦
              let same : accept_client os server s ≡ t = ground arith in
              subst (Good os doc server base) same (accept_client-Inv os doc server base s v idle)
          | no is_client ↦
              serve-Good os doc server base e.fd (of_client is_client) f chunks s t v (ground arith)
        ]
      ]

  waited-Good :
      (f : File) (s : State os) (p : Option (List Event) × os.World)
      → os.epoll_wait (λ i. i == server || s.watched i) s.world ≡ p
      → Good os doc server base s
      → Good os doc server base (after_wait os f p.0 (record s { world = p.1 }))
  unfolding after_wait
  waited-Good f s (none, w) got v =
      let v' = Inv-world os doc server base s w v (λ i.
        ap (λ p. os.is_open p.1 i) (sym got)
        ∙ doc.wait_keeps (λ i. i == server || s.watched i) i s.world) in
      Inv-looping os doc server base (record s { world = w }) _ v'
  waited-Good f s (some es, w) got v =
      let v' = Inv-world os doc server base s w v (λ i.
        ap (λ p. os.is_open p.1 i) (sym got)
        ∙ doc.wait_keeps (λ i. i == server || s.watched i) i s.world) in
      Inv-batch (record s { world = w }) es v'
        (batch_added s es v (doc.wait_added (λ i. i == server || s.watched i) es s.world w got))

  wait-Good :
      (f : File) (s t : State os) (a : Option ℕ) (es : List Event)
      → s.adding ≡ a
      → s.batch ≡ es
      → Good os doc server base s
      → step os server f wait s ≡ some t
      → Good os doc server base t
  unfolding step
  wait-Good f s t (some fd) es at has v e = absurd (ground arith)
  wait-Good f s t none (x ∷ es) at has v e = absurd (ground arith)
  wait-Good f s t none [] at has v e =
      let p = os.epoll_wait (λ i. i == server || s.watched i) s.world in
      let same : after_wait os f p.0 (record s { world = p.1 }) ≡ t = ground arith in
      subst (Good os doc server base) same (waited-Good f s p refl v)

  handle-Good :
      (f : File) (chunks : ℕ) (s t : State os) (a : Option ℕ) (es : List Event)
      → s.adding ≡ a
      → s.batch ≡ es
      → Good os doc server base s
      → step os server f (handle chunks) s ≡ some t
      → Good os doc server base t
  unfolding step
  handle-Good f chunks s t (some fd) es at has v e = absurd (ground arith)
  handle-Good f chunks s t none [] at has v e = absurd (ground arith)
  handle-Good f chunks s t none (x ∷ es) at has v e =
      let (of_client, rest) = subst (AllEvents base server) has v.events in
      handle_event-Good f chunks x (record s { batch = es }) t (Inv-batch s es v rest) at of_client
        (ground arith)

  -- Every step keeps the invariant.
  pub step-Good :
      (f : File) (m : Step) (s t : State os)
      → Good os doc server base s
      → step os server f m s ≡ some t
      → Good os doc server base t
  unfolding step
  step-Good f wait s t v e = wait-Good f s t s.adding s.batch refl refl v e
  step-Good f (handle chunks) s t v e = handle-Good f chunks s t s.adding s.batch refl refl v e
  step-Good f add s t v e =
      let (fd, at, is) = >>=-eq-some s.adding (λ fd. some (add_client os fd s)) e in
      subst (Good os doc server base) (some_inj is) (add_client-Inv os doc server base fd s v at)
  step-Good f (job k) s t v e =
      let (j, at, is) =
        >>=-eq-some (get_elem? s.jobs k) (λ j. some (keep_job os k (run_job os j s))) e in
      let client : base (fd_of j) ≡ false =
        All-at (λ j. base (fd_of j) ≡ false) s.jobs k v.jobs at in
      subst (Good os doc server base) (some_inj is) (
        keep_job-Good k s j client (run_job os j s) v
          (run_job-Goes os doc server base j s client v))

  run-Good :
      (f : File) (ms : List Step) (s t : State os)
      → Good os doc server base s
      → run os server f ms s ≡ some t
      → Good os doc server base t
  unfolding run
  run-Good f [] s t v e = subst (Good os doc server base) (some_inj e) v
  run-Good f (m ∷ ms) s t v e =
      let (u, now, later) = >>=-eq-some (step os server f m s) (λ u. run os server f ms u) e in
      run-Good f ms u t (step-Good f m s u v now) later

-- If the operating system behaves as documented, then after any interleaving of the main thread of one of the four
-- servers with its threads and tasks, from a start in which no client is there, the open descriptors are those of
-- the start and the clients that epoll watches, and no others; the only exception is a client that is just being
-- added. So no descriptor is leaked, and none of the start is closed.
pub run-watched :
    (os : Os) (doc : Documented os) (server : ℕ) (f : File) (ms : List Step) (w : os.World)
    (t : State os)
    → run os server f ms (start os w) ≡ some t
    → (i : ℕ) → is_adding t.adding i ≡ false
    → os.is_open t.world i ≡ (os.is_open w i || t.watched i)
run-watched os doc server f ms w t e =
    let v : Inv os doc server (os.is_open w) (start os w) = record {
      opened = λ i h. ground arith;
      apart = λ i h. refl;
      new = λ i h. absurd (cc);
      jobs = tt;
      events = tt;
    } in
    let v' : Inv os doc server (os.is_open w) t =
      run-Good os doc server (os.is_open w) f ms (start os w) t v e in
    v'.opened
