-- ===== src/Select/Reach.antt =====
-- Every interleaving of the main thread with the threads and tasks keeps the invariant.
use cpp_backend.Prelude.{
  ℕ, ◌+◌, ◌<◌, ◌≤◌, ◌≡◌, refl, sym, ap, subst, ◌∙◌, Bool, true, false, ◌||◌, Option, none, some,
  List, [], ◌∷◌, ◌==◌, leb, if◌then◌else◌, arith, Bool-cases, inl, inr, some_inj, All-at, get_elem?,
  >>=-eq-some,
}
use native.Mathlib.Decide.{ℕ_discrete}
use cpp_backend.DescendingSet.{has}
use cpp_backend.Select.Os.{Os, Documented, SmallDescriptors}
use cpp_backend.Select.Machine.{
  File, Scan, State, Step, select, scan, add, job, is_single, accept_client, add_client, serve,
  run_job, keep_job, call_select, scan_next, step, run, start,
}
use cpp_backend.Select.Invariant.{fd_of, is_adding, Inv, Inv-scanning}
use cpp_backend.Select.Blocks.{Good, add_client-Good, accept_client-Good}
use cpp_backend.Select.Moves.{serve-Fine, run_job-Goes, keep_job-Fine}
use cpp_backend.Select.Calls.{call_select-Fine}

module _ (os : Os) (doc : Documented os) (small : SmallDescriptors os) (server : ℕ)
    (base : ℕ → Bool) (listens : base server ≡ true) where
  abbrev Fine : State os → Type 0
  Fine s = Good os doc server base listens s

  scan_next-Fine :
      (f : File) (c : Scan) (s : State os)
      → Fine s
      → s.adding ≡ none
      → s.scanning ≡ some c
      → Fine (scan_next os server f c s)
  unfolding scan_next
  scan_next-Fine f c s v idle at =
      let next : State os = record s { scanning = some (record c { fd = c.fd + 1 }) } in
      let v' : Fine next =
        Inv-scanning os server base s next.scanning v
          (λ d is i h other. v.ready c at i (ap (λ c. c.ready i) (some_inj is) ∙ h) other) in
      elim (Bool-cases (leb c.fd (if is_single f then s.max_fd else c.cur_max_fd))) [
        | inr over ↦
            let e : scan_next os server f c s ≡ record s { scanning = none } = ground arith in
            subst Fine (sym e) (Inv-scanning os server base s none v (λ d is. absurd (cc)))
        | inl inside ↦ elim (Bool-cases (c.ready c.fd)) [
          | inr quiet ↦
              let e : scan_next os server f c s ≡ next = ground arith in subst Fine (sym e) v'
          | inl ready ↦ elim (ℕ_discrete c.fd server) [
            | yes is_server ↦
                let e : scan_next os server f c s ≡ accept_client os server next = ground arith in
                subst Fine (sym e)
                  (accept_client-Good os doc server base listens small next v' idle)
            | no is_client ↦
                let e : scan_next os server f c s ≡ serve os server f c.fd next = ground arith in
                subst Fine (sym e) (
                  serve-Fine os doc server base listens c.fd (v.ready c at c.fd ready is_client) f
                    next v')
          ]
        ]
      ]

  select-Fine :
      (f : File) (s t : State os) (a : Option ℕ) (c : Option Scan)
      → s.adding ≡ a
      → s.scanning ≡ c
      → Fine s
      → step os server f select s ≡ some t
      → Fine t
  unfolding step
  select-Fine f s t (some fd) c at has v e = absurd (ground arith)
  select-Fine f s t none (some c) at has v e = absurd (ground arith)
  select-Fine f s t none none at has v e = elim (Bool-cases s.looping) [
    | inr left ↦ absurd (ground arith)
    | inl runs ↦
        let same : call_select os server f s ≡ t = ground arith in
        subst Fine same (call_select-Fine os doc server base listens f s v runs)
  ]

  scan-Fine :
      (f : File) (s t : State os) (a : Option ℕ) (c : Option Scan)
      → s.adding ≡ a
      → s.scanning ≡ c
      → Fine s
      → step os server f scan s ≡ some t
      → Fine t
  unfolding step
  scan-Fine f s t (some fd) c at has v e = absurd (ground arith)
  scan-Fine f s t none none at has v e = absurd (ground arith)
  scan-Fine f s t none (some c) at has v e =
      let same : scan_next os server f c s ≡ t = ground arith in
      subst Fine same (scan_next-Fine f c s v at has)

  step-Fine :
      (f : File) (m : Step) (s t : State os) → Fine s → step os server f m s ≡ some t → Fine t
  unfolding step
  step-Fine f select s t v e = select-Fine f s t s.adding s.scanning refl refl v e
  step-Fine f scan s t v e = scan-Fine f s t s.adding s.scanning refl refl v e
  step-Fine f add s t v e =
      let (fd, at, is) = >>=-eq-some s.adding (λ fd. some (add_client os server f fd s)) e in
      subst Fine (some_inj is) (add_client-Good os doc server base listens f fd s v at)
  step-Fine f (job k) s t v e =
      let (j, at, is) =
        >>=-eq-some (get_elem? s.jobs k) (λ j. some (keep_job os server k (run_job os server j s)))
          e in
      let client : base (fd_of j) ≡ false =
        All-at (λ j. base (fd_of j) ≡ false) s.jobs k v.jobs at in
      subst Fine (some_inj is) (
        keep_job-Fine os doc server base listens k s j client (run_job os server j s)
          (run_job-Goes os doc server base listens j s client v))

  run-Fine :
      (f : File) (ms : List Step) (s t : State os) → Fine s → run os server f ms s ≡ some t → Fine t
  unfolding run
  run-Fine f [] s t v e = subst Fine (some_inj e) v
  run-Fine f (m ∷ ms) s t v e =
      let (u, now, later) = >>=-eq-some (step os server f m s) (λ u. run os server f ms u) e in
      run-Fine f ms u t (step-Fine f m s u v now) later

  start-Fine :
      (w : os.World)
      → ((i : ℕ) → os.is_open w i ≡ base i)
      → server < 1024
      → Fine (start os server w)
  start-Fine w opened inside = record {
    order = tt;
    reads = λ l i. ground arith;
    bound = λ i h. absurd (cc);
    above = omega arith;
    inside = inside;
    fits = ground arith;
    no_leak = λ i o h. ground (arith, opened i);
    kept = λ i h. opened i ∙ h;
    new = λ i h. absurd (cc);
    jobs = tt;
    ready = λ c is. absurd (cc);
  }

-- If the operating system behaves as documented and gives no descriptor beyond FD_SETSIZE, then after any interleaving of
-- the main thread of one of the select servers with its threads and tasks, from a start in which no client is
-- there: no FD_SET was outside of its fd_set; while the loop is not left, the fd_set has exactly the server and the clients;
-- max_fd is none less than these; what was open at the start is open, and what is open besides is a client, or is just being added.
pub run-tracked :
    (os : Os) (doc : Documented os) (small : SmallDescriptors os) (server : ℕ) (f : File)
    (ms : List Step) (w : os.World) (t : State os)
    → os.is_open w server ≡ true
    → server < 1024
    → run os server f ms (start os server w) ≡ some t
    → (t.overrun ≡ false)
      × (t.looping ≡ true → (i : ℕ) → t.read_fds i ≡ (i == server || has i t.client_fds))
      × (server ≤ t.max_fd)
      × ((i : ℕ) → has i t.client_fds ≡ true → i ≤ t.max_fd)
      × ((i : ℕ) → os.is_open w i ≡ true → os.is_open t.world i ≡ true)
      × ((i : ℕ)
          → os.is_open t.world i ≡ true
          → is_adding t.adding i ≡ false
          → (os.is_open w i || has i t.client_fds) ≡ true)
run-tracked os doc small server f ms w t listens inside e =
    let v : Inv os server (os.is_open w) t =
      run-Fine os doc small server (os.is_open w) listens f ms (start os server w) t
        (start-Fine os doc small server (os.is_open w) listens w (λ i. refl) inside) e in
    (v.fits, v.reads, v.above, (λ i h. (v.bound i h).0), v.kept, v.no_leak)
