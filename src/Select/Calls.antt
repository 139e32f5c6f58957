-- ===== src/Select/Calls.antt =====
-- The call of select, and what each file does when it fails, keep the invariant.
use cpp_backend.Prelude.{
  ℕ, ◌+◌, ◌≡◌, refl, sym, ap, subst, ◌∙◌, Bool, true, false, not, ◌&&◌, Option, none, some, List,
  [], ◌∷◌, arith, Bool-cases, inl, inr, ◌⊎◌, some_inj,
}
use native.Mathlib.Decide.{ℕ_discrete}
use cpp_backend.DescendingSet.{has, IsDescending}
use cpp_backend.Select.Os.{Os, Documented}
use cpp_backend.Select.Machine.{
  File, select_server, select_retype, select_thread, select_thread_pool, Scan, State, close_all,
  select_failed, call_select,
}
use cpp_backend.Select.Invariant.{Inv-world, Inv-scanning, Inv-looping}
use cpp_backend.Select.Blocks.{Good}

module _ (os : Os) (doc : Documented os) (server : ℕ) (base : ℕ → Bool)
    (listens : base server ≡ true) where
  abbrev Fine : State os → Type 0
  Fine s = Good os doc server base listens s

  -- error closes the clients, and nothing else.
  is_open-close_all :
      (fds : List ℕ) (w : os.World) (i : ℕ)
      → os.is_open (close_all os server fds w) i ≡ os.is_open w i && not (has i fds)
  is_open-close_all [] w i = ground arith
  is_open-close_all (fd ∷ fds) w i = elim (ℕ_discrete i fd) [
    | yes same ↦
        let gone : os.is_open (os.close fd w) i ≡ false =
          ap (os.is_open (os.close fd w)) same ∙ doc.close_gone fd w in
        ground (arith, is_open-close_all fds (os.close fd w) i)
    | no differ ↦
        ground (arith, is_open-close_all fds (os.close fd w) i, doc.close_keeps fd i w differ)
  ]

  thrown-Fine :
      (s : State os) (cs : List ℕ)
      → Fine s
      → (cs ≡ s.client_fds) ⊎ (cs ≡ [])
      → Fine (record s {
        looping = false;
        client_fds = cs;
        world = close_all os server s.client_fds s.world;
      })
  thrown-Fine s cs v which =
      let closed : (i : ℕ)
          → os.is_open (close_all os server s.client_fds s.world) i
            ≡ os.is_open s.world i && not (has i s.client_fds) =
        is_open-close_all s.client_fds s.world in
      let old : (i : ℕ) → has i cs ≡ true → has i s.client_fds ≡ true = λ i h. elim which [
        | inl same ↦ ap (has i) (sym same) ∙ h
        | inr empty ↦ absurd (ground (arith, ap (has i) empty))
      ] in
      record {
        order = elim which [
          | inl same ↦ subst IsDescending (sym same) v.order
          | inr empty ↦ subst IsDescending (sym empty) tt
        ];
        reads = λ l. absurd (cc);
        bound = λ i h. v.bound i (old i h);
        above = v.above;
        inside = v.inside;
        fits = v.fits;
        no_leak = λ i o h. ground (arith, closed i, v.no_leak i);
        kept = λ i h. elim (Bool-cases (has i s.client_fds)) [
          | inl client ↦ absurd (ground (arith, (v.bound i client).1))
          | inr other ↦ ground (arith, closed i, v.kept i h)
        ];
        new = v.new;
        jobs = v.jobs;
        ready = v.ready;
      }

  select_failed-Fine :
      (f : File) (s : State os) → Fine s → s.looping ≡ true → Fine (select_failed os server f s)
  unfolding select_failed
  select_failed-Fine select_server s v runs = thrown-Fine s s.client_fds v (inl refl)
  select_failed-Fine select_retype s v runs = thrown-Fine s [] v (inr refl)
  select_failed-Fine select_thread s v runs = v
  select_failed-Fine select_thread_pool s v runs =
      Inv-looping os server base s (os.eintr s.world) v runs

  called-Fine :
      (f : File) (s : State os) (p : Option (ℕ → Bool) × os.World)
      → os.select (s.max_fd + 1) s.read_fds s.world ≡ p
      → Fine s
      → s.looping ≡ true
      → Fine (call_select os server f s)
  unfolding call_select
  called-Fine f s (none, w) got v runs =
      let u : State os = record s { world = w } in
      let v' : Fine u = Inv-world os server base s w v (λ i.
        ap (λ p. os.is_open p.1 i) (sym got)
        ∙ doc.select_keeps (s.max_fd + 1) i s.read_fds s.world) in
      let e : call_select os server f s ≡ select_failed os server f u = ground arith in
      subst Fine (sym e) (select_failed-Fine f u v' runs)
  called-Fine f s (some ready, w) got v runs =
      let u : State os = record s { world = w } in
      let v' : Fine u = Inv-world os server base s w v (λ i.
        ap (λ p. os.is_open p.1 i) (sym got)
        ∙ doc.select_keeps (s.max_fd + 1) i s.read_fds s.world) in
      let c : Scan = record { ready = ready; cur_max_fd = s.max_fd; fd = 0 } in
      let e : call_select os server f s ≡ record u { scanning = some c } = ground arith in
      subst Fine (sym e) (
        Inv-scanning os server base u (some c) v' (λ d is i h other.
          let asked : s.read_fds i ≡ true =
            doc.select_asked (s.max_fd + 1) i s.read_fds ready s.world w got
              (ap (λ c. c.ready i) (some_inj is) ∙ h) in
          (v.bound i (ground (arith, v.reads runs i, asked))).1))

  pub call_select-Fine :
      (f : File) (s : State os) → Fine s → s.looping ≡ true → Fine (call_select os server f s)
  call_select-Fine f s v runs =
      called-Fine f s (os.select (s.max_fd + 1) s.read_fds s.world) refl v runs
