-- ===== src/Select/Blocks.antt =====
-- The blocks that hold mtx keep the invariant: a client comes, or goes.
use cpp_backend.Prelude.{
  ℕ, ◌<◌, ◌≤◌, ◌≡◌, refl, sym, ap, ◌∙◌, Bool, true, false, not, ◌&&◌, ◌||◌, Option, none, some,
  ◌==◌, leb, max, update, arith, Bool-cases, inl, inr,
}
use native.Mathlib.Decide.{ℕ_discrete}
use cpp_backend.DescendingSet.{
  insert, erase, has, has-insert, insert-IsDescending, has-erase, erase-IsDescending,
}
use cpp_backend.Select.Os.{Os, Documented, SmallDescriptors}
use cpp_backend.Select.Machine.{
  File, select_server, select_retype, select_thread, select_thread_pool, State, fd_setsize, highest,
  remove_client, drop_client, add_client, accept_client,
}
use cpp_backend.Select.Invariant.{
  is_adding, Inv, Inv-max, highest-above, highest-bound, highest-inside,
}

module _ (os : Os) (doc : Documented os) (server : ℕ) (base : ℕ → Bool)
    (listens : base server ≡ true) where
  abbrev pub Good : State os → Type 0
  Good s = Inv os server base s

  pub remove_client-Good :
      (fd : ℕ) (s : State os) → Good s → base fd ≡ false → Good (remove_client os server fd s)
  unfolding remove_client
  remove_client-Good fd s v client =
      let erased : (i : ℕ) → has i (erase fd s.client_fds) ≡ has i s.client_fds && not (i == fd) =
        λ i. has-erase i fd s.client_fds v.order in
      record {
        order = erase-IsDescending fd s.client_fds v.order;
        reads = λ l i. elim (ℕ_discrete i fd) [
          | yes same ↦ ground (arith, erased i, v.reads l i, ap base same)
          | no differ ↦ ground (arith, erased i, v.reads l i)
        ];
        bound = λ i h. v.bound i (ground (arith, erased i));
        above = v.above;
        inside = v.inside;
        fits = v.fits;
        no_leak = λ i o h. elim (ℕ_discrete i fd) [
          | yes same ↦ absurd (
              ground (arith, doc.close_gone fd s.world, ap (os.is_open (os.close fd s.world)) same))
          | no differ ↦
              ground
                (arith, erased i, v.no_leak i (sym (doc.close_keeps fd i s.world differ) ∙ o) h)
        ];
        kept =
            λ i h. doc.close_keeps fd i s.world (λ same. ground (arith, ap base same)) ∙ v.kept i h;
        new = v.new;
        jobs = v.jobs;
        ready = v.ready;
      }

  pub drop_client-Good :
      (fd : ℕ) (s : State os) → Good s → base fd ≡ false → Good (drop_client os server fd s)
  unfolding drop_client remove_client
  drop_client-Good fd s v client =
      let u = remove_client os server fd s in
      let v' : Good u = remove_client-Good fd s v client in
      Inv-max os server base u (highest os server u.client_fds) v'
        (highest-bound os server base u.client_fds v'.order)
        (highest-above os server base u.client_fds)
        (highest-inside os server base u.client_fds (omega (arith, v.above, v.inside))
          (λ i h. omega (arith, (v'.bound i h).0, v'.inside)))

  added-Good :
      (fd m : ℕ) (s : State os)
      → Good s
      → s.adding ≡ some fd
      → m < 1024
      → server ≤ m
      → ((i : ℕ) → has i (insert fd s.client_fds) ≡ true → i ≤ m)
      → Good (record s {
        max_fd = m;
        read_fds = update s.read_fds fd true;
        client_fds = insert fd s.client_fds;
        adding = none;
        overrun = s.overrun || leb fd_setsize fd;
      })
  added-Good fd m s v at small above large =
      let (client, fits) = v.new fd (ap (λ o. is_adding o fd) at ∙ ground arith) in
      record {
        order = insert-IsDescending fd s.client_fds v.order;
        reads = λ l i. ground (arith, has-insert i fd s.client_fds, v.reads l i);
        bound = λ i h. (
          large i h,
          elim (ℕ_discrete i fd) [
            | yes same ↦ ap base same ∙ client
            | no differ ↦ (v.bound i (ground (arith, has-insert i fd s.client_fds))).1
          ],
        );
        above = above;
        inside = small;
        fits = ground (arith, v.fits);
        no_leak = λ i o h. elim (ℕ_discrete i fd) [
          | yes same ↦ ground (arith, has-insert i fd s.client_fds)
          | no differ ↦ ground (
            arith,
            has-insert i fd s.client_fds,
            v.no_leak i o (ap (λ o. is_adding o i) at ∙ ground arith),
          )
        ];
        kept = v.kept;
        new = λ i h. absurd (cc);
        jobs = v.jobs;
        ready = v.ready;
      }

  by_highest :
      (fd : ℕ) (s : State os)
      → Good s
      → s.adding ≡ some fd
      → (highest os server (insert fd s.client_fds) < 1024)
        × (server ≤ highest os server (insert fd s.client_fds))
        × ((i : ℕ)
            → has i (insert fd s.client_fds) ≡ true
            → i ≤ highest os server (insert fd s.client_fds))
  by_highest fd s v at =
      let (client, fits) = v.new fd (ap (λ o. is_adding o fd) at ∙ ground arith) in
      (
        highest-inside os server base (insert fd s.client_fds) (omega (arith, v.above, v.inside))
            (λ i h. elim (ℕ_discrete i fd) [
              | yes same ↦ omega (arith, same, fits)
              | no differ ↦
                  omega
                    (arith, (v.bound i (ground (arith, has-insert i fd s.client_fds))).0, v.inside)
            ]),
        highest-above os server base (insert fd s.client_fds),
        highest-bound os server base (insert fd s.client_fds)
            (insert-IsDescending fd s.client_fds v.order),
      )

  -- The block after accept, with max_fd as each file sets it
  pub add_client-Good :
      (f : File) (fd : ℕ) (s : State os)
      → Good s
      → s.adding ≡ some fd
      → Good (add_client os server f fd s)
  unfolding add_client
  add_client-Good select_server fd s v at =
      let (a, b, c) = by_highest fd s v at in added-Good fd _ s v at a b c
  add_client-Good select_retype fd s v at =
      let (a, b, c) = by_highest fd s v at in added-Good fd _ s v at a b c
  add_client-Good select_thread fd s v at =
      let (a, b, c) = by_highest fd s v at in added-Good fd _ s v at a b c
  add_client-Good select_thread_pool fd s v at =
      let (client, fits) = v.new fd (ap (λ o. is_adding o fd) at ∙ ground arith) in
      added-Good fd (max s.max_fd fd) s v at (ground (arith, v.inside)) (ground (arith, v.above))
        (λ i h. elim (ℕ_discrete i fd) [
          | yes same ↦ ground arith
          | no differ ↦
              let old : i ≤ s.max_fd =
                (v.bound i (ground (arith, has-insert i fd s.client_fds))).0 in
              ground arith
        ])

  accepted-Good :
      (small : SmallDescriptors os) (s : State os)
      → Good s
      → s.adding ≡ none
      → (p : Option ℕ × os.World) → os.accept server s.world ≡ p
      → Good (record s { adding = p.0; world = p.1 })
  accepted-Good small s v idle (none, w) got =
      let keeps : (i : ℕ) → os.is_open w i ≡ os.is_open s.world i =
        λ i. doc.accept_none server i s.world w got in
      record {
        order = v.order;
        reads = v.reads;
        bound = v.bound;
        above = v.above;
        inside = v.inside;
        fits = v.fits;
        no_leak = λ i o h. v.no_leak i (sym (keeps i) ∙ o) (ap (λ o. is_adding o i) idle);
        kept = λ i h. keeps i ∙ v.kept i h;
        new = λ i h. absurd (cc);
        jobs = v.jobs;
        ready = v.ready;
      }
  accepted-Good small s v idle (some fd, w) got =
      let (closed, after) = doc.accept_fresh server fd s.world w got in
      record {
        order = v.order;
        reads = v.reads;
        bound = v.bound;
        above = v.above;
        inside = v.inside;
        fits = v.fits;
        no_leak = λ i o h. v.no_leak i (ground (arith, after i)) (ap (λ o. is_adding o i) idle);
        kept = λ i h. ground (arith, after i, v.kept i h);
        new = λ i h.
            let same : i ≡ fd = ground arith in
            (
              elim (Bool-cases (base i)) [
                | inl is_base ↦
                    absurd (ground (arith, v.kept i is_base, ap (os.is_open s.world) same))
                | inr client ↦ client
              ],
              omega (arith, same, small server fd s.world w got),
            );
        jobs = v.jobs;
        ready = v.ready;
      }

  pub accept_client-Good :
      (small : SmallDescriptors os) (s : State os)
      → Good s
      → s.adding ≡ none
      → Good (accept_client os server s)
  unfolding accept_client
  accept_client-Good small s v idle = accepted-Good small s v idle (os.accept server s.world) refl
