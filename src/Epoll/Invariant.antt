-- ===== src/Epoll/Invariant.antt =====
-- Which descriptors are open: those that were before the server had clients, and its clients, and no others.
use cpp_backend.Prelude.{
  ℕ, ◌≡◌, ◌≢◌, refl, sym, ap, subst, ◌∙◌, Bool, true, false, ◌||◌, Option, none, some, All,
  All-snoc, List, [], ◌∷◌, ◌++◌, ◌==◌, update, arith, Bool-cases, inl, inr,
}
use native.Mathlib.Decide.{ℕ_discrete}
use cpp_backend.Epoll.Os.{Event, Os, Documented}
use cpp_backend.Epoll.Machine.{
  Job, communicate, closing, reply, locked_reply, State, close_fd, accept_client, add_client,
}

abbrev pub fd_of : Job → ℕ
fd_of (communicate fd) = fd
fd_of (closing fd) = fd
fd_of (reply fd msg) = fd
fd_of (locked_reply fd msg) = fd

abbrev pub is_adding : Option ℕ → ℕ → Bool
is_adding none i = false
is_adding (some fd) i = i == fd

-- No job is about a descriptor of `base`.
abbrev pub AllClients : (ℕ → Bool) → List Job → Type 0
AllClients base js = All (λ j. base (fd_of j) ≡ false) js

-- An event is of the server, or not of `base`.
abbrev pub AllEvents : (ℕ → Bool) → ℕ → List Event → Type 0
AllEvents base server [] = Unit {0}
AllEvents base server (e ∷ es) = ((e.fd ≢ server → base e.fd ≡ false)) × AllEvents base server es

module _ (os : Os) (doc : Documented os) (server : ℕ) (base : ℕ → Bool) where
  -- `base` is what is open besides the clients. Of a client that is about to be added, which another thread may
  -- close, nothing is said but that it is not watched.
  pub record Inv (s : State os) : Type 0 where
    pub opened :
        (i : ℕ) → is_adding s.adding i ≡ false → os.is_open s.world i ≡ (base i || s.watched i)
    pub apart : (i : ℕ) → base i ≡ true → s.watched i ≡ false
    pub new : (i : ℕ) → is_adding s.adding i ≡ true → (base i ≡ false) × (s.watched i ≡ false)
    pub jobs : AllClients base s.jobs
    pub events : AllEvents base server s.batch

  pub Inv-world :
      (s : State os) (w : os.World)
      → Inv s
      → ((i : ℕ) → os.is_open w i ≡ os.is_open s.world i)
      → Inv (record s { world = w })
  Inv-world s w v keeps = record {
    opened = λ i h. keeps i ∙ v.opened i h;
    apart = v.apart;
    new = v.new;
    jobs = v.jobs;
    events = v.events;
  }

  -- errno says nothing about the descriptors.
  pub Inv-errno : (s : State os) (again : Bool) → Inv s → Inv (record s { errno_again = again })
  Inv-errno s again v = record {
    opened = v.opened;
    apart = v.apart;
    new = v.new;
    jobs = v.jobs;
    events = v.events;
  }

  pub Inv-looping : (s : State os) (b : Bool) → Inv s → Inv (record s { looping = b })
  Inv-looping s b v = record {
    opened = v.opened;
    apart = v.apart;
    new = v.new;
    jobs = v.jobs;
    events = v.events;
  }

  pub Inv-jobs :
      (s : State os) (js : List Job) → Inv s → AllClients base js → Inv (record s { jobs = js })
  Inv-jobs s js v all = record {
    opened = v.opened;
    apart = v.apart;
    new = v.new;
    jobs = all;
    events = v.events;
  }

  -- A new job for a client
  pub Inv-submit :
      (s : State os) (j : Job)
      → Inv s
      → base (fd_of j) ≡ false
      → Inv (record s { jobs = s.jobs ++ j ∷ [] })
  Inv-submit s j v h =
      Inv-jobs s (s.jobs ++ j ∷ []) v (All-snoc (λ j. base (fd_of j) ≡ false) s.jobs j v.jobs h)

  pub close_fd-Inv : (fd : ℕ) (s : State os) → Inv s → base fd ≡ false → Inv (close_fd os fd s)
  unfolding close_fd
  close_fd-Inv fd s v client = record {
    opened = λ i h. elim (ℕ_discrete i fd) [
      | yes same ↦
          subst (λ k. os.is_open (os.close fd s.world) k ≡ (base k || update s.watched fd false k))
            (sym same) (doc.close_gone fd s.world ∙ ground arith)
      | no differ ↦ doc.close_keeps fd i s.world differ ∙ ground (arith, v.opened i)
    ];
    apart = λ i h. ground (arith, v.apart i);
    new = λ i h. ground (arith, v.new i);
    jobs = v.jobs;
    events = v.events;
  }

  not_adding :
      (s : State os) (fd i : ℕ) → s.adding ≡ some fd → i ≢ fd → is_adding s.adding i ≡ false
  not_adding s fd i at differ = ap (λ o. is_adding o i) at ∙ ground arith

  added-Inv :
      (fd : ℕ) (s : State os)
      → Inv s
      → s.adding ≡ some fd
      → (os.add fd s.world).0 ≡ true
      → Inv (record s {
        watched = update s.watched fd true;
        adding = none;
        world = (os.add fd s.world).1;
      })
  added-Inv fd s v at ok =
      let (client, unwatched) = v.new fd (ap (λ o. is_adding o fd) at ∙ ground arith) in
      record {
        opened = λ i h. elim (ℕ_discrete i fd) [
          | yes same ↦
              subst
                (λ k. os.is_open (os.add fd s.world).1 k ≡ (base k || update s.watched fd true k))
                (sym same) (doc.add_keeps fd fd s.world ∙ doc.add_open fd s.world ok ∙ ground arith)
          | no differ ↦
              doc.add_keeps fd i s.world ∙ v.opened i (not_adding s fd i at differ) ∙ ground arith
        ];
        apart = λ i h. ground (arith, v.apart i);
        new = λ i h. absurd (cc);
        jobs = v.jobs;
        events = v.events;
      }

  refused-Inv :
      (fd : ℕ) (s : State os)
      → Inv s
      → s.adding ≡ some fd
      → Inv (record s { adding = none; world = os.close fd (os.add fd s.world).1 })
  refused-Inv fd s v at =
      let (client, unwatched) = v.new fd (ap (λ o. is_adding o fd) at ∙ ground arith) in
      let w : os.World = (os.add fd s.world).1 in
      record {
        opened = λ i h. elim (ℕ_discrete i fd) [
          | yes same ↦
              subst (λ k. os.is_open (os.close fd w) k ≡ (base k || s.watched k)) (sym same)
                (doc.close_gone fd w ∙ ground arith)
          | no differ ↦
              doc.close_keeps fd i w differ
              ∙ doc.add_keeps fd i s.world
              ∙ v.opened i (not_adding s fd i at differ)
        ];
        apart = v.apart;
        new = λ i h. absurd (cc);
        jobs = v.jobs;
        events = v.events;
      }

  -- The block of new_client that holds mtx, whether epoll_ctl succeeds or not.
  pub add_client-Inv :
      (fd : ℕ) (s : State os) → Inv s → s.adding ≡ some fd → Inv (add_client os fd s)
  unfolding add_client
  add_client-Inv fd s v at = elim (Bool-cases (os.add fd s.world).0) [
    | inl ok ↦ rw ok (added-Inv fd s v at ok)
    | inr bad ↦ rw bad (refused-Inv fd s v at)
  ]

  accepted-Inv :
      (s : State os)
      → Inv s
      → s.adding ≡ none
      → (p : Option ℕ × os.World) → os.accept server s.world ≡ p
      → Inv (record s { adding = p.0; world = p.1 })
  accepted-Inv s v idle (none, w) got = record {
    opened =
        λ i h. doc.accept_none server i s.world w got ∙ v.opened i (ap (λ o. is_adding o i) idle);
    apart = v.apart;
    new = λ i h. absurd (cc);
    jobs = v.jobs;
    events = v.events;
  }
  accepted-Inv s v idle (some fd, w) got =
      let (closed, after) = doc.accept_fresh server fd s.world w got in
      record {
        opened = λ i h. ground (arith, after i, v.opened i (ap (λ o. is_adding o i) idle));
        apart = v.apart;
        new = λ i h.
            let same : i ≡ fd = ground arith in
            let none_there : os.is_open s.world i ≡ false = ap (os.is_open s.world) same ∙ closed in
            ground (arith, v.opened i (ap (λ o. is_adding o i) idle));
        jobs = v.jobs;
        events = v.events;
      }

  pub accept_client-Inv : (s : State os) → Inv s → s.adding ≡ none → Inv (accept_client os server s)
  unfolding accept_client
  accept_client-Inv s v idle = accepted-Inv s v idle (os.accept server s.world) refl
