-- ===== src/SubReactors/Invariant.antt =====
-- The connections of all sub-reactors: a new one, and one that is deleted.
use cpp_backend.Prelude.{
  ℕ, ◌<◌, ◌≡◌, ◌≢◌, sym, ap, ◌∙◌, true, false, ◌&&◌, some, some_inj, ◌==◌, arith, Bool-cases, inl,
  inr,
}
use native.Mathlib.Decide.{ℕ_discrete}
use cpp_backend.Reactor.Os.{connection, Os, mentions, Distinct, Documented}
use cpp_backend.SubReactors.Machine.{Connection, State, new_connection, delete_connection}

module _ (os : Os) (doc : Documented os) (listenfd : ℕ) where
  -- The connections that are alive are those that epoll_ctl was told of, each by its own sub-reactor; their descriptors are open,
  -- and no two have the same; what a sub-reactor has still to handle is of its connections, each once.
  pub record Inv (s : State os) : Type 0 where
    pub told :
        (c : ℕ) (conn : Connection)
        → s.connections c ≡ some conn
        → (s.interest conn.epoll conn.fd ≡ some (connection c))
          × (os.is_open s.world conn.fd ≡ true)
          × (c < s.next)
    pub alive :
        (k fd c : ℕ)
        → s.interest k fd ≡ some (connection c)
        → s.connections c ≡ some (record { fd = fd; epoll = k })
    pub alone :
        (c d : ℕ) (a b : Connection)
        → s.connections c ≡ some a
        → s.connections d ≡ some b
        → a.fd ≡ b.fd
        → c ≡ d
    pub waiting :
        (k c : ℕ)
        → mentions c (s.batch k) ≡ true
        → (fd : ℕ) × (s.connections c ≡ some (record { fd = fd; epoll = k }))
    pub once : (k : ℕ) → Distinct (s.batch k)

  pub Inv-world :
      (s : State os) (w : os.World)
      → Inv s
      → ((i : ℕ) → os.is_open s.world i ≡ true → os.is_open w i ≡ true)
      → Inv (record s { world = w })
  Inv-world s w v keeps = record {
    told = λ c conn h. let (a, b, d) = v.told c conn h in (a, keeps conn.fd b, d);
    alive = v.alive;
    alone = v.alone;
    waiting = v.waiting;
    once = v.once;
  }

  pub delete_connection-Inv :
      (c : ℕ) (conn : Connection) (s : State os)
      → Inv s
      → s.connections c ≡ some conn
      → ((k : ℕ) → mentions c (s.batch k) ≡ false)
      → Inv (delete_connection os listenfd c conn s)
  unfolding delete_connection
  delete_connection-Inv c conn s v here last = record {
    told = λ d other h. elim (ℕ_discrete d c) [
      | yes same ↦ absurd (ground arith)
      | no differ ↦
          let there : s.connections d ≡ some other = ground arith in
          let (a, b, e) = v.told d other there in
          let apart : other.fd ≢ conn.fd =
            λ same. differ (v.alone d c other conn there here same) in
          (ground (arith, a), doc.close_keeps conn.fd other.fd s.world apart ∙ b, e)
    ];
    alive = λ k fd d h.
        let living : s.connections d ≡ some (record { fd = fd; epoll = k }) =
          v.alive k fd d (ground arith) in
        let other : c ≢ d = λ same.
          let own : conn ≡ record { fd = fd; epoll = k } =
            some_inj (sym here ∙ ap s.connections same ∙ living) in
          absurd (ground (arith, ap (λ a. a.fd) own, ap (λ a. a.epoll) own)) in
        ground (arith, living);
    alone = λ d e a b x y same. v.alone d e a b (ground arith) (ground arith) same;
    waiting = λ k d h. elim (ℕ_discrete d c) [
      | yes same ↦ absurd (ground (arith, last k, ap (λ d. mentions d (s.batch k)) same))
      | no differ ↦ let (fd, there) = v.waiting k d h in (fd, ground (arith, there))
    ];
    once = v.once;
  }

  pub new_connection-Inv :
      (k fd : ℕ) (s : State os)
      → Inv s
      → os.is_open s.world fd ≡ true
      → ((c : ℕ) (conn : Connection) → s.connections c ≡ some conn → conn.fd ≢ fd)
      → Inv (new_connection os listenfd k fd s)
  unfolding new_connection
  new_connection-Inv k fd s v opened unused =
      let new : (c : ℕ) (conn : Connection) → s.connections c ≡ some conn → s.next ≢ c =
        λ c conn h same. let (a, b, older) = v.told c conn h in omega arith in
      record {
        told = λ c conn h. elim (ℕ_discrete s.next c) [
          | yes same ↦
              let own : record { fd = fd; epoll = k } ≡ conn = ground arith in
              (
                ground (arith, ap (λ a. a.fd) own, ap (λ a. a.epoll) own),
                ap (λ a. os.is_open s.world a.fd) (sym own) ∙ opened,
                omega arith,
              )
          | no differ ↦
              let there : s.connections c ≡ some conn = ground arith in
              let (a, b, e) = v.told c conn there in
              let apart : conn.fd ≢ fd = unused c conn there in (ground (arith, a), b, omega arith)
        ];
        alive = λ i j c h. elim (Bool-cases (k == i && fd == j)) [
          | inl here ↦ ground arith
          | inr other ↦
              let living : s.connections c ≡ some (record { fd = j; epoll = i }) =
                v.alive i j c (ground arith) in
              let older : s.next ≢ c = new c (record { fd = j; epoll = i }) living in
              ground (arith, living)
        ];
        alone = λ c d a b x y same. elim (ℕ_discrete s.next c) [
          | yes is_c ↦ elim (ℕ_discrete s.next d) [
            | yes is_d ↦ sym is_c ∙ is_d
            | no old_d ↦
                let own : record { fd = fd; epoll = k } ≡ a = ground arith in
                absurd (unused d b (ground arith) (sym same ∙ ap (λ a. a.fd) (sym own)))
          ]
          | no old_c ↦ elim (ℕ_discrete s.next d) [
            | yes is_d ↦
                let own : record { fd = fd; epoll = k } ≡ b = ground arith in
                absurd (unused c a (ground arith) (same ∙ ap (λ a. a.fd) (sym own)))
            | no old_d ↦ v.alone c d a b (ground arith) (ground arith) same
          ]
        ];
        waiting = λ i c h.
            let (j, living) = v.waiting i c h in
            let older : s.next ≢ c = new c (record { fd = j; epoll = i }) living in
            (j, ground (arith, living));
        once = v.once;
      }
