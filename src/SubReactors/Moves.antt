-- ===== src/SubReactors/Moves.antt =====
-- What HandleAccept and HandleRead do keeps the invariant of the connections.
use cpp_backend.Prelude.{
  ℕ, ◌≡◌, ◌≢◌, refl, sym, ap, subst, ◌∙◌, true, false, Option, none, some, List, [], ◌∷◌, ◌++◌,
  update, arith,
}
use native.Mathlib.Decide.{ℕ_discrete}
use cpp_backend.Reactor.Os.{Event, Os, mentions, Distinct, Documented}
use cpp_backend.Reactor.Server.{SendTask}
use cpp_backend.SubReactors.{ReactorThreadPool, get_next_sub_reactor}
use cpp_backend.SubReactors.Invariant.{Inv, Inv-world, delete_connection-Inv, new_connection-Inv}
use cpp_backend.SubReactors.Machine.{
  Connection, State, new_connection, dispatch, handle_accept, delete_connection, handle_read,
}

module _ (os : Os) (doc : Documented os) (listenfd : ℕ) where
  dispatch-Inv :
      (fd : ℕ) (s : State os)
      → Inv os doc listenfd s
      → os.is_open s.world fd ≡ true
      → ((c : ℕ) (conn : Connection) → s.connections c ≡ some conn → conn.fd ≢ fd)
      → Inv os doc listenfd (dispatch os listenfd fd s)
  unfolding dispatch
  dispatch-Inv fd s v opened unused = by_reactor (get_next_sub_reactor s.pool) refl
    where
      by_reactor :
          (p : Option ℕ × ReactorThreadPool)
          → get_next_sub_reactor s.pool ≡ p
          → Inv os doc listenfd (dispatch os listenfd fd s)
      by_reactor (none, pool) got =
          let e : dispatch os listenfd fd s
              ≡ record s { pool = pool; world = os.close fd s.world } =
            ground arith in
          subst (Inv os doc listenfd) (sym e) (record {
            told = λ c conn h.
                let (a, b, d) = v.told c conn h in
                (a, doc.close_keeps fd conn.fd s.world (unused c conn h) ∙ b, d);
            alive = v.alive;
            alone = v.alone;
            waiting = v.waiting;
            once = v.once;
          })
      by_reactor (some k, pool) got =
          let u : State os = record s { pool = pool } in
          let e : dispatch os listenfd fd s ≡ new_connection os listenfd k fd u = ground arith in
          let v' : Inv os doc listenfd u = record {
            told = v.told;
            alive = v.alive;
            alone = v.alone;
            waiting = v.waiting;
            once = v.once;
          } in
          subst (Inv os doc listenfd) (sym e)
            (new_connection-Inv os doc listenfd k fd u v' opened unused)

  pub accept_by :
      (s : State os) (p : Option ℕ × os.World)
      → os.accept listenfd s.world ≡ p
      → Inv os doc listenfd s
      → Inv os doc listenfd (handle_accept os listenfd s)
  unfolding handle_accept
  accept_by s (none, w) got v =
      let e : handle_accept os listenfd s ≡ record s { world = w } = ground arith in
      subst (Inv os doc listenfd) (sym e) (
        Inv-world os doc listenfd s w v
          (λ i o. ap (λ p. os.is_open p.1 i) (sym got) ∙ doc.accept_keeps listenfd i s.world o))
  accept_by s (some fd, w) got v =
      let (new, opened) = doc.accept_fresh listenfd fd s.world w got in
      let u : State os = record s { world = w } in
      let e : handle_accept os listenfd s ≡ dispatch os listenfd fd u = ground arith in
      let v' : Inv os doc listenfd u =
        Inv-world os doc listenfd s w v
          (λ i o. ap (λ p. os.is_open p.1 i) (sym got) ∙ doc.accept_keeps listenfd i s.world o) in
      subst (Inv os doc listenfd) (sym e) (
        dispatch-Inv fd u v' opened (λ c conn h same.
          let (a, b, older) = v.told c conn h in
          absurd (ground (arith, ap (os.is_open s.world) same))))

  pub read_by :
      (c : ℕ) (conn : Connection) (s : State os) (p : List ℕ × os.World)
      → os.recv conn.fd 1024 s.world ≡ p
      → Inv os doc listenfd s
      → s.connections c ≡ some conn
      → ((k : ℕ) → mentions c (s.batch k) ≡ false)
      → Inv os doc listenfd (handle_read os listenfd c conn s)
  unfolding handle_read
  read_by c conn s ([], w) got v here last =
      let u : State os = record s { world = w } in
      let e : handle_read os listenfd c conn s ≡ delete_connection os listenfd c conn u =
        ground arith in
      let v' : Inv os doc listenfd u =
        Inv-world os doc listenfd s w v
          (λ i o. ap (λ p. os.is_open p.1 i) (sym got) ∙ doc.recv_keeps conn.fd 1024 i s.world o) in
      subst (Inv os doc listenfd) (sym e)
        (delete_connection-Inv os doc listenfd c conn u v' here last)
  read_by c conn s (b ∷ bs, w) got v here last =
      let task : SendTask = record { fd = conn.fd; msg = b ∷ bs } in
      let e : handle_read os listenfd c conn s
          ≡ record s { world = w; submitted = s.submitted ++ task ∷ [] } =
        ground arith in
      let v' : Inv os doc listenfd (record s { world = w }) =
        Inv-world os doc listenfd s w v
          (λ i o. ap (λ p. os.is_open p.1 i) (sym got) ∙ doc.recv_keeps conn.fd 1024 i s.world o) in
      subst (Inv os doc listenfd) (sym e) (record {
        told = v'.told;
        alive = v.alive;
        alone = v.alone;
        waiting = v.waiting;
        once = v.once;
      })

  -- The next event is taken from the batch of the k-th sub-reactor.
  pub taken-Inv :
      (k : ℕ) (e : Event) (es : List Event) (s : State os)
      → Inv os doc listenfd s
      → s.batch k ≡ e ∷ es
      → Inv os doc listenfd (record s { batch = update s.batch k es })
  taken-Inv k e es s v has = record {
    told = v.told;
    alive = v.alive;
    alone = v.alone;
    waiting = λ i c h. elim (ℕ_discrete k i) [
      | yes same ↦
          v.waiting i c
            (ap (λ j. mentions c (s.batch j)) (sym same) ∙ ap (mentions c) has ∙ ground arith)
      | no differ ↦ v.waiting i c (ground arith)
    ];
    once = λ i. elim (ℕ_discrete k i) [
      | yes same ↦
          let all : Distinct (e ∷ es) = subst Distinct has (v.once k) in
          let is : es ≡ update s.batch k es i = ground arith in subst Distinct is all.1
      | no differ ↦
          let is : s.batch i ≡ update s.batch k es i = ground arith in subst Distinct is (v.once i)
    ];
  }
