-- ===== src/Reactor/Safety.antt =====
-- The event loop of reactor_server.cpp never uses a Connection that was deleted.
use cpp_backend.Prelude.{
  ℕ, zero, suc, ◌≤◌, ◌≡◌, ◌≢◌, refl, sym, ap, subst, ◌∙◌, Bool, true, false, Option, none, some,
  List, [], ◌∷◌, ◌++◌, ◌==◌, arith, Bool-cases, inl, inr,
}
use native.Mathlib.Decide.{ℕ_discrete}
use cpp_backend.Reactor.Os.{
  Channel, acceptor, connection, Event, Os, Documented, mentions, Distinct, is_connection,
}
use cpp_backend.Reactor.Server

module _ (os : Os) (doc : Documented os) where
  -- The living connections are those that epoll watches, each by its own descriptor, which is open.
  pub record Inv (s : Server.State os) : Type 0 where
    pub watched :
        (c fd : ℕ)
        → s.connections c ≡ some fd
        → (s.interest fd ≡ some (connection c)) × (os.is_open s.world fd ≡ true)
    pub alive : (c fd : ℕ) → s.interest fd ≡ some (connection c) → s.connections c ≡ some fd
    pub listening : (s.interest s.listenfd ≡ some acceptor) × (os.is_open s.world s.listenfd ≡ true)
    pub fresh : (c : ℕ) → s.next ≤ c → s.connections c ≡ none

  Inv-world :
      (s : Server.State os) (w : os.World)
      → Inv s
      → ((i : ℕ) → os.is_open s.world i ≡ true → os.is_open w i ≡ true)
      → Inv (record s { world = w })
  Inv-world s w v keeps = record {
    watched = λ c fd h. let (a, b) = v.watched c fd h in (a, keeps fd b);
    alive = v.alive;
    listening = let (a, b) = v.listening in (a, keeps s.listenfd b);
    fresh = v.fresh;
  }

  new_connection-Inv :
      (fd : ℕ) (s : Server.State os)
      → Inv s
      → os.is_open s.world fd ≡ true
      → ((c : ℕ) → s.connections c ≢ some fd)
      → fd ≢ s.listenfd
      → Inv (Server.new_connection os fd s)
  unfolding Server.new_connection
  new_connection-Inv fd s v opened unused other = record {
    watched = λ c i h. elim (ℕ_discrete s.next c) [
      | yes same ↦ (ground arith, ground arith)
      | no differ ↦
          let (a, b) = v.watched c i (ground arith) in
          let apart : fd ≢ i = λ is. unused c (ground arith) in (ground arith, b)
    ];
    alive = λ c i h. elim (ℕ_discrete fd i) [
      | yes same ↦ ground arith
      | no differ ↦
          let before : s.connections c ≡ some i = v.alive c i (ground arith) in
          let older : s.next ≢ c = λ is. absurd (ground (arith, v.fresh c)) in ground arith
    ];
    listening = let (a, b) = v.listening in (ground arith, b);
    fresh = λ c h. ground (arith, v.fresh c);
  }

  -- Every connection is still alive, but perhaps the one at this address.
  abbrev Spares : (ℕ → Bool) → Server.State os → Server.State os → Type 0
  Spares touched s t =
      (d fd : ℕ) → touched d ≡ false → s.connections d ≡ some fd → t.connections d ≡ some fd

  -- A connection that epoll no longer watches, and that was deleted.
  deleted-Inv :
      (c fd : ℕ) (s : Server.State os)
      → Inv s
      → s.connections c ≡ some fd
      → Inv (Server.delete_connection os c fd (Server.remove_channel os fd s))
  unfolding Server.delete_connection
  deleted-Inv c fd s v here =
      let (is, opened) = v.watched c fd here in
      record {
        watched = λ d i h.
            let (a, b) = v.watched d i (ground arith) in
            let apart : i ≢ fd = λ same. absurd (ground arith) in
            (ground arith, doc.close_keeps fd i s.world apart ∙ b);
        alive = λ d i h.
            let before : s.connections d ≡ some i = v.alive d i (ground arith) in
            let apart : c ≢ d = λ same. absurd (ground arith) in ground arith;
        listening =
            let (a, b) = v.listening in
            let apart : s.listenfd ≢ fd = λ same. absurd (ground arith) in
            (ground arith, doc.close_keeps fd s.listenfd s.world apart ∙ b);
        fresh = λ d h. ground (arith, v.fresh d);
      }

  submitted-Inv :
      (ts : List Server.SendTask) (s : Server.State os) → Inv s → Inv (record s { submitted = ts })
  submitted-Inv ts s v = record {
    watched = v.watched;
    alive = v.alive;
    listening = v.listening;
    fresh = v.fresh;
  }

  deleted-Spares :
      (c fd : ℕ) (s : Server.State os)
      → Spares (λ d. d == c) s (Server.delete_connection os c fd (Server.remove_channel os fd s))
  unfolding Server.delete_connection
  deleted-Spares c fd s d i apart h = ground arith

  new_connection-Spares :
      (fd : ℕ) (s : Server.State os) → Inv s → Spares (λ _. false) s (Server.new_connection os fd s)
  unfolding Server.new_connection
  new_connection-Spares fd s v d i apart h = ground (arith, v.fresh d)

  -- read_from of a living connection: it goes, or another task is submitted.
  by_message :
      (c fd : ℕ) (s : Server.State os)
      → Inv s
      → s.connections c ≡ some fd
      → (p : List ℕ × os.World) → os.recv fd 1024 s.world ≡ p
      → (t : Server.State os) × (Server.handle_read os c s ≡ some t)
        × Inv t
        × Spares (λ d. d == c) s t
  unfolding Server.handle_read Server.read_from
  by_message c fd s v here ([], w) got =
      let u : Server.State os = record s { world = w } in
      let v' : Inv u =
        Inv-world s w v
          (λ i o. ap (λ p. os.is_open p.1 i) (sym got) ∙ doc.recv_keeps fd 1024 i s.world o) in
      (
        Server.delete_connection os c fd (Server.remove_channel os fd u),
        ground arith,
        deleted-Inv c fd u v' here,
        λ d i apart h. deleted-Spares c fd u d i apart h,
      )
  by_message c fd s v here (b ∷ bs, w) got =
      let u : Server.State os = record s { world = w } in
      let v' : Inv u =
        Inv-world s w v
          (λ i o. ap (λ p. os.is_open p.1 i) (sym got) ∙ doc.recv_keeps fd 1024 i s.world o) in
      let ts : List Server.SendTask = s.submitted ++ record { fd = fd; msg = b ∷ bs } ∷ [] in
      (record u { submitted = ts }, ground arith, submitted-Inv ts u v', λ d i apart h. h)

  -- The state before and after handle_accept.
  abbrev Accepts : Server.State os → Server.State os → Type 0
  Accepts s t = Inv t × Spares (λ _. false) s t

  by_accept :
      (clients : ℕ) (s : Server.State os)
      → Inv s
      → (p : Option ℕ × os.World) → os.accept s.listenfd s.world ≡ p
      → ((u : Server.State os) → Inv u → Accepts u (Server.handle_accept os clients u))
      → Accepts s (Server.handle_accept os (suc clients) s)
  unfolding Server.handle_accept
  by_accept clients s v (none, w) got rest =
      let e : Server.handle_accept os (suc clients) s ≡ record s { world = w } = ground arith in
      subst (Accepts s) (sym e) (
        Inv-world s w v
            (λ i o. ap (λ p. os.is_open p.1 i) (sym got) ∙ doc.accept_keeps s.listenfd i s.world o),
        λ d i apart h. h,
      )
  by_accept clients s v (some fd, w) got rest =
      let (new, opened) = doc.accept_fresh s.listenfd fd s.world w got in
      let u : Server.State os = record s { world = w } in
      let v' : Inv u =
        Inv-world s w v
          (λ i o. ap (λ p. os.is_open p.1 i) (sym got) ∙ doc.accept_keeps s.listenfd i s.world o) in
      let unused : (c : ℕ) → s.connections c ≢ some fd =
        λ c h. absurd (ground (arith, v.watched c fd h)) in
      let apart : fd ≢ s.listenfd = λ same. absurd (ground (arith, v.listening)) in
      let (v'', spared) =
        rest (Server.new_connection os fd u) (new_connection-Inv fd u v' opened unused apart) in
      let e : Server.handle_accept os (suc clients) s
          ≡ Server.handle_accept os clients (Server.new_connection os fd u) =
        ground arith in
      subst (Accepts s) (sym e)
        (v'', λ d i _ h. spared d i refl (new_connection-Spares fd u v' d i refl h))

  handle_accept-Inv :
      (clients : ℕ) (s : Server.State os) → Inv s → Accepts s (Server.handle_accept os clients s)
  unfolding Server.handle_accept
  handle_accept-Inv zero s v = (v, λ d i apart h. h)
  handle_accept-Inv (suc clients) s v =
      by_accept clients s v (os.accept s.listenfd s.world) refl (handle_accept-Inv clients)

  -- What an event does, whose connection is alive.
  abbrev Handles : Option (Server.State os) → Event → Server.State os → Type 0
  Handles o e s =
      (t : Server.State os) × (o ≡ some t) × Inv t × Spares (λ d. is_connection d e.ch) s t

  by_channel :
      (clients : ℕ) (ch : Channel) (readable : Bool) (s : Server.State os)
      → Inv s
      → ((c : ℕ) → is_connection c ch ≡ true → (fd : ℕ) × (s.connections c ≡ some fd))
      → Handles
          (Server.handle os clients (record { ch = ch; readable = readable }) s)
          (record { ch = ch; readable = readable })
          s
  unfolding Server.handle
  by_channel clients acceptor true s v living =
      let (v', spared) = handle_accept-Inv clients s v in
      (Server.handle_accept os clients s, refl, v', λ d i apart h. spared d i refl h)
  by_channel clients acceptor false s v living = (s, refl, v, λ d i apart h. h)
  by_channel clients (connection c) true s v living =
      let (fd, here) = living c (ground arith) in
      let (t, e, v', spared) = by_message c fd s v here (os.recv fd 1024 s.world) refl in
      (t, ground (arith, here, e), v', spared)
  by_channel clients (connection c) false s v living =
      let (fd, here) = living c (ground arith) in (s, ground (arith, here), v, λ d i apart h. h)

  handle_all-Inv :
      (clients : ℕ) (es : List Event) (s : Server.State os)
      → Inv s
      → Distinct es
      → ((c : ℕ) → mentions c es ≡ true → (fd : ℕ) × (s.connections c ≡ some fd))
      → (t : Server.State os) × (Server.handle_all os clients es s ≡ some t) × Inv t
  unfolding Server.handle_all
  handle_all-Inv clients [] s v once living = (s, refl, v)
  handle_all-Inv clients (e ∷ es) s v (apart, once) living =
      let (t, runs, v', spared) =
        by_channel clients e.ch e.readable s v (λ c h. living c (ground arith)) in
      let (u, runs', v'') = handle_all-Inv clients es t v' once (λ c h.
        let (fd, here) = living c (ground arith) in (fd, spared c fd (other c (apart c) h) here)) in
      (u, ground (arith, runs, runs'), v'')
    where
      other :
          (c : ℕ)
          → (is_connection c e.ch ≡ true → mentions c es ≡ false)
          → mentions c es ≡ true
          → is_connection c e.ch ≡ false
      other c apart h = elim (Bool-cases (is_connection c e.ch)) [
        | inl same ↦ absurd (ground (arith, apart same))
        | inr differ ↦ differ
      ]

  -- A round of the event loop, whatever its calls give, uses no connection that was deleted, and keeps the
  -- invariant.
  pub loop_round-Inv :
      (clients : ℕ) (s : Server.State os)
      → Inv s
      → (t : Server.State os) × (Server.loop_round os clients s ≡ some t) × Inv t
  unfolding Server.loop_round
  loop_round-Inv clients s v =
      let r : List Event × os.World = os.epoll_wait s.interest s.world in
      let v' : Inv (record s { world = r.1 }) =
        Inv-world s r.1 v (λ i o. doc.wait_keeps s.interest i s.world o) in
      handle_all-Inv clients r.0 (record s { world = r.1 }) v'
        (doc.wait_once s.interest r.0 s.world r.1 refl)
        (λ c h.
          let (fd, is) = doc.wait_added s.interest r.0 s.world r.1 refl c h in
          (fd, v.alive c fd is))

  -- If the operating system behaves as documented, then from a state that satisfies the invariant, the event loop
  -- runs for any number of rounds without a use of a connection that was deleted, and ends in such a state: the
  -- connections that are alive are those that epoll watches, each under its own descriptor, and these and the
  -- listening socket are open.
  pub loop-safe :
      (clients rounds : ℕ) (s : Server.State os)
      → Inv s
      → (t : Server.State os) × (Server.loop os clients rounds s ≡ some t) × Inv t
  unfolding Server.loop
  loop-safe clients zero s v = (s, refl, v)
  loop-safe clients (suc rounds) s v =
      let (t, e, v') = loop_round-Inv clients s v in
      let (u, e', v'') = loop-safe clients rounds t v' in (u, rw e e', v'')

  pub start-Inv : (fd : ℕ) (w : os.World) → os.is_open w fd ≡ true → Inv (Server.start os fd w)
  start-Inv fd w opened = record {
    watched = λ c i h. absurd (cc);
    alive = λ c i h. absurd (ground arith);
    listening = (ground arith, opened);
    fresh = λ c h. refl;
  }
