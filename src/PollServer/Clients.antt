-- ===== src/PollServer/Clients.antt =====
-- new_client and client_communicate of pollserver.cpp keep the invariant of the table, and stay inside of it.
use cpp_backend.Prelude.{
  ℕ, ◌+◌, ◌<◌, ◌≤◌, ◌≡◌, ◌≢◌, refl, sym, ap, subst, ◌∙◌, true, Option, none, some, List, [], ◌∷◌,
  ◌++◌, leb, update, inl, inr, arith, Bool-cases,
}
use native.Mathlib.Decide.{ℕ_discrete}
use cpp_backend.Texts.{c_str, greeting}
use cpp_backend.PollServer.Os.{Os, Documented}
use cpp_backend.PollServer.Server
use cpp_backend.DescendingSet.{
  has, has-insert, insert-IsDescending, has-erase, erase-IsDescending, insert, erase,
}
use cpp_backend.PollServer.Table.{Inv, Near, Inv-Near, set_max-Inv, set_max-server, set_max-size}

module _ (os : Os) (doc : Documented os) where
  -- The operation does not fault, the invariant holds after it, and the table does not shrink.
  abbrev pub Keeps : Option (Server.State os) → Server.State os → Type 0
  Keeps o s =
      (t : Server.State os) × (o ≡ some t)
      × Inv os t
      × (t.server_fd ≡ s.server_fd)
      × (s.size ≤ t.size)

  -- The world moved on, and every open descriptor is still open.
  pub Inv-world :
      (s : Server.State os) (w : os.World)
      → Inv os s
      → ((i : ℕ) → os.is_open s.world i ≡ true → os.is_open w i ≡ true)
      → Inv os (record s { world = w })
  Inv-world s w v keeps = record {
    watched = λ i h. let (a, b, c, d, e) = v.watched i h in (a, b, keeps i c, d, e);
    listening = let (a, b, c, d) = v.listening in (a, b, keeps s.server_fd c, d);
    asked = v.asked;
    ready = v.ready;
    bound = v.bound;
    order = v.order;
  }

  resize-Near :
      (n : ℕ) (s : Server.State os) → s.size ≤ n → Near os s → Near os (Server.resize os n s)
  resize-Near n s larger v = record {
    watched = λ i h.
        let (a, b, c, d, e) = v.watched i h in (ground arith, ground arith, c, ground arith, e);
    listening = let (a, b, c, d) = v.listening in (ground arith, ground arith, c, ground arith);
    asked = λ i h. v.asked i (ground arith);
    ready = λ i h. ground (arith, v.ready i);
    order = v.order;
  }

  -- fds[fd] = {fd, POLLIN, 0} and client_fds.insert(fd), inside of the table.
  added : ℕ → Server.State os → Server.State os
  added fd s = record s {
    fds = update s.fds fd (Server.watching fd);
    client_fds = insert fd s.client_fds;
  }

  added-Near :
      (fd : ℕ) (s : Server.State os)
      → Near os s
      → fd < s.size
      → os.is_open s.world fd ≡ true
      → fd ≢ s.server_fd
      → Near os (added fd s)
  unfolding added
  added-Near fd s v inside opened other = record {
    watched = λ i h. elim (ℕ_discrete fd i) [
      | yes same ↦
          subst
            (λ i.
              ((added fd s).fds i).fd ≡ some i
              × ((added fd s).fds i).events ≡ true
              × (os.is_open s.world i ≡ true)
              × (i < s.size)
              × (i ≢ s.server_fd))
            same (ground arith, ground arith, opened, inside, other)
      | no differ ↦
          let (a, b, c, d, e) = v.watched i (ground (arith, has-insert i fd s.client_fds)) in
          (ground arith, ground arith, c, d, e)
    ];
    listening = let (a, b, c, d) = v.listening in (ground arith, ground arith, c, d);
    asked = λ i h. elim (ℕ_discrete fd i) [
      | yes same ↦ inr (ground (arith, has-insert i fd s.client_fds))
      | no differ ↦ elim (v.asked i (ground arith)) [
        | inl server ↦ inl server
        | inr client ↦ inr (ground (arith, has-insert i fd s.client_fds))
      ]
    ];
    ready = λ i h. ground (arith, v.ready i);
    order = insert-IsDescending fd s.client_fds v.order;
  }

  pub add_client-Keeps :
      (fd : ℕ) (s : Server.State os)
      → Inv os s
      → os.is_open s.world fd ≡ true
      → fd ≢ s.server_fd
      → Keeps (Server.add_client os fd s) s
  unfolding Server.add_client Server.set_max added Server.set_at
  add_client-Keeps fd s v opened other = elim (Bool-cases (leb s.size fd)) [
    | inl outside ↦
        let u : Server.State os = Server.resize os (fd + 1) s in
        let n : Near os u = resize-Near (fd + 1) s (ground arith) (Inv-Near os s v) in
        (
          Server.set_max os (added fd u),
          ground arith,
          set_max-Inv os (added fd u) (added-Near fd u n (omega arith) opened other),
          refl,
          ground arith,
        )
    | inr inside ↦ (
      Server.set_max os (added fd s),
      ground arith,
      set_max-Inv os (added fd s) (added-Near fd s (Inv-Near os s v) (ground arith) opened other),
      refl,
      omega arith,
    )
  ]

  -- fds[fd] = {-1, 0, 0}, close(fd) and client_fds.erase(fd)
  dropped : ℕ → Server.State os → Server.State os
  dropped fd s = record s {
    fds = update s.fds fd Server.unused;
    client_fds = erase fd s.client_fds;
    world = os.close fd s.world;
  }

  dropped-Inv :
      (fd : ℕ) (s : Server.State os) → Inv os s → has fd s.client_fds ≡ true → Inv os (dropped fd s)
  unfolding dropped
  dropped-Inv fd s v client =
      let (_, _, _, _, other) = v.watched fd client in
      record {
        watched = λ i h.
            let differ : i ≢ fd = λ same. ground (arith, has-erase i fd s.client_fds v.order) in
            let (a, b, c, d, e) =
              v.watched i (ground (arith, has-erase i fd s.client_fds v.order)) in
            (ground arith, ground arith, doc.close_keeps fd i s.world differ ∙ c, d, e);
        listening =
            let (a, b, c, d) = v.listening in
            (
              ground arith,
              ground arith,
              doc.close_keeps fd s.server_fd s.world (λ same. other (sym same)) ∙ c,
              d,
            );
        asked = λ i h. elim (ℕ_discrete fd i) [
          | yes same ↦ absurd (ground arith)
          | no differ ↦ elim (v.asked i (ground arith)) [
            | inl server ↦ inl server
            | inr has_it ↦ inr (ground (arith, has-erase i fd s.client_fds v.order))
          ]
        ];
        ready = λ i h. ground (arith, v.ready i);
        bound = v.bound;
        order = erase-IsDescending fd s.client_fds v.order;
      }

  drop_client-is :
      (fd : ℕ) (s : Server.State os)
      → Inv os s
      → has fd s.client_fds ≡ true
      → Server.drop_client os fd s ≡ some (dropped fd s)
  unfolding Server.drop_client dropped Server.set_at
  drop_client-is fd s v client =
      let (_, _, _, low, _) = v.watched fd client in ground (arith, v.bound)

  dropped-server : (fd : ℕ) (s : Server.State os) → (dropped fd s).server_fd ≡ s.server_fd
  unfolding dropped
  dropped-server fd s = refl

  dropped-size : (fd : ℕ) (s : Server.State os) → (dropped fd s).size ≡ s.size
  unfolding dropped
  dropped-size fd s = refl

  by_message :
      (fd : ℕ) (s : Server.State os)
      → Inv os s
      → has fd s.client_fds ≡ true
      → Server.running os s ≡ true
      → (p : List ℕ × os.World) → os.recv fd 1023 s.world ≡ p
      → Keeps (Server.client_communicate os fd s) s
  unfolding Server.client_communicate
  by_message fd s v client runs ([], w) got =
      let u : Server.State os = record s { world = w } in
      let v' : Inv os u =
        Inv-world s w v
          (λ i o. ap (λ p. os.is_open p.1 i) (sym got) ∙ doc.recv_keeps fd 1023 i s.world o) in
      let t : Server.State os = dropped fd u in
      (
        Server.set_max os t,
        ground (arith, drop_client-is fd u v' client),
        set_max-Inv os t (Inv-Near os t (dropped-Inv fd u v' client)),
        set_max-server os t ∙ dropped-server fd u,
        rw (set_max-size os t, dropped-size fd u) (omega arith),
      )
  by_message fd s v client runs (b ∷ bs, w) got =
      let w' : os.World = os.send fd (greeting ++ c_str (b ∷ bs)) w in
      (
        record s { world = w' },
        ground arith,
        Inv-world s w' v (λ i o.
            doc.send_keeps fd i _ w
              (ap (λ p. os.is_open p.1 i) (sym got) ∙ doc.recv_keeps fd 1023 i s.world o)),
        refl,
        omega arith,
      )

  by_accept :
      (s : Server.State os)
      → Inv os s
      → (p : Option ℕ × os.World) → os.accept s.server_fd s.world ≡ p
      → Keeps (Server.new_client os s) s
  unfolding Server.new_client
  by_accept s v (none, w) got = (
    record s { world = w },
    ground arith,
    Inv-world s w v
        (λ i o. ap (λ p. os.is_open p.1 i) (sym got) ∙ doc.accept_keeps s.server_fd i s.world o),
    refl,
    omega arith,
  )
  by_accept s v (some fd, w) got =
      let (new, opened) = doc.accept_fresh s.server_fd fd s.world w got in
      let (_, _, open_server, _) = v.listening in
      let u : Server.State os = record s { world = w } in
      let v' : Inv os u =
        Inv-world s w v (λ i o.
          ap (λ p. os.is_open p.1 i) (sym got) ∙ doc.accept_keeps s.server_fd i s.world o) in
      let (t, e, v'', same, grows) = add_client-Keeps fd u v' opened (λ is. absurd (cc)) in
      (t, ground (arith, e), v'', same, grows)

  -- client_communicate with a client: it never reads or writes outside of the table, and keeps the invariant.
  pub client_communicate-Keeps :
      (fd : ℕ) (s : Server.State os)
      → Inv os s
      → has fd s.client_fds ≡ true
      → Keeps (Server.client_communicate os fd s) s
  unfolding Server.client_communicate
  client_communicate-Keeps fd s v client = elim (Bool-cases (Server.running os s)) [
    | inr stopped ↦ (
      dropped fd s,
      ground (arith, drop_client-is fd s v client),
      dropped-Inv fd s v client,
      dropped-server fd s,
      rw (dropped-size fd s) (omega arith),
    )
    | inl running ↦ by_message fd s v client running (os.recv fd 1023 s.world) refl
  ]

  -- new_client, whatever accept gives: it never reads or writes outside of the table, and keeps the invariant.
  pub new_client-Keeps : (s : Server.State os) → Inv os s → Keeps (Server.new_client os s) s
  unfolding Server.new_client
  new_client-Keeps s v = by_accept s v (os.accept s.server_fd s.world) refl
