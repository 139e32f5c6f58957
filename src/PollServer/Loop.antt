-- ===== src/PollServer/Loop.antt =====
-- poll_loop of pollserver.cpp: every round keeps the invariant of the table, and never reads or writes outside of
-- it.
use cpp_backend.Prelude.{
  ℕ, zero, suc, ◌+◌, ◌-◌, ◌<◌, ◌≤◌, ◌≡◌, refl, sym, ap, ◌∙◌, true, false, ◌||◌, Option, none, some,
  List, [], ◌∷◌, ◌==◌, if◌then◌else◌, ◌⊎◌, inl, inr, arith, Bool-cases,
}
use native.Mathlib.Decide.{dec_lt, ℕ_discrete}
use cpp_backend.PollServer.Os.{Revents, nothing, pollin, hangup, PollFd, Os, Documented}
use cpp_backend.PollServer.Server
use cpp_backend.DescendingSet.{has}
use cpp_backend.PollServer.Table.{Inv}
use cpp_backend.PollServer.Clients.{Keeps, client_communicate-Keeps, new_client-Keeps, Inv-world}

module _ (os : Os) (doc : Documented os) where
  serve_ready :
      (fd : ℕ) (s : Server.State os)
      → Inv os s
      → (s.fds fd).events ≡ true
      → Keeps os doc
          (if fd == s.server_fd then Server.new_client os s else Server.client_communicate os fd s)
          s
  serve_ready fd s v watched = elim (ℕ_discrete fd s.server_fd) [
    | yes server ↦
        let (t, e, v', same, grows) = new_client-Keeps os doc s v in
        (t, ground (arith, e), v', same, grows)
    | no other ↦ elim (v.asked fd watched) [
      | inl server ↦ absurd (other server)
      | inr client ↦
          let (t, e, v', same, grows) = client_communicate-Keeps os doc fd s v client in
          (t, ground (arith, e), v', same, grows)
    ]
  ]

  -- `Keeps` for the body of the loop, which counts `cnt` down.
  abbrev Serves : Option (ℕ × Server.State os) → Server.State os → Type 0
  Serves o s =
      (c : ℕ) × (t : Server.State os) × (o ≡ some (c, t))
      × Inv os t
      × (t.server_fd ≡ s.server_fd)
      × (s.size ≤ t.size)

  serve_by :
      (fd cnt : ℕ) (s : Server.State os)
      → Inv os s
      → fd < s.size
      → (f : Option ℕ) (r : Revents) → (s.fds fd).fd ≡ f
      → (s.fds fd).revents ≡ r
      → Serves (Server.serve os fd cnt s) s
  unfolding Server.serve
  serve_by fd cnt s v inside none r is has_r = (cnt, s, ground arith, v, refl, omega arith)
  serve_by fd cnt s v inside (some i) nothing is has_r =
      (cnt, s, ground arith, v, refl, omega arith)
  serve_by fd cnt s v inside (some i) hangup is has_r = (cnt, s, ground arith, v, refl, omega arith)
  serve_by fd cnt s v inside (some i) pollin is has_r =
      let (t, e, v', same, grows) = serve_ready fd s v (v.ready fd has_r) in
      (cnt - 1, t, ground (arith, e), v', same, grows)

  serve_all-Keeps :
      (left fd cnt : ℕ) (s : Server.State os)
      → Inv os s
      → fd + left ≤ s.size
      → Keeps os doc (Server.serve_all os left fd cnt s) s
  unfolding Server.serve_all
  serve_all-Keeps zero fd cnt s v inside = (s, refl, v, refl, omega arith)
  serve_all-Keeps (suc left) fd cnt s v inside = elim (ℕ_discrete cnt 0) [
    | yes none_left ↦ (s, ground arith, v, refl, omega arith)
    | no some_left ↦
        let (c, t, e, v', same, grows) = serve_by fd cnt s v (omega arith) _ _ refl refl in
        let (u, e', v'', same', grows') = serve_all-Keeps left (fd + 1) c t v' (omega arith) in
        (u, ground (arith, e, e'), v'', same' ∙ same, omega arith)
  ]

  polled-Inv :
      (s : Server.State os) (cnt : ℕ) (fds : ℕ → PollFd) (w : os.World)
      → Inv os s
      → os.poll s.fds (s.max_fd + 1) s.world ≡ (some (cnt, fds), w)
      → Inv os (record s { fds = fds; world = w })
  polled-Inv s cnt fds w v got =
      let keeps : (i : ℕ) → os.is_open s.world i ≡ true → os.is_open w i ≡ true = λ i o.
        ap (λ p. os.is_open p.1 i) (sym got) ∙ doc.poll_keeps s.fds (s.max_fd + 1) i s.world o in
      let is : (i : ℕ) → ((fds i).fd ≡ (s.fds i).fd) × ((fds i).events ≡ (s.fds i).events) =
        λ i. doc.poll_fd s.fds fds (s.max_fd + 1) cnt i s.world w got in
      record {
        watched = λ i h.
            let (a, b, c, d, e) = v.watched i h in ((is i).0 ∙ a, (is i).1 ∙ b, keeps i c, d, e);
        listening =
            let (a, b, c, d) = v.listening in
            ((is s.server_fd).0 ∙ a, (is s.server_fd).1 ∙ b, keeps s.server_fd c, d);
        asked = λ i h. v.asked i (sym (is i).1 ∙ h);
        ready = λ i h. elim (dec_lt i (s.max_fd + 1)) [
          | yes polled ↦
              (is i).1 ∙ doc.poll_asked s.fds fds (s.max_fd + 1) cnt i s.world w got polled h
          | no rest ↦
              (is i).1
              ∙ v.ready i (
                  sym (doc.poll_rest s.fds fds (s.max_fd + 1) cnt i s.world w got (omega arith))
                  ∙ h)
        ];
        bound = v.bound;
        order = v.order;
      }

  by_poll :
      (s : Server.State os)
      → Inv os s
      → (p : Option (ℕ × (ℕ → PollFd)) × os.World) → os.poll s.fds (s.max_fd + 1) s.world ≡ p
      → Keeps os doc (Server.poll_round os s) s
  unfolding Server.poll_round
  by_poll s v (none, w) got = (
    record s { world = w },
    ground (arith, v.bound),
    Inv-world os doc s w v (λ i o.
        ap (λ p. os.is_open p.1 i) (sym got) ∙ doc.poll_keeps s.fds (s.max_fd + 1) i s.world o),
    refl,
    omega arith,
  )
  by_poll s v (some (cnt, fds), w) got =
      let (t, e, v', same, grows) =
        serve_all-Keeps (s.max_fd + 1) 0 cnt (record s { fds = fds; world = w })
          (polled-Inv s cnt fds w v got) (omega (arith, v.bound)) in
      (t, ground (arith, v.bound, e), v', same, grows)

  -- A round of poll_loop, whatever poll, accept and recv give: no access is out of the bounds of `fds`, and the
  -- invariant of the table holds after it.
  pub poll_round-Keeps : (s : Server.State os) → Inv os s → Keeps os doc (Server.poll_round os s) s
  poll_round-Keeps s v = by_poll s v (os.poll s.fds (s.max_fd + 1) s.world) refl

  -- The invariant holds when init is done.
  pub init-Inv : (fd : ℕ) (w : os.World) → os.is_open w fd ≡ true → Inv os (Server.init os fd w)
  init-Inv fd w opened = record {
    watched = λ i h. absurd (cc);
    listening = (ground arith, ground arith, opened, omega arith);
    asked = λ i h. inl (ground arith);
    ready = λ i h. absurd (ground arith);
    bound = omega arith;
    order = tt;
  }

  -- If the operating system behaves as documented, then from a state that satisfies the invariant of the table,
  -- poll_loop runs for any number of rounds without an access out of the bounds of `fds`, and ends in such a
  -- state: client_fds is descending, the server and each client are open, polled and at most max_fd, nothing else
  -- is polled, and max_fd is inside of `fds`.
  pub poll_loop-safe :
      (rounds : ℕ) (s : Server.State os)
      → Inv os s
      → (t : Server.State os) × (Server.poll_loop os rounds s ≡ some t) × Inv os t
  unfolding Server.poll_loop
  poll_loop-safe zero s v = (s, refl, v)
  poll_loop-safe (suc rounds) s v = elim (Bool-cases (Server.running os s)) [
    | inr stopped ↦ (s, ground arith, v)
    | inl runs ↦
        let (t, e, v', same, grows) = poll_round-Keeps s v in
        let (u, e', v'') = poll_loop-safe rounds t v' in (u, ground (arith, e, e'), v'')
  ]

  closed_all :
      (fds : List ℕ) (w : os.World) (i : ℕ)
      → has i fds ≡ true ⊎ os.is_open w i ≡ false
      → os.is_open (Server.close_all os fds w) i ≡ false
  closed_all [] w i (inl h) = absurd (cc)
  closed_all [] w i (inr h) = h
  closed_all (fd ∷ fds) w i h = elim (ℕ_discrete i fd) [
    | yes same ↦
        closed_all fds (os.close fd w) i
          (inr (ap (os.is_open (os.close fd w)) same ∙ doc.close_gone fd w))
    | no other ↦ elim h [
      | inl there ↦ closed_all fds (os.close fd w) i (inl (ground arith))
      | inr gone ↦ closed_all fds (os.close fd w) i (inr (doc.close_keeps fd i w other ∙ gone))
    ]
  ]

  kept_all :
      (fds : List ℕ) (w : os.World) (i : ℕ)
      → has i fds ≡ false
      → os.is_open (Server.close_all os fds w) i ≡ os.is_open w i
  kept_all [] w i h = refl
  kept_all (fd ∷ fds) w i h =
      kept_all fds (os.close fd w) i (ground arith)
      ∙ doc.close_keeps fd i w (λ same. absurd (ground arith))

  -- If the operating system behaves as documented, then from a state that satisfies the invariant of the table,
  -- the destructor closes the server and every client, and no other descriptor.
  pub destroy_lem :
      (s : Server.State os)
      → Inv os s
      → (i : ℕ)
      → os.is_open (Server.destroy os s) i
        ≡ (if i == s.server_fd || has i s.client_fds then false else os.is_open s.world i)
  destroy_lem s v i = elim (ℕ_discrete i s.server_fd) [
    | yes same ↦
        ap (os.is_open (Server.destroy os s)) same
        ∙ doc.close_gone s.server_fd (Server.close_all os s.client_fds s.world)
        ∙ ground arith
    | no other ↦
        doc.close_keeps s.server_fd i (Server.close_all os s.client_fds s.world) other
        ∙ elim (Bool-cases (has i s.client_fds)) [
          | inl client ↦ closed_all s.client_fds s.world i (inl client) ∙ ground arith
          | inr foreign ↦ kept_all s.client_fds s.world i foreign ∙ ground arith
        ]
  ]
