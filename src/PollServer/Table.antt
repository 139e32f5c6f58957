-- ===== src/PollServer/Table.antt =====
-- The table of descriptors of pollserver.cpp: the clients in their order, and the invariant that ties `client_fds`,
-- `fds` and `max_fd` together.
use cpp_backend.Prelude.{
  ℕ, ◌<◌, ◌≤◌, ◌≡◌, ◌≢◌, refl, sym, ap, subst, ◌∙◌, true, some, List, [], ◌∷◌, ◌⊎◌, arith,
}
use cpp_backend.DescendingSet.{has, IsDescending, has-first}
use cpp_backend.PollServer.Os.{pollin, Os}
use cpp_backend.PollServer.Server

module _ (os : Os) where
  -- The clients are the open descriptors that poll is asked for, with the server; max_fd is none less than these,
  -- and inside of the table.
  pub record Inv (s : Server.State os) : Type 0 where
    pub watched :
        (i : ℕ)
        → has i s.client_fds ≡ true
        → ((s.fds i).fd ≡ some i)
          × ((s.fds i).events ≡ true)
          × (os.is_open s.world i ≡ true)
          × (i ≤ s.max_fd)
          × (i ≢ s.server_fd)
    pub listening :
        ((s.fds s.server_fd).fd ≡ some s.server_fd)
        × ((s.fds s.server_fd).events ≡ true)
        × (os.is_open s.world s.server_fd ≡ true)
        × (s.server_fd ≤ s.max_fd)
    pub asked : (i : ℕ) → (s.fds i).events ≡ true → (i ≡ s.server_fd) ⊎ (has i s.client_fds ≡ true)
    pub ready : (i : ℕ) → (s.fds i).revents ≡ pollin → (s.fds i).events ≡ true
    pub bound : s.max_fd < s.size
    pub order : IsDescending s.client_fds

  -- All but max_fd, which set_max sets from the rest.
  pub record Near (s : Server.State os) : Type 0 where
    pub watched :
        (i : ℕ)
        → has i s.client_fds ≡ true
        → ((s.fds i).fd ≡ some i)
          × ((s.fds i).events ≡ true)
          × (os.is_open s.world i ≡ true)
          × (i < s.size)
          × (i ≢ s.server_fd)
    pub listening :
        ((s.fds s.server_fd).fd ≡ some s.server_fd)
        × ((s.fds s.server_fd).events ≡ true)
        × (os.is_open s.world s.server_fd ≡ true)
        × (s.server_fd < s.size)
    pub asked : (i : ℕ) → (s.fds i).events ≡ true → (i ≡ s.server_fd) ⊎ (has i s.client_fds ≡ true)
    pub ready : (i : ℕ) → (s.fds i).revents ≡ pollin → (s.fds i).events ≡ true
    pub order : IsDescending s.client_fds

  pub Inv-Near : (s : Server.State os) → Inv s → Near s
  Inv-Near s v = record {
    watched = λ i h. let (a, b, c, d, e) = v.watched i h in (a, b, c, omega (arith, v.bound), e);
    listening = let (a, b, c, d) = v.listening in (a, b, c, omega (arith, v.bound));
    asked = v.asked;
    ready = v.ready;
    order = v.order;
  }

  set_max-by :
      (s : Server.State os) (cs : List ℕ) → s.client_fds ≡ cs → Near s → Inv (Server.set_max os s)
  unfolding Server.set_max
  set_max-by s [] e n = record {
    watched = λ i h. absurd (cc);
    listening = let (a, b, c, d) = n.listening in (a, b, c, ground arith);
    asked = n.asked;
    ready = n.ready;
    bound = ground (arith, n.listening);
    order = n.order;
  }
  set_max-by s (c ∷ cs) e n =
      let d : IsDescending (c ∷ cs) = subst IsDescending e n.order in
      record {
        watched = λ i h.
            let (a, b, o, _, f) = n.watched i h in
            let top : i ≤ c = has-first i c cs d (ap (has i) (sym e) ∙ h) in
            (a, b, o, ground arith, f);
        listening = let (a, b, o, f) = n.listening in (a, b, o, ground arith);
        asked = n.asked;
        ready = n.ready;
        bound =
            let (_, _, _, inside, _) = n.watched c (ap (has c) e ∙ ground arith) in
            let (_, _, _, f) = n.listening in ground arith;
        order = n.order;
      }

  -- set_max makes max_fd the largest descriptor that is watched.
  pub set_max-Inv : (s : Server.State os) → Near s → Inv (Server.set_max os s)
  set_max-Inv s n = set_max-by s s.client_fds refl n

  pub set_max-server : (s : Server.State os) → (Server.set_max os s).server_fd ≡ s.server_fd
  unfolding Server.set_max
  set_max-server s = refl

  pub set_max-size : (s : Server.State os) → (Server.set_max os s).size ≡ s.size
  unfolding Server.set_max
  set_max-size s = refl
