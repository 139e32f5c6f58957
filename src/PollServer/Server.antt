-- ===== src/PollServer/Server.antt =====
-- The class TCPServer of pollserver.cpp. `none` is an access out of the bounds of `fds`.
use cpp_backend.Prelude.{
  ℕ, zero, suc, ◌+◌, ◌-◌, Bool, true, false, not, ◌&&◌, Option, none, some, List, [], ◌∷◌, ◌++◌,
  ◌>>=◌, ltb, leb, ◌==◌, if◌then◌else◌, max, update,
}
use cpp_backend.DescendingSet.{insert, erase}
use cpp_backend.Texts.{c_str, greeting}
use cpp_backend.PollServer.Os.{nothing, pollin, hangup, PollFd, Os}

-- The fields, from `init` on; the vector `fds` is its size and its elements.
pub record State (os : Os) : Type 0 where
  pub max_fd : ℕ
  pub server_fd : ℕ
  pub is_running : Bool
  pub size : ℕ
  pub fds : ℕ → PollFd
  pub client_fds : List ℕ
  pub world : os.World

-- {0, 0, 0}, which resize puts in, and {-1, 0, 0}
abbrev pub zeros : PollFd
zeros = record { fd = some 0; events = false; revents = nothing }

abbrev pub unused : PollFd
unused = record { fd = none; events = false; revents = nothing }

-- {fd, POLLIN, 0}
abbrev pub watching : ℕ → PollFd
watching fd = record { fd = some fd; events = true; revents = nothing }

module _ (os : Os) where
  -- is_running.load(), which `stop` in the handler of SIGINT clears
  abbrev pub running : State os → Bool
  running s = s.is_running && not (os.interrupted s.world)

  -- fds.resize(n), for n above the size
  abbrev pub resize : ℕ → State os → State os
  resize n s = record s { size = n; fds = λ i. if ltb i s.size then s.fds i else zeros }

  -- fds[i] = e
  unfoldable pub set_at : ℕ → PollFd → State os → Option (State os)
  set_at i e s = if ltb i s.size then some (record s { fds = update s.fds i e }) else none

  -- std::max(server_fd, *client_fds.begin()), or server_fd if there is no client
  unfoldable pub set_max : State os → State os
  set_max s = record s {
    max_fd = elim s.client_fds [ [] ↦ s.server_fd | c ∷ cs ↦ max s.server_fd c ];
  }

  -- The end of init, once socket, bind and listen have succeeded.
  abbrev pub init : ℕ → os.World → State os
  init fd w = record {
    max_fd = fd;
    server_fd = fd;
    is_running = true;
    size = fd + 1;
    fds = update (λ _. zeros) fd (watching fd);
    client_fds = [];
    world = w;
  }

  -- new_client after its accept
  unfoldable pub add_client : ℕ → State os → Option (State os)
  unfolding insert set_at set_max
  add_client client_fd s = do
    t ←
        set_at client_fd (watching client_fd)
          (if leb s.size client_fd then resize (client_fd + 1) s else s)
    some (set_max (record t { client_fds = insert client_fd t.client_fds }))

  unfoldable pub new_client : State os → Option (State os)
  unfolding add_client
  new_client s =
      let (r, w) = os.accept s.server_fd s.world in
      elim r [
        | none ↦ some (record s { world = w })
        | some client_fd ↦ add_client client_fd (record s { world = w })
      ]

  -- fds[fd] = {-1, 0, 0}; close(fd); client_fds.erase(fd)
  unfoldable pub drop_client : ℕ → State os → Option (State os)
  unfolding erase set_at
  drop_client fd s = do
    t ← set_at fd unused s
    some (record t { client_fds = erase fd t.client_fds; world = os.close fd t.world })

  unfoldable pub client_communicate : ℕ → State os → Option (State os)
  unfolding drop_client set_max
  client_communicate fd s = elim (running s) [
    | false ↦ drop_client fd s
    | true ↦
        let (msg, w) = os.recv fd 1023 s.world in
        elim msg [
          | [] ↦ (do t ← drop_client fd (record s { world = w }); some (set_max t))
          | b ∷ bs ↦ some (record s { world = os.send fd (greeting ++ c_str (b ∷ bs)) w })
        ]
  ]

  -- The body of the loop over the descriptors: `cnt` and the state after it.
  unfoldable pub serve : ℕ → ℕ → State os → Option (ℕ × State os)
  unfolding new_client client_communicate
  serve fd cnt s =
      if ltb fd s.size
      then elim (s.fds fd).fd [
        | none ↦ some (cnt, s)
        | some _ ↦ elim (s.fds fd).revents [
          | nothing ↦ some (cnt, s)
          | hangup ↦ some (cnt, s)
          | pollin ↦ (if fd == s.server_fd then new_client s else client_communicate fd s) >>= λ t.
              some (cnt - 1, t)
        ]
      ]
      else none

  -- for(fd; fd <= cur_max_fd and cnt > 0; fd++), with the number of descriptors that are left
  unfoldable pub serve_all : ℕ → ℕ → ℕ → State os → Option (State os)
  unfolding serve
  serve_all zero fd cnt s = some s
  serve_all (suc left) fd cnt s = elim (cnt == 0) [
    | true ↦ some s
    | false ↦ serve fd cnt s >>= λ r. serve_all left (fd + 1) r.0 r.1
  ]

  -- One round of poll_loop.
  unfoldable pub poll_round : State os → Option (State os)
  unfolding serve_all
  poll_round s =
      if ltb s.max_fd s.size
      then (let (r, w) = os.poll s.fds (s.max_fd + 1) s.world in
          elim r [
            | none ↦ some (record s { world = w })
            | some ready ↦
                serve_all (s.max_fd + 1) 0 ready.0 (record s { fds = ready.1; world = w })
          ])
      else none

  -- poll_loop, for so many rounds at most
  unfoldable pub poll_loop : ℕ → State os → Option (State os)
  unfolding poll_round
  poll_loop zero s = some s
  poll_loop (suc rounds) s = elim (running s) [
    | false ↦ some s
    | true ↦ poll_round s >>= λ t. poll_loop rounds t
  ]

  abbrev pub close_all : List ℕ → os.World → os.World
  close_all [] w = w
  close_all (fd ∷ fds) w = close_all fds (os.close fd w)

  -- ~TCPServer
  abbrev pub destroy : State os → os.World
  destroy s = os.close s.server_fd (close_all s.client_fds s.world)
