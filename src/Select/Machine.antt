-- ===== src/Select/Machine.antt =====
-- The class TCPServer of the five files as threads that interleave: the loop of the main thread, and the threads or
-- pool tasks that it starts. A step is a block that holds `mtx`, or a call of the operating system.
use cpp_backend.Prelude.{
  ℕ, ◌+◌, Bool, true, false, not, ◌&&◌, ◌||◌, Option, none, some, List, [], ◌∷◌, ◌++◌, ◌>>=◌, ◌==◌,
  leb, max, if◌then◌else◌, get_elem?, set, remove, update,
}
use cpp_backend.Texts.{c_str, greeting, short_greeting, message_received}
use cpp_backend.DescendingSet.{insert, erase}
use cpp_backend.Select.Os.{Os}

pub data File : Type 0 where
  select_server : File  -- select.cpp
  select_retype : File
  select_thread : File  -- selectthread.cpp and stretype.cpp
  select_thread_pool : File

-- A thread, or a task of the pool, and where it stands.
pub data Job : Type 0 where
  communicate : (fd : ℕ) → Job  -- client_communicate of selectthread.cpp, at its start
  leaving : (fd : ℕ) → Job  -- before the lock of mtx, since the server stops
  closing : (fd : ℕ) → Job  -- before the lock of mtx, since the client left
  reply : (fd : ℕ) (msg : List ℕ) → Job  -- the task of selectthread_tp.cpp, at its start

-- The for over the descriptors: temp_fds, cur_max_fd and fd
pub record Scan : Type 0 where
  pub ready : ℕ → Bool
  pub cur_max_fd : ℕ
  pub fd : ℕ

pub record State (os : Os) : Type 0 where
  pub max_fd : ℕ
  pub read_fds : ℕ → Bool
  pub client_fds : List ℕ
  pub jobs : List Job
  pub scanning : Option Scan
  pub adding : Option ℕ  -- after accept, before the lock of mtx: the client_fd
  pub looping : Bool  -- the loop was not left, by break or by the exception of error
  pub overrun : Bool  -- there was an FD_SET outside of the fd_set
  pub world : os.World

pub data Step : Type 0 where
  select : Step
  scan : Step  -- the next descriptor
  add : Step  -- the block after accept
  job : (k : ℕ) → Step  -- the next step of the k-th thread or task

-- FD_SETSIZE
abbrev pub fd_setsize : ℕ
fd_setsize = 1024

abbrev pub prefix_of : File → List ℕ
prefix_of select_server = message_received
prefix_of select_thread_pool = short_greeting
prefix_of _ = greeting

-- select.cpp and selectretype.cpp loop forever, and with max_fd as it is, not as it was at the call of select.
abbrev pub is_single : File → Bool
is_single select_server = true
is_single select_retype = true
is_single _ = false

module _ (os : Os) (server_fd : ℕ) where
  abbrev pub running : File → State os → Bool
  running f s = is_single f || not (os.interrupted s.world)

  -- std::max(server_fd, *client_fds.begin()), or server_fd if there is no client
  abbrev pub highest : List ℕ → ℕ
  highest [] = server_fd
  highest (c ∷ cs) = max server_fd c

  -- FD_CLR, close and erase
  unfoldable pub remove_client : ℕ → State os → State os
  unfolding erase
  remove_client fd s = record s {
    read_fds = update s.read_fds fd false;
    client_fds = erase fd s.client_fds;
    world = os.close fd s.world;
  }

  -- The block of client_communicate that holds mtx, for a client that left
  unfoldable pub drop_client : ℕ → State os → State os
  unfolding erase
  drop_client fd s = record s {
    max_fd = highest (erase fd s.client_fds);
    read_fds = update s.read_fds fd false;
    client_fds = erase fd s.client_fds;
    world = os.close fd s.world;
  }

  -- The block of new_client that holds mtx
  unfoldable pub add_client : File → ℕ → State os → State os
  unfolding insert
  add_client f client_fd s = record s {
    max_fd = elim f [
      | select_thread_pool ↦ max s.max_fd client_fd
      | _ ↦ highest (insert client_fd s.client_fds)
    ];
    read_fds = update s.read_fds client_fd true;
    client_fds = insert client_fd s.client_fds;
    adding = none;
    overrun = s.overrun || leb fd_setsize client_fd;
  }

  -- select.cpp, selectretype.cpp: the branch of a client
  unfoldable pub serve_client : File → ℕ → State os → State os
  unfolding drop_client
  serve_client f fd s =
      let (msg, w) = os.recv fd 1023 s.world in
      elim msg [
        | [] ↦ drop_client fd (record s { world = w })
        | b ∷ bs ↦ record s { world = os.send fd (prefix_of f ++ c_str (b ∷ bs)) w }
      ]

  -- selectthread_tp.cpp: handle_client_io
  unfoldable pub handle_client_io : ℕ → State os → State os
  unfolding drop_client
  handle_client_io fd s =
      let (msg, w) = os.recv fd 1024 s.world in
      elim msg [
        | [] ↦ drop_client fd (record s { world = w })
        | b ∷ bs ↦ record s { jobs = s.jobs ++ reply fd (short_greeting ++ b ∷ bs) ∷ []; world = w }
      ]

  unfoldable pub serve : File → ℕ → State os → State os
  unfolding serve_client handle_client_io
  serve select_thread fd s = record s { jobs = s.jobs ++ communicate fd ∷ [] }
  serve select_thread_pool fd s = handle_client_io fd s
  serve select_server fd s = serve_client select_server fd s
  serve select_retype fd s = serve_client select_retype fd s

  -- new_client up to the lock of mtx
  unfoldable pub accept_client : State os → State os
  accept_client s = let (r, w) = os.accept server_fd s.world in record s { adding = r; world = w }

  -- The next step of a thread or task: what is left of it, if it does not end, and the state.
  unfoldable pub run_job : Job → State os → Option Job × State os
  unfolding remove_client drop_client
  run_job (communicate fd) s = elim (os.interrupted s.world) [
    | true ↦ (some (leaving fd), s)
    | false ↦
        let (msg, w) = os.recv fd 1023 s.world in
        elim msg [
          | [] ↦ (some (closing fd), record s { world = w })
          | b ∷ bs ↦ (none, record s { world = os.send fd (greeting ++ c_str (b ∷ bs)) w })
        ]
  ]
  run_job (leaving fd) s = (none, remove_client fd s)
  run_job (closing fd) s = (none, drop_client fd s)
  run_job (reply fd msg) s =
      (none, if os.interrupted s.world then s else record s { world = os.send fd msg s.world })

  -- The k-th job makes a step, and ends or stays at its place.
  abbrev pub keep_job : ℕ → Option Job × State os → State os
  keep_job k (none, s) = record s { jobs = remove s.jobs k }
  keep_job k (some j, s) = record s { jobs = set s.jobs k j }

  abbrev pub close_all : List ℕ → os.World → os.World
  close_all [] w = w
  close_all (fd ∷ fds) w = close_all fds (os.close fd w)

  -- select failed: error throws in select.cpp and selectretype.cpp, and no one catches.
  unfoldable pub select_failed : File → State os → State os
  select_failed select_server s = record s {
    looping = false;
    world = close_all s.client_fds s.world;
  }
  select_failed select_retype s = record s {
    looping = false;
    client_fds = [];
    world = close_all s.client_fds s.world;
  }
  select_failed select_thread s = s
  select_failed select_thread_pool s = record s { looping = os.eintr s.world }

  unfoldable pub call_select : File → State os → State os
  unfolding select_failed
  call_select f s =
      let (r, w) = os.select (s.max_fd + 1) s.read_fds s.world in
      elim r [
        | none ↦ select_failed f (record s { world = w })
        | some ready ↦ record s {
          scanning = some (record { ready = ready; cur_max_fd = s.max_fd; fd = 0 });
          world = w;
        }
      ]

  -- The body of the for over the descriptors, or its end
  unfoldable pub scan_next : File → Scan → State os → State os
  unfolding serve accept_client
  scan_next f c s =
      let next : State os = record s { scanning = some (record c { fd = c.fd + 1 }) } in
      if leb c.fd (if is_single f then s.max_fd else c.cur_max_fd)
      then (if c.ready c.fd
          then (if c.fd == server_fd then accept_client next else serve f c.fd next)
          else next)
      else record s { scanning = none }

  unfoldable pub step : File → Step → State os → Option (State os)
  unfolding call_select scan_next add_client run_job
  step f select s = elim s.adding [
    | some _ ↦ none
    | none ↦ elim s.scanning [
      | some _ ↦ none
      | none ↦ if s.looping && running f s then some (call_select f s) else none
    ]
  ]
  step f scan s = elim s.adding [
    | some _ ↦ none
    | none ↦ s.scanning >>= λ c. some (scan_next f c s)
  ]
  step f add s = s.adding >>= λ client_fd. some (add_client f client_fd s)
  step f (job k) s = get_elem? s.jobs k >>= λ j. some (keep_job k (run_job j s))

  unfoldable pub run : File → List Step → State os → Option (State os)
  unfolding step
  run f [] s = some s
  run f (m ∷ ms) s = step f m s >>= λ t. run f ms t

  -- After init
  abbrev pub start : os.World → State os
  start w = record {
    max_fd = server_fd;
    read_fds = update (λ _. false) server_fd true;
    client_fds = [];
    jobs = [];
    scanning = none;
    adding = none;
    looping = true;
    overrun = leb fd_setsize server_fd;
    world = w;
  }
