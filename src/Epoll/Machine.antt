-- ===== src/Epoll/Machine.antt =====
-- The class TCPServer of the four files as threads that interleave: the loop of the main thread, and the threads or
-- pool tasks that it starts. A step is a block that holds `mtx`, or a call of the operating system.
use cpp_backend.Prelude.{
  ℕ, zero, suc, Bool, true, false, not, ◌&&◌, ◌||◌, Option, none, some, List, [], ◌∷◌, ◌++◌, ◌>>=◌,
  ◌==◌, if◌then◌else◌, get_elem?, set, remove, update,
}
use cpp_backend.Texts.{c_str, greeting, short_greeting, empty_input, equals}
use cpp_backend.Epoll.Os.{bytes, failed, Event, Os}

pub data File : Type 0 where
  epollserver : File
  epollthread : File
  epollthread_tp : File
  epollthread_tpet : File

-- A thread, or a task of the pool, and where it stands.
pub data Job : Type 0 where
  communicate : (fd : ℕ) → Job  -- client_communicate of epollthread.cpp, at its start
  closing : (fd : ℕ) → Job  -- before the lock of mtx, to close fd
  reply : (fd : ℕ) (msg : List ℕ) → Job  -- the task of epollthread_tp.cpp, at its start
  locked_reply : (fd : ℕ) (msg : List ℕ) → Job  -- the task of epollthread_tpet.cpp, which holds mtx throughout

pub record State (os : Os) : Type 0 where
  pub watched : ℕ → Bool  -- the clients that epoll_ctl added
  pub jobs : List Job
  pub batch : List Event  -- the events of epoll_wait that are still to be handled
  pub adding : Option ℕ  -- in new_client, before the lock of mtx: the client_fd
  pub looping : Bool  -- epoll_loop has not left its loop by break
  pub errno_again : Bool  -- errno of the main thread is EAGAIN
  pub world : os.World

pub data Step : Type 0 where
  wait : Step  -- epoll_wait
  handle : (chunks : ℕ) → Step  -- the next event, whose client is read at most so many times
  add : Step  -- the block of new_client that holds mtx
  job : (k : ℕ) → Step  -- the next step of the k-th thread or task

-- epollserver.cpp alone looks at the descriptor before the events.
abbrev pub accepts_first : File → Bool
accepts_first epollserver = true
accepts_first _ = false

-- The servers with a pool leave the loop when epoll_wait fails, but for a signal.
abbrev pub is_pooled : File → Bool
is_pooled epollthread_tp = true
is_pooled epollthread_tpet = true
is_pooled _ = false

module _ (os : Os) where
  abbrev pub running : State os → Bool
  running s = not (os.interrupted s.world)

  -- close_fd(fd): epoll_ctl(epfd, EPOLL_CTL_DEL, fd, nullptr); close(fd)
  unfoldable pub close_fd : ℕ → State os → State os
  close_fd fd s = record s { watched = update s.watched fd false; world = os.close fd s.world }

  -- the block of new_client that holds mtx
  unfoldable pub add_client : ℕ → State os → State os
  add_client client_fd s =
      let (ok, w) = os.add client_fd s.world in
      if ok
      then record s { watched = update s.watched client_fd true; adding = none; world = w }
      else record s { adding = none; world = os.close client_fd w }

  -- epollserver.cpp: the client's branch of epoll_loop
  unfoldable pub serve_client : ℕ → State os → State os
  unfolding close_fd
  serve_client fd s =
      let (r, w) = os.recv fd 1023 s.world in
      elim r [
        | failed _ ↦ close_fd fd (record s { world = w })
        | bytes [] ↦ close_fd fd (record s { world = w })
        | bytes (b ∷ bs) ↦
            let (ok, w') = os.send fd (short_greeting ++ c_str (b ∷ bs)) w in
            if ok then record s { world = w' } else close_fd fd (record s { world = w' })
      ]

  -- epollthread_tp.cpp: client_communicate
  unfoldable pub submit_reply : ℕ → State os → State os
  unfolding close_fd
  submit_reply fd s =
      let (r, w) = os.recv fd 1023 s.world in
      elim r [
        | failed _ ↦ close_fd fd (record s { world = w })
        | bytes [] ↦ close_fd fd (record s { world = w })
        | bytes (b ∷ bs) ↦ record s {
          world = w;
          jobs = s.jobs ++ reply fd (greeting ++ c_str (b ∷ bs)) ∷ [];
        }
      ]

  -- epollthread_tpet.cpp: the loop of client_communicate over recv, and recv_msg in the end; `none` if it has not
  -- ended after so many calls.
  unfoldable pub drain : ℕ → ℕ → List ℕ → State os → Option (List ℕ × State os)
  drain zero fd recv_msg s = none
  drain (suc chunks) fd recv_msg s =
      let (r, w) = os.recv fd 1023 s.world in
      elim r [
        | failed again ↦ some (recv_msg, record s { errno_again = again; world = w })
        | bytes [] ↦ some (recv_msg, record s { world = w })
        | bytes (b ∷ bs) ↦ drain chunks fd (recv_msg ++ c_str (b ∷ bs)) (record s { world = w })
      ]

  -- client_communicate after its loop
  unfoldable pub after_drain : ℕ → List ℕ → State os → State os
  unfolding close_fd
  after_drain fd recv_msg s =
      let msg : List ℕ = elim recv_msg [ [] ↦ empty_input | b ∷ bs ↦ b ∷ bs ] in
      if not s.errno_again || equals msg empty_input
      then close_fd fd s
      else record s { jobs = s.jobs ++ locked_reply fd (greeting ++ msg) ∷ [] }

  unfoldable pub drain_client : ℕ → ℕ → State os → Option (State os)
  unfolding drain after_drain
  drain_client chunks fd s = do r ← drain chunks fd [] s; some (after_drain fd r.0 r.1)

  -- What a file does with a client that is readable.
  unfoldable pub serve : File → ℕ → ℕ → State os → Option (State os)
  unfolding serve_client submit_reply drain_client
  serve epollserver chunks fd s = some (serve_client fd s)
  serve epollthread chunks fd s = some (record s { jobs = s.jobs ++ communicate fd ∷ [] })
  serve epollthread_tp chunks fd s = some (submit_reply fd s)
  serve epollthread_tpet chunks fd s = drain_client chunks fd s

  -- The next step of a thread or task: what is left of it, if it does not end, and the state.
  unfoldable pub run_job : Job → State os → Option Job × State os
  unfolding close_fd
  run_job (communicate fd) s = elim (running s) [
    | false ↦ (some (closing fd), s)
    | true ↦
        let (r, w) = os.recv fd 1023 s.world in
        elim r [
          | failed _ ↦ (some (closing fd), record s { world = w })
          | bytes [] ↦ (some (closing fd), record s { world = w })
          | bytes (b ∷ bs) ↦
              let (ok, w') = os.send fd (greeting ++ c_str (b ∷ bs)) w in
              if ok || os.interrupted w'
              then (none, record s { world = w' })
              else (some (closing fd), record s { world = w' })
        ]
  ]
  run_job (closing fd) s = (none, close_fd fd s)
  run_job (reply fd msg) s = elim (running s) [
    | false ↦ (none, s)
    | true ↦
        let (ok, w) = os.send fd msg s.world in
        if ok then (none, record s { world = w }) else (some (closing fd), record s { world = w })
  ]
  run_job (locked_reply fd msg) s = elim (running s) [
    | false ↦ (none, s)
    | true ↦
        let (ok, w) = os.send fd msg s.world in
        (none, if ok then record s { world = w } else close_fd fd (record s { world = w }))
  ]

  -- The k-th job makes a step, and ends or stays at its place.
  abbrev pub keep_job : ℕ → Option Job × State os → State os
  keep_job k (none, s) = record s { jobs = remove s.jobs k }
  keep_job k (some j, s) = record s { jobs = set s.jobs k j }

  abbrev pub next_event : List Event → State os → Option (Event × State os)
  next_event [] s = none
  next_event (e ∷ es) s = some (e, record s { batch = es })

  -- What epoll_wait gave: the events, or the test whether epoll_loop goes on.
  unfoldable pub after_wait : File → Option (List Event) → State os → State os
  after_wait f none s = record s { looping = not (is_pooled f) || os.eintr s.world }
  after_wait f (some es) s = record s { batch = es }

  -- After init
  abbrev pub start : os.World → State os
  start w = record {
    watched = λ _. false;
    jobs = [];
    batch = [];
    adding = none;
    looping = true;
    errno_again = false;
    world = w;
  }

module _ (os : Os) (server_fd : ℕ) where
  -- new_client up to the lock of mtx
  unfoldable pub accept_client : State os → State os
  accept_client s = let (r, w) = os.accept server_fd s.world in record s { adding = r; world = w }

  -- The body of the for of epoll_loop, up to the lock in new_client
  unfoldable pub handle_event : File → ℕ → Event → State os → Option (State os)
  unfolding accept_client serve
  handle_event f chunks e s =
      if e.readable || (accepts_first f && e.fd == server_fd)
      then (if e.fd == server_fd then some (accept_client s) else serve os f chunks e.fd s)
      else some s

  unfoldable pub step : File → Step → State os → Option (State os)
  unfolding handle_event add_client run_job after_wait
  step f wait s = elim s.adding [
    | some _ ↦ none
    | none ↦ elim s.batch [
      | e ∷ es ↦ none
      | [] ↦
          if s.looping && running os s
          then (let (r, w) = os.epoll_wait (λ i. i == server_fd || s.watched i) s.world in
              some (after_wait os f r (record s { world = w })))
          else none
    ]
  ]
  step f (handle chunks) s = elim s.adding [
    | some _ ↦ none
    | none ↦ next_event os s.batch s >>= λ r. handle_event f chunks r.0 r.1
  ]
  step f add s = s.adding >>= λ client_fd. some (add_client os client_fd s)
  step f (job k) s = get_elem? s.jobs k >>= λ j. some (keep_job os k (run_job os j s))

  unfoldable pub run : File → List Step → State os → Option (State os)
  unfolding step
  run f [] s = some s
  run f (m ∷ ms) s = step f m s >>= λ t. run f ms t
