-- ===== src/SubReactors/Machine.antt =====
-- The main reactor and the sub-reactors of multithread_reactor.cpp as threads that interleave, with the
-- tasks of the pool. A step is a round of HandleAccept, a call of epoll_wait by a sub-reactor, the handling of one of
-- its events, or a task, which sends a reply.
use cpp_backend.Prelude.{
  ℕ, ◌+◌, Option, none, some, List, [], ◌∷◌, ◌++◌, update, ltb, ◌==◌, ◌&&◌, if◌then◌else◌,
  get_elem?, remove,
}
use cpp_backend.Reactor.Os.{Channel, acceptor, connection, Event, Os}
use cpp_backend.Reactor.Server.{SendTask}
use cpp_backend.SubReactors.{ReactorThreadPool, init, get_next_sub_reactor}

-- __fd of a Connection, and __epoll as the number of its sub-reactor
pub record Connection : Type 0 where
  pub fd : ℕ
  pub epoll : ℕ

pub record State (os : Os) : Type 0 where
  pub pool : ReactorThreadPool
  pub connections : ℕ → Option Connection  -- by their addresses, while they are alive
  pub next : ℕ  -- the address of the next Connection
  pub interest : ℕ → ℕ → Option Channel  -- of a sub-reactor: what epoll_ctl was told of a descriptor
  pub batch : ℕ → List Event  -- of a sub-reactor: the events that it has still to handle
  pub submitted : List SendTask  -- the tasks of __work_pool that have not run
  pub world : os.World

pub data Step : Type 0 where
  accept : Step
  wait : (k : ℕ) → Step
  handle : (k : ℕ) → Step
  task : (k : ℕ) → Step  -- the k-th task of __work_pool runs

-- `freed` is a use of a Connection that was deleted; `disabled` is a step that the thread is not at.
pub data Result (os : Os) : Type 0 where
  goes : State os → Result os
  disabled : Result os
  freed : Result os

module _ (os : Os) (listenfd : ℕ) where
  -- AddChannel and DelChannel of the k-th sub-reactor
  abbrev pub set_channel : ℕ → ℕ → Option Channel → State os → State os
  set_channel k fd ch s = record s {
    interest = λ i j. if k == i && fd == j then ch else s.interest i j;
  }

  -- new Connection(sub_reactor, __work_pool, client_fd)
  unfoldable pub new_connection : ℕ → ℕ → State os → State os
  new_connection k fd s = set_channel k fd (some (connection s.next)) (record s {
    connections = update s.connections s.next (some (record { fd = fd; epoll = k }));
    next = s.next + 1;
  })

  -- HandleAccept once accept gave a client
  unfoldable pub dispatch : ℕ → State os → State os
  unfolding new_connection get_next_sub_reactor
  dispatch client_fd s =
      let (r, pool) = get_next_sub_reactor s.pool in
      elim r [
        | none ↦ record s { pool = pool; world = os.close client_fd s.world }
        | some k ↦ new_connection k client_fd (record s { pool = pool })
      ]

  -- A round of the while of HandleAccept
  unfoldable pub handle_accept : State os → State os
  unfolding dispatch
  handle_accept s =
      let (r, w) = os.accept listenfd s.world in
      elim r [
        | none ↦ record s { world = w }
        | some client_fd ↦ dispatch client_fd (record s { world = w })
      ]

  -- DelChannel, and delete this: ~Connection closes __fd
  unfoldable pub delete_connection : ℕ → Connection → State os → State os
  delete_connection c conn s =
      set_channel conn.epoll conn.fd none
        (record s { connections = update s.connections c none; world = os.close conn.fd s.world })

  -- Connection::HandleRead
  unfoldable pub handle_read : ℕ → Connection → State os → State os
  unfolding delete_connection
  handle_read c conn s =
      let (msg, w) = os.recv conn.fd 1024 s.world in
      elim msg [
        | [] ↦ delete_connection c conn (record s { world = w })
        | b ∷ bs ↦ record s {
          world = w;
          submitted = s.submitted ++ record { fd = conn.fd; msg = b ∷ bs } ∷ [];
        }
      ]

  -- ch->HandleRead(events) of EpollEventLoop::loop: the Channel is read, whatever the events are.
  unfoldable pub handle_event : Event → State os → Result os
  unfolding handle_read
  handle_event e s = elim e.ch [
    | acceptor ↦ goes s
    | connection c ↦ elim (s.connections c) [
      | none ↦ freed
      | some conn ↦ goes (if e.readable then handle_read c conn s else s)
    ]
  ]

  -- The k-th task of __work_pool
  unfoldable pub run_task : ℕ → State os → Result os
  run_task k s = elim (get_elem? s.submitted k) [
    | none ↦ disabled
    | some t ↦
        goes (record s { submitted = remove s.submitted k; world = os.send t.fd t.msg s.world })
  ]

  unfoldable pub step : Step → State os → Result os
  unfolding handle_accept handle_event run_task
  step accept s = goes (handle_accept s)
  step (wait k) s = elim (s.batch k) [
    | e ∷ es ↦ disabled
    | [] ↦
        if ltb k s.pool.size
        then (let (es, w) = os.epoll_wait (s.interest k) s.world in
            goes (record s { batch = update s.batch k es; world = w }))
        else disabled
  ]
  step (handle k) s = elim (s.batch k) [
    | [] ↦ disabled
    | e ∷ es ↦ handle_event e (record s { batch = update s.batch k es })
  ]
  step (task k) s = run_task k s

  unfoldable pub run : List Step → State os → Result os
  unfolding step
  run [] s = goes s
  run (m ∷ ms) s = elim (step m s) [ goes t ↦ run ms t | disabled ↦ disabled | freed ↦ freed ]

  -- TCPServer(port), once the socket listens
  abbrev pub start : ℕ → os.World → State os
  start sub_reactor_num w = record {
    pool = init sub_reactor_num;
    connections = λ _. none;
    next = 0;
    interest = λ _ _. none;
    batch = λ _. [];
    submitted = [];
    world = w;
  }
