-- ===== src/Reactor/Server.antt =====
-- Channel, EventLoop, Connection, Acceptor and TCPServer of reactor_server.cpp. `none` is a use of a Connection that
-- was deleted.
use cpp_backend.Prelude.{
  ℕ, zero, suc, ◌+◌, true, false, Option, none, some, List, [], ◌∷◌, ◌++◌, ◌>>=◌, update, get_elem?,
  remove,
}
use cpp_backend.Reactor.Os.{Channel, acceptor, connection, Event, Os}

-- A task of the pool, which captures the descriptor and the text: send msg to fd.
pub record SendTask : Type 0 where
  pub fd : ℕ
  pub msg : List ℕ

pub record State (os : Os) : Type 0 where
  pub listenfd : ℕ
  pub connections : ℕ → Option ℕ  -- the __fd of the Connection at an address, while it is alive
  pub next : ℕ  -- the address of the next Connection
  pub interest : ℕ → Option Channel  -- what epoll_ctl was told of a descriptor
  pub submitted : List SendTask  -- the tasks of the pool that have not run
  pub world : os.World

module _ (os : Os) where
  -- EventLoop::addChannel and removeChannel, of a Channel with this fd
  abbrev pub add_channel : ℕ → Channel → State os → State os
  add_channel fd ch s = record s { interest = update s.interest fd (some ch) }

  abbrev pub remove_channel : ℕ → State os → State os
  remove_channel fd s = record s { interest = update s.interest fd none }

  -- new Connection(loop, fd, pool)
  unfoldable pub new_connection : ℕ → State os → State os
  new_connection fd s =
      add_channel fd (connection s.next)
        (record s { connections = update s.connections s.next (some fd); next = s.next + 1 })

  -- delete this: ~Connection closes __fd
  unfoldable pub delete_connection : ℕ → ℕ → State os → State os
  delete_connection c fd s = record s {
    connections = update s.connections c none;
    world = os.close fd s.world;
  }

  -- Connection::handleRead once __fd is read from `this`
  unfoldable pub read_from : ℕ → ℕ → State os → State os
  unfolding delete_connection
  read_from c fd s =
      let (msg, w) = os.recv fd 1024 s.world in
      elim msg [
        | [] ↦ delete_connection c fd (remove_channel fd (record s { world = w }))
        | b ∷ bs ↦ record s {
          world = w;
          submitted = s.submitted ++ record { fd = fd; msg = b ∷ bs } ∷ [];
        }
      ]

  -- The k-th task of the pool runs.
  unfoldable pub run_task : ℕ → State os → Option (State os)
  run_task k s = do
    task ← get_elem? s.submitted k
    some (record s { submitted = remove s.submitted k; world = os.send task.fd task.msg s.world })

  -- Connection::handleRead of the object at an address, which must be alive
  unfoldable pub handle_read : ℕ → State os → Option (State os)
  unfolding read_from
  handle_read c s = do fd ← s.connections c; some (read_from c fd s)

  -- Acceptor::handleAccept, for so many clients at most
  unfoldable pub handle_accept : ℕ → State os → State os
  unfolding new_connection
  handle_accept zero s = s
  handle_accept (suc clients) s =
      let (r, w) = os.accept s.listenfd s.world in
      elim r [
        | none ↦ record s { world = w }
        | some connfd ↦ handle_accept clients (new_connection connfd (record s { world = w }))
      ]

  -- ch->handle(events): the Channel is read, whatever the events are.
  unfoldable pub handle : ℕ → Event → State os → Option (State os)
  unfolding handle_read handle_accept
  handle clients e s = elim e.ch [
    | acceptor ↦ elim e.readable [ true ↦ some (handle_accept clients s) | false ↦ some s ]
    | connection c ↦
        s.connections c >>= λ _. elim e.readable [ true ↦ handle_read c s | false ↦ some s ]
  ]

  -- The for of EventLoop::loop
  unfoldable pub handle_all : ℕ → List Event → State os → Option (State os)
  unfolding handle
  handle_all clients [] s = some s
  handle_all clients (e ∷ es) s = handle clients e s >>= λ t. handle_all clients es t

  -- One round of EventLoop::loop, and so many rounds of it
  unfoldable pub loop_round : ℕ → State os → Option (State os)
  unfolding handle_all
  loop_round clients s =
      let (es, w) = os.epoll_wait s.interest s.world in
      handle_all clients es (record s { world = w })

  unfoldable pub loop : ℕ → ℕ → State os → Option (State os)
  unfolding loop_round
  loop clients zero s = some s
  loop clients (suc rounds) s = loop_round clients s >>= λ t. loop clients rounds t

  -- TCPServer(port), once the socket listens: its acceptor adds its channel.
  abbrev pub start : ℕ → os.World → State os
  start fd w = record {
    listenfd = fd;
    connections = λ _. none;
    next = 0;
    interest = update (λ _. none) fd (some acceptor);
    submitted = [];
    world = w;
  }
