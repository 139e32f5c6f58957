-- ===== src/Reactor/Single.antt =====
-- single_reactor.cpp: the classes of reactor_server.cpp under other names; its HandleRead looks at the result of recv first.
use cpp_backend.Prelude.{ℕ, Option}
use cpp_backend.Reactor.Os.{Os}
use cpp_backend.Reactor.Server.{State, handle_read, handle_accept, loop}

module _ (os : Os) where
  -- Connection::HandleRead
  abbrev pub single_handle_read : ℕ → State os → Option (State os)
  single_handle_read c s = handle_read os c s

  -- Acceptor::HandleAccept, for so many clients at most
  abbrev pub single_handle_accept : ℕ → State os → State os
  single_handle_accept clients s = handle_accept os clients s

  -- EpollEventLoop::loop, for so many rounds, with the classes of the file
  abbrev pub single_loop : ℕ → ℕ → State os → Option (State os)
  single_loop clients rounds s = loop os clients rounds s
