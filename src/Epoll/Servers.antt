-- ===== src/Epoll/Servers.antt =====
-- The four servers, as the machine of each file.
use cpp_backend.Prelude.{ℕ, Option, List}
use cpp_backend.Epoll.Os.{Os}
use cpp_backend.Epoll.Machine.{
  State, Step, run, epollserver, epollthread, epollthread_tp, epollthread_tpet,
}

module _ (os : Os) (server_fd : ℕ) where
  -- epollserver.cpp
  abbrev pub single_thread : List Step → State os → Option (State os)
  single_thread ms s = run os server_fd epollserver ms s

  -- epollthread.cpp
  abbrev pub thread_per_event : List Step → State os → Option (State os)
  thread_per_event ms s = run os server_fd epollthread ms s

  -- epollthread_tp.cpp
  abbrev pub pool_replies : List Step → State os → Option (State os)
  pool_replies ms s = run os server_fd epollthread_tp ms s

  -- epollthread_tpet.cpp
  abbrev pub edge_triggered : List Step → State os → Option (State os)
  edge_triggered ms s = run os server_fd epollthread_tpet ms s
