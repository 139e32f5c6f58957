-- ===== src/Select/Servers.antt =====
-- The five servers, as the machine of each file.
use cpp_backend.Prelude.{ℕ, Option, List}
use cpp_backend.Select.Os.{Os}
use cpp_backend.Select.Machine.{
  State, Step, run, select_server, select_retype, select_thread, select_thread_pool,
}

module _ (os : Os) (server_fd : ℕ) where
  -- select.cpp
  abbrev pub single_thread : List Step → State os → Option (State os)
  single_thread ms s = run os server_fd select_server ms s

  -- selectretype.cpp
  abbrev pub single_thread_retype : List Step → State os → Option (State os)
  single_thread_retype ms s = run os server_fd select_retype ms s

  -- selectthread.cpp
  abbrev pub thread_per_event : List Step → State os → Option (State os)
  thread_per_event ms s = run os server_fd select_thread ms s

  -- stretype.cpp
  abbrev pub thread_per_event_retype : List Step → State os → Option (State os)
  thread_per_event_retype ms s = run os server_fd select_thread ms s

  -- selectthread_tp.cpp
  abbrev pub pool_replies : List Step → State os → Option (State os)
  pool_replies ms s = run os server_fd select_thread_pool ms s
