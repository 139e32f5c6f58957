-- ===== src/Setup/Plans.antt =====
-- What each file calls in `init` after `socket`, in its order.
use cpp_backend.Prelude.{List, [], ◌∷◌}
use cpp_backend.Setup.Os.{setsockopt, bind, listen, epoll_add}
use cpp_backend.Setup.Init.{Stage, checked, ignored, create_epoll}

-- select.cpp
abbrev pub select_server : List Stage
select_server = checked setsockopt ∷ checked bind ∷ checked (listen 128) ∷ []

-- selectretype.cpp
abbrev pub select_retype : List Stage
select_retype = select_server

-- selectthread.cpp
abbrev pub select_thread : List Stage
select_thread = select_server

-- stretype.cpp
abbrev pub select_thread_retype : List Stage
select_thread_retype = select_server

-- selectthread_tp.cpp
abbrev pub select_thread_pool : List Stage
select_thread_pool = select_server

-- pollserver.cpp
abbrev pub poll_server : List Stage
poll_server = select_server

-- pollthread.cpp
abbrev pub poll_thread : List Stage
poll_thread = select_server

-- pollthread_tp.cpp
abbrev pub poll_thread_pool : List Stage
poll_thread_pool = select_server

-- epollserver.cpp
abbrev pub epoll_server : List Stage
epoll_server =
    ignored setsockopt ∷ checked bind ∷ checked (listen 128) ∷ create_epoll ∷ checked epoll_add ∷ []

-- epollthread.cpp
abbrev pub epoll_thread : List Stage
epoll_thread =
    checked setsockopt ∷ checked bind ∷ checked (listen 128) ∷ create_epoll ∷ checked epoll_add ∷ []

-- epollthread_tp.cpp
abbrev pub epoll_thread_pool : List Stage
epoll_thread_pool =
    checked setsockopt
    ∷ checked bind
    ∷ checked (listen 1024)
    ∷ create_epoll
    ∷ checked epoll_add
    ∷ []

-- epollthread_tpet.cpp
abbrev pub epoll_edge : List Stage
epoll_edge = epoll_thread_pool

-- UDP_Server.cpp
abbrev pub udp_server : List Stage
udp_server = checked setsockopt ∷ checked bind ∷ []

-- TCP_MultiThreadServer.cpp
abbrev pub multi_thread : List Stage
multi_thread = checked bind ∷ checked (listen 128) ∷ []

-- Multithreadserverretype.cpp
abbrev pub multi_thread_retype : List Stage
multi_thread_retype = select_server

-- TCP_ServerCommunicateCpp.cpp
abbrev pub communicate_cpp : List Stage
communicate_cpp = multi_thread

-- ServerRetype.cpp
abbrev pub server_retype : List Stage
server_retype = multi_thread
