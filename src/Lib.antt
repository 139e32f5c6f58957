-- ===== src/Lib.antt =====
-- Verification of the C++ backend library: its smart pointers, its thread pools, its framing of packets, its
-- servers over poll, epoll, select, UDP and blocking sockets, its reactors, its observers and its sorting.
--
-- SmartPtr: CppProjects/mysmartptr/include/smartpointer.hpp. SmartPtr/Store.antt is the heap: the objects that
-- are alive, and the counters with their values; freeing or reading what is not there is a fault, `none`.
-- SmartPtr/Unique.antt and SmartPtr/Shared.antt have one function for each method of unique_ptr and
-- shared_ptr. The variables of the program stand in a list, at their addresses; a method takes the address of
-- `this`, so that `a = a` and two variables with one object are what they are in C++. `Unique.Ownership.Call`
-- and `Shared.Methods.Call` are the calls that a program can make and `run` a program of them. A call is legal
-- if the variables that it names are alive; the counter is a size_t, so that a legal copy needs room for one
-- more owner. A call of shared_ptr::reset is not among the calls of a program, since it breaks the invariant. Destructors of the objects, and the types T, are not modelled.
--
-- Pool: Cpp_WebPrograming/threadpool.h, its copy in Cpp_WebPrograming/selectthread_tp.cpp, and the ThreadPool
-- classes of C++MultiThreadingProgram/ThreadPool.cpp, ThreadPoolRetype.cpp and PriThreadPool.cpp.
-- Pool/Machine.antt is the class as threads that interleave: workers in NewThread, clients in submit, a thread
-- that waits on end_cv, and the destructor. A step is a critical section, an atomic access or a task; `run`
-- takes any sequence of steps, and wake-ups may be spurious. What the files differ in is a record `Design`, of
-- which Pool/Designs.antt has one for each. The lists of submitted, started and ended tasks are added to the
-- state to state theorems about them. The threads of a pool are started by its constructor at the head of
-- their loops. That the scheduler is fair is not assumed, and not modelled; task_count does not overflow.
--
-- Framing: send_packet and recv_packet of Cpp_WebPrograming/package_client.cpp and package_sticking.cpp. recv
-- and send are parameters (Framing/Net.antt); the theorems take what they need of them as hypotheses, which
-- are the documented behaviour of stream sockets. Framing/Tests.antt has sockets that satisfy these. The loops
-- run on fuel: one more than the number of bytes to read, which is enough since each round reads at least one.
-- uint32_t wraps at 2 ^ 32. htonl and ntohl are those of a little-endian machine, as bytes in memory.
--
-- PollServer: the class TCPServer of Cpp_WebPrograming/pollserver.cpp. PollServer/Server.antt has its fields
-- from the end of init on, with the vector `fds` as its size and its elements; an access out of its bounds is
-- `none`. The operating system is a record of calls on a state of its own (PollServer/Os.antt), and
-- `Documented` is what is documented of these; SIGINT may arrive at any call, and `stop` then has cleared
-- is_running. poll_loop is run for a number of rounds, since it does not end by itself. The printed messages
-- are not modelled; for the calls that set the listening socket up, see Setup.
--
-- Epoll: the class TCPServer of Cpp_WebPrograming/epollserver.cpp, epollthread.cpp, epollthread_tp.cpp and
-- epollthread_tpet.cpp. Epoll/Machine.antt is one machine for the four, as the main thread and the threads or
-- pool tasks that it starts, in any interleaving: a step is a block that holds mtx, or a call of the operating
-- system; Epoll/Servers.antt names the four. The operating system is a record of calls (Epoll/Os.antt); that a
-- descriptor is open is its own, and the program does not see it. recv in epollthread_tpet.cpp is called in a
-- loop, so many times at most, which is enough if there are fewer bytes than that. What epoll reports is a
-- parameter: it may report a client any number of times. That a full queue or a signal interrupts a call is
-- part of its result.
--
-- Select: the class TCPServer of Cpp_WebPrograming/select.cpp, selectretype.cpp, selectthread.cpp, its copy
-- stretype.cpp, and selectthread_tp.cpp, as one machine of the same kind (Select/Machine.antt,
-- Select/Servers.antt). The fd_set is a function; an FD_SET outside of its 1024 bits is noted in the state. An
-- exception that error throws ends the loop. std::set<int, std::greater<int>> is a descending list
-- (DescendingSet.antt), also in PollServer.
--
-- Udp: Cpp_WebPrograming/UDP_Server.cpp and UDP_Client.cpp, after init (Udp/Server.antt, Udp/Client.antt). The
-- buffer is a list of 1024 bytes, which recvfrom overwrites at its front; a write out of its bounds is `none`.
-- The server without a buffer, which start_communicate is compared with, is respond_all of Udp/Refine.antt.
-- The while runs for a number of rounds, since it does not end by itself.
--
-- Sessions: the conversation with a client in Cpp_WebPrograming/TCP_MultiThreadServer.cpp,
-- Multithreadserverretype.cpp, TCP_ServerCommunicateCpp.cpp and ServerRetype.cpp (Sessions/Server.antt), and
-- the end of the two that serve one client. The operating system keeps what was read of the client and what
-- was sent to it (Sessions/Os.antt), and a bound on the texts still to come; one round more than that is
-- enough. The loop over accept is not modelled.
--
-- Strategy: BubbleSort and Sorter of Cpp_Design_Mode/StrategyMode.cpp, over any type with a comparison
-- (Strategy.antt).
--
-- Setup: `init`, `error` and the destructor of seventeen of the servers, before there are clients
-- (Setup/Init.antt): `init` runs a list of calls, and Setup/Plans.antt has the list of each file. The destructor
-- of epollthread_tp.cpp and epollthread_tpet.cpp, stop_and_destroy, calls stop() first, whose wait for the tasks of
-- the pool returns at once, since there are none yet. is_running is left out.
--
-- Texts: std::string(buffer), std::string's == and the texts that the servers put before an answer
-- (Texts.antt).
--
-- Reactor: Cpp_WebPrograming/reactor_server.cpp, and single_reactor.cpp, which has the same classes
-- (Reactor/Single.antt). Reactor/Server.antt has EventLoop, Connection and Acceptor: the Connections by their
-- addresses, what epoll_ctl was told, and the tasks given to the pool that have not run, each a descriptor and
-- its bytes; run_task runs one, in any order. A use
-- of a Connection that was deleted is `none`. epoll_wait is a parameter that may report what epoll_ctl was
-- told, each channel once (Reactor/Os.antt). handle_accept accepts so many clients at most, and the loop is
-- run for a number of rounds. Printing, fcntl and the calls that set the listening socket up are left out.
--
-- SubReactors: Cpp_WebPrograming/multithread_reactor.cpp. SubReactors.antt has the class ReactorThreadPool, as
-- far as it says which of its reactors gets the next client: __next_reactor is an int, whose bits are kept
-- modulo 2 ^ 32 and which is converted to a size_t of 64 bits; the remainder becomes an int and a size_t again. SubReactors/Machine.antt has the Acceptor of
-- the main reactor, the loops of the sub-reactors and the tasks of the pool as threads that interleave; an event is handled in one
-- step, which is sound since the descriptor is closed last. The operating system is that of Reactor/Os.antt,
-- with an interest list for each sub-reactor. The main reactor's own wait and the end of the server are not
-- modelled.
--
-- Observer: the class Subject of Cpp_Design_Mode/ObserverMode.cpp (Observer.antt). The observers and their
-- virtual `update` are a parameter; an `update` that calls attach or detach of the Subject that calls it is
-- left out.
--
-- Not modelled: the loops of Cpp_WebPrograming/pollthread.cpp and pollthread_tp.cpp, the TCP clients, the main
-- functions and what they print, the examples of threads and of the language in C++MultiThreadingProgram,
-- Cpp_OOP, Linux_Process and GNU_Debugger_Usage, the design patterns without state, and generated code.
pub mod DescendingSet
pub mod Texts
pub mod Udp
pub mod Select
pub mod Strategy
pub mod Sessions
pub mod Setup
pub mod Epoll
pub mod Observer
pub mod Prelude
pub mod SmartPtr
pub mod Pool
pub mod Framing
pub mod PollServer
pub mod Reactor
pub mod SubReactors
