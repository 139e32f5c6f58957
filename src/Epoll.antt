-- ===== src/Epoll.antt =====
-- The epoll servers of Cpp_WebPrograming: epollserver.cpp, epollthread.cpp, epollthread_tp.cpp and
-- epollthread_tpet.cpp, with the threads and pool tasks that they start.
pub mod Os
pub mod Machine
pub mod Servers
pub mod Invariant
pub mod Moves
pub mod Reach
pub mod Reuse
pub mod Edge
mod Tests
