-- ===== src/Reactor.antt =====
-- The reactor of Cpp_WebPrograming/reactor_server.cpp: one event loop, its acceptor and its connections.
pub mod Os
pub mod Server
pub mod Single
pub mod Safety
pub mod Stale
pub mod Small
mod Tests
