-- ===== src/PollServer.antt =====
-- The server of Cpp_WebPrograming/pollserver.cpp: its table of descriptors and its loop over the ready ones.
pub mod Os
pub mod Server
pub mod Table
pub mod Clients
pub mod Loop
mod Tests
