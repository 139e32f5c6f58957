-- ===== src/Setup.antt =====
-- How the servers of Cpp_WebPrograming open their sockets in `init`, give up in `error`, and close in the end.
pub mod Os
pub mod Init
pub mod Plans
pub mod Clean
pub mod Twice
mod Tests
