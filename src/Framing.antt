-- ===== src/Framing.antt =====
-- Packets with a length prefix: Cpp_WebPrograming/package_sticking.cpp (the server) and package_client.cpp.
pub mod Net
pub mod Words
pub mod Loop
pub mod Server
pub mod Client
mod Tests
