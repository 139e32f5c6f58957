-- ===== src/Udp.antt =====
-- Cpp_WebPrograming/UDP_Server.cpp and UDP_Client.cpp.
pub mod Os
pub mod Buffer
pub mod Server
pub mod Client
pub mod Refine
pub mod Echo
mod Tests
