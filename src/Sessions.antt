-- ===== src/Sessions.antt =====
-- The blocking servers of Cpp_WebPrograming: TCP_MultiThreadServer.cpp, Multithreadserverretype.cpp,
-- TCP_ServerCommunicateCpp.cpp and ServerRetype.cpp.
pub mod Os
pub mod Server
pub mod Answers
pub mod Single
mod Tests
