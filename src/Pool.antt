-- ===== src/Pool.antt =====
-- The thread pools: Cpp_WebPrograming/threadpool.h, and ThreadPool.cpp, ThreadPoolRetype.cpp and
-- PriThreadPool.cpp of C++MultiThreadingProgram.
pub mod Machine
pub mod Designs
pub mod Invariant
pub mod Reach
pub mod Ledger
pub mod Safety
pub mod Progress
pub mod Order
pub mod Highest
mod Tests
