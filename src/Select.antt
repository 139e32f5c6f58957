-- ===== src/Select.antt =====
-- The select servers of Cpp_WebPrograming: select.cpp, selectretype.cpp, selectthread.cpp, its copy stretype.cpp, and
-- selectthread_tp.cpp.
pub mod Os
pub mod Machine
pub mod Servers
pub mod Invariant
pub mod Blocks
pub mod Moves
pub mod Calls
pub mod Reach
pub mod Reuse
mod Tests
