-- ===== src/SmartPtr.antt =====
-- CppProjects/mysmartptr/include/smartpointer.hpp: unique_ptr and shared_ptr over a heap.
pub mod Store
pub mod Unique
pub mod Shared
mod Tests
