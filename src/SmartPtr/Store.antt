-- ===== src/SmartPtr/Store.antt =====
-- The memory that the smart pointers of CppProjects/mysmartptr/include/smartpointer.hpp work on:
-- the objects of type T, the counters (`size_t`) and the addresses that were never handed out.
-- `none` is undefined behaviour: a second `delete`, a read or write of a freed cell.
use cpp_backend.Prelude.{
  ℕ, suc, Bool, true, false, Option, none, some, ◌>>=◌, update, if◌then◌else◌,
}

pub record Store : Type 0 where
  pub object : ℕ → Bool  -- is there a living object at the address
  pub count : ℕ → Option ℕ  -- the counter at the address, if it is allocated
  pub next : ℕ  -- this address and all above were never allocated

-- new T(...)
unfoldable pub new_object : Store → ℕ × Store
new_object m = (m.next, record m { object = update m.object m.next true; next = suc m.next })

-- new size_t(n)
unfoldable pub new_count : ℕ → Store → ℕ × Store
new_count n m = (m.next, record m { count = update m.count m.next (some n); next = suc m.next })

-- delete p: nothing for nullptr, a fault for an object that is not alive.
unfoldable pub delete_object : Option ℕ → Store → Option Store
delete_object none m = some m
delete_object (some p) m =
    if m.object p then some (record m { object = update m.object p false }) else none

-- delete c, for a counter
unfoldable pub delete_count : ℕ → Store → Option Store
delete_count c m = do n ← m.count c; some (record m { count = update m.count c none })

-- *c and *c = n
unfoldable pub load_count : ℕ → Store → Option ℕ
load_count c m = m.count c

unfoldable pub store_count : ℕ → ℕ → Store → Option Store
store_count c n m = do old ← m.count c; some (record m { count = update m.count c (some n) })
