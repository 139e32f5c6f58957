-- ===== src/Pool/Designs.antt =====
-- The four pools as designs of the machine.
use cpp_backend.Prelude.{ℕ, Bool, true, false, none, some, List, ◌==◌, ltb, not, get_elem?}
use cpp_backend.Pool.Machine.{Task, Design, all}

-- std::queue: the front.
abbrev pub front_only : List Task → ℕ → Bool
front_only q k = k == 0

-- compare::operator() of PriThreadPool.cpp: a.first < b.first puts b nearer to the top.
abbrev pub compare_tasks : Task → Task → Bool
compare_tasks a b = ltb a.pri b.pri

-- std::priority_queue::top: an element that none exceeds; which of several is not specified.
abbrev pub highest : List Task → ℕ → Bool
highest q k = elim (get_elem? q k) [ none ↦ false | some t ↦ all (λ u. not (compare_tasks t u)) q ]

-- Cpp_WebPrograming/threadpool.h
abbrev pub thread_pool : Design
thread_pool = record {
  checks_stop = true;
  fetch_sub = true;
  catches = false;
  may_take = front_only;
}

-- C++MultiThreadingProgram/ThreadPool.cpp
abbrev pub thread_pool_cpp : Design
thread_pool_cpp = record {
  checks_stop = false;
  fetch_sub = false;
  catches = false;
  may_take = front_only;
}

-- C++MultiThreadingProgram/ThreadPoolRetype.cpp
abbrev pub thread_pool_retype : Design
thread_pool_retype = record {
  checks_stop = false;
  fetch_sub = false;
  catches = false;
  may_take = front_only;
}

-- C++MultiThreadingProgram/PriThreadPool.cpp
abbrev pub pri_thread_pool : Design
pri_thread_pool = record {
  checks_stop = false;
  fetch_sub = false;
  catches = true;
  may_take = highest;
}

-- The copy of the class in Cpp_WebPrograming/selectthread_tp.cpp, which is that of threadpool.h
abbrev pub thread_pool_select : Design
thread_pool_select = thread_pool
