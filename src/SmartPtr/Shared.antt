-- ===== src/SmartPtr/Shared.antt =====
-- shared_ptr of CppProjects/mysmartptr/include/smartpointer.hpp. The shared_ptr objects of the program stand in
-- `vars`, at their addresses; a method takes the address of `this`.
pub mod Counting
pub mod Release
pub mod Owning
pub mod Methods
pub mod Programs
pub mod Lifetime
pub mod Outcomes
use cpp_backend.Prelude.{
  ℕ, suc, ◌+◌, ◌-◌, ◌%◌, ◌^◌, ◌≡◌, Bool, true, false, Option, none, some, List, [], ◌∷◌, ◌++◌,
  ◌>>=◌, ◌==◌, if◌then◌else◌, get_elem?, set, length,
}
use cpp_backend.SmartPtr.Store.{
  Store, new_object, new_count, delete_object, delete_count, load_count, store_count,
}

pub record Shared : Type 0 where
  pub ptr : Option ℕ
  pub shared_count : Option ℕ

abbrev pub null_ptr : Shared
null_ptr = record { ptr = none; shared_count = none }

-- The heap, and the shared_ptr variables: `none` where no variable is alive.
pub record State : Type 0 where
  pub heap : Store
  pub vars : List (Option Shared)

-- size_t
abbrev pub word : ℕ
word = 2 ^ 64

-- The variable at an address, which must be alive.
unfoldable pub var : ℕ → State → Option Shared
var i s = elim (get_elem? s.vars i) [ none ↦ none | some v ↦ v ]

abbrev pub put : ℕ → Option Shared → State → State
put i v s = record s { vars = set s.vars i v }

-- (*shared_count)++, if there is a counter
unfoldable pub increment : Option ℕ → Store → Option Store
unfolding load_count store_count
increment none m = some m
increment (some c) m = do n ← load_count c m; store_count c ((n + 1) % word) m

-- The last owner frees the object and the counter, and is null.
unfoldable pub last_gone : ℕ → Option ℕ → ℕ → State → Option State
unfolding delete_object delete_count
last_gone i p c s = do
  m1 ← delete_object p s.heap
  m2 ← delete_count c m1
  some (put i (some null_ptr) (record s { heap = m2 }))

-- What `release` does once the counter `c` is known to be there.
unfoldable pub release_count : ℕ → Shared → ℕ → State → Option State
unfolding load_count store_count last_gone
release_count i v c s = do
  n ← load_count c s.heap
  let left = (n + word - 1) % word
  m ← store_count c left s.heap
  if left == 0 then last_gone i v.ptr c (record s { heap = m }) else some (record s { heap = m })

unfoldable pub release : ℕ → State → Option State
unfolding var release_count
release i s = do v ← var i s; elim v.shared_count [ none ↦ some s | some c ↦ release_count i v c s ]

-- shared_ptr(T* p), for a variable at the next address
unfoldable pub construct : Option ℕ → State → State
unfolding new_count
construct none s = record s { vars = s.vars ++ some null_ptr ∷ [] }
construct (some p) s =
    let (c, m) = new_count 1 s.heap in
    record { heap = m; vars = s.vars ++ some (record { ptr = some p; shared_count = some c }) ∷ [] }

-- make_shared<T>(args)
unfoldable pub make_shared : State → State
unfolding new_object construct
make_shared s = let (p, m) = new_object s.heap in construct (some p) (record s { heap = m })

-- shared_ptr(const shared_ptr& other)
unfoldable pub copy_construct : ℕ → State → Option State
unfolding var increment
copy_construct j s = do
  other ← var j s
  m ← increment other.shared_count s.heap
  some (record { heap = m; vars = s.vars ++ some other ∷ [] })

-- shared_ptr(shared_ptr&& other)
unfoldable pub move_construct : ℕ → State → Option State
unfolding var
move_construct j s = do
  other ← var j s
  some (record s { vars = set s.vars j (some null_ptr) ++ some other ∷ [] })

-- ~shared_ptr(), after which the variable is gone
unfoldable pub destroy : ℕ → State → Option State
unfolding release
destroy i s = do s1 ← release i s; some (put i none s1)

-- operator=(const shared_ptr& other)
unfoldable pub copy_assign : ℕ → ℕ → State → Option State
unfolding release var increment
copy_assign i j s = if i == j then some s else (do
  s1 ← release i s
  other ← var j s1
  m ← increment other.shared_count s1.heap
  some (put i (some other) (record s1 { heap = m })))

-- operator=(shared_ptr&& other)
unfoldable pub move_assign : ℕ → ℕ → State → Option State
unfolding release var
move_assign i j s = if i == j then some s else (do
  s1 ← release i s
  other ← var j s1
  some (put j (some null_ptr) (put i (some other) s1)))

-- reset()
unfoldable pub reset : ℕ → State → Option State
unfolding release
reset i s = release i s

-- get() and operator->()
unfoldable pub get : ℕ → State → Option (Option ℕ)
unfolding var
get i s = do v ← var i s; some v.ptr

-- operator*(): the object that is read must be alive.
unfoldable pub deref : ℕ → State → Option ℕ
unfolding var
deref i s = do v ← var i s; p ← v.ptr; if s.heap.object p then some p else none

-- explicit operator bool()
unfoldable pub to_bool : ℕ → State → Option Bool
unfolding var
to_bool i s = do v ← var i s; some (elim v.ptr [ none ↦ false | some _ ↦ true ])

-- get_count()
unfoldable pub get_count : ℕ → State → Option ℕ
unfolding var load_count
get_count i s = do v ← var i s; elim v.shared_count [ none ↦ some 0 | some c ↦ load_count c s.heap ]
