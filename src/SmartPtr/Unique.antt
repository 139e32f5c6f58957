-- ===== src/SmartPtr/Unique.antt =====
-- unique_ptr of CppProjects/mysmartptr/include/smartpointer.hpp. The unique_ptr objects of the program stand in
-- `vars`, at their addresses; a method takes the address of `this`. Copies are deleted functions.
pub mod Ownership
pub mod Programs
use cpp_backend.Prelude.{
  ℕ, ◌≡◌, Bool, true, false, Option, none, some, List, [], ◌∷◌, ◌++◌, ◌>>=◌, ◌==◌, if◌then◌else◌,
  get_elem?, set,
}
use cpp_backend.SmartPtr.Store.{Store, new_object, delete_object}

-- The field `ptr` of each variable: `some none` is a null pointer, `none` no living variable.
pub record State : Type 0 where
  pub heap : Store
  pub vars : List (Option (Option ℕ))

abbrev pub put : ℕ → Option (Option ℕ) → State → State
put i v s = record s { vars = set s.vars i v }

unfoldable pub ptr : ℕ → State → Option (Option ℕ)
ptr i s = elim (get_elem? s.vars i) [ none ↦ none | some v ↦ v ]

-- unique_ptr(T* p)
unfoldable pub construct : Option ℕ → State → State
construct p s = record s { vars = s.vars ++ some p ∷ [] }

-- make_unique<T>(args)
unfoldable pub make_unique : State → State
unfolding new_object construct
make_unique s = let (p, m) = new_object s.heap in construct (some p) (record s { heap = m })

-- unique_ptr(unique_ptr&& other)
unfoldable pub move_construct : ℕ → State → Option State
unfolding ptr
move_construct j s = do
  p ← ptr j s
  some (record s { vars = set s.vars j (some none) ++ some p ∷ [] })

-- operator=(unique_ptr&& other)
unfoldable pub move_assign : ℕ → ℕ → State → Option State
unfolding ptr delete_object
move_assign i j s = if i == j then some s else (do
  old ← ptr i s
  m ← delete_object old s.heap
  p ← ptr j s
  some (put j (some none) (put i (some p) (record s { heap = m }))))

-- ~unique_ptr(), after which the variable is gone
unfoldable pub destroy : ℕ → State → Option State
unfolding ptr delete_object
destroy i s = do
  old ← ptr i s
  m ← delete_object old s.heap
  some (put i none (put i (some none) (record s { heap = m })))

-- reset(T* otherptr)
unfoldable pub reset : ℕ → Option ℕ → State → Option State
unfolding ptr delete_object
reset i other s = do
  old ← ptr i s
  m ← delete_object old s.heap
  some (put i (some other) (record s { heap = m }))

-- get() and operator->()
unfoldable pub get : ℕ → State → Option (Option ℕ)
unfolding ptr
get i s = ptr i s

-- operator*(): the object that is read must be alive.
unfoldable pub deref : ℕ → State → Option ℕ
unfolding ptr
deref i s = do v ← ptr i s; p ← v; if s.heap.object p then some p else none

-- explicit operator bool()
unfoldable pub to_bool : ℕ → State → Option Bool
unfolding ptr
to_bool i s = do v ← ptr i s; some (elim v [ none ↦ false | some _ ↦ true ])
