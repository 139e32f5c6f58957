-- ===== src/SmartPtr/Tests.antt =====
-- The program of CppProjects/mysmartptr/test/main.cpp, and the theorems at concrete states.
use cpp_backend.Prelude.{
  ℕ, zero, suc, ◌≡◌, refl, false, none, some, List, [], ◌∷◌, arith, ◌>>=◌, ◌==◌, if◌then◌else◌,
  get_elem?, total,
}
use cpp_backend.SmartPtr.Shared.{
  Shared, State, get, get_count, to_bool, deref, destroy, reset, make_shared, copy_construct,
  move_construct, construct, copy_assign, move_assign,
}
use cpp_backend.SmartPtr.Shared.Counting.{Owner, Inv}
use cpp_backend.SmartPtr.Shared.Methods.{
  Call, makes, nulls, copies, moves, dies, assigns, takes, call, call-Inv,
}
use cpp_backend.SmartPtr.Shared.Programs.{run, start, start-Inv, run-Inv}
use cpp_backend.SmartPtr.Shared.Lifetime.{Parted, sharers, destroy-Parted, reset_dangles}
use cpp_backend.SmartPtr.Shared.Outcomes.{run-deref, run-no_leak}
use cpp_backend.SmartPtr.Unique
use cpp_backend.SmartPtr.Unique.Ownership
use cpp_backend.SmartPtr.Unique.Programs

-- p1 to p6 of the test program, up to the end of `main`.
abbrev main_calls : List Call
main_calls = makes ∷ copies 0 ∷ nulls ∷ assigns 2 1 ∷ moves 0 ∷ nulls ∷ takes 4 3 ∷ nulls ∷ []

-- The count that the program prints for p2 in the end.
main_count : (run main_calls start >>= λ s. get_count 1 s) ≡ some 3
unfolding run call get_count make_shared copy_construct construct copy_assign move_construct
    move_assign
main_count = refl

-- p1 and p4 are null after they were moved from.
main_moved : (run main_calls start >>= λ s. to_bool 0 s) ≡ some false
unfolding run call to_bool make_shared copy_construct construct copy_assign move_construct
    move_assign
main_moved = refl

abbrev main_scopes_end : List Call
main_scopes_end = dies 5 ∷ dies 4 ∷ dies 2 ∷ dies 1 ∷ []

abbrev two_calls : List Call
two_calls = makes ∷ copies 0 ∷ nulls ∷ assigns 2 1 ∷ dies 0 ∷ dies 1 ∷ dies 2 ∷ []

run-Inv_example : (t : State) × (o : ℕ → ℕ) × (run two_calls start ≡ some t) × Inv o t
unfolding call make_shared copy_construct construct copy_assign destroy
run-Inv_example = run-Inv two_calls start-Inv (
  omega arith,
  (
    (omega arith, (_, refl)),
    (omega arith, (((_, refl), (_, refl)), ((_, refl), ((_, refl), ((_, refl), tt))))),
  ),
)

-- Two variables share object 0 through the counter 1.
abbrev sharer : Shared
sharer = record { ptr = some 0; shared_count = some 1 }

abbrev shared_pair : State
shared_pair = record {
  heap = record { object = λ p. p == 0; count = λ c. if c == 1 then some 2 else none; next = 2 };
  vars = some sharer ∷ some sharer ∷ [];
}

shared_pair-paired :
    (i : ℕ) (v : Shared) → get_elem? shared_pair.vars i ≡ some (some v) → Owner (λ _. 0) v
shared_pair-paired zero v at = ground arith
shared_pair-paired (suc zero) v at = ground arith
shared_pair-paired (suc (suc i)) v at = cc

shared_pair-Inv : Inv (λ _. 0) shared_pair
unfolding total
shared_pair-Inv = record {
  few = omega arith;
  exact = λ c. ground arith;
  paired = shared_pair-paired;
  alive = λ c pos. refl;
  apart = λ c d p q e. ground arith;
  fresh_count = λ c pos. ground arith;
  fresh_object = λ p h. ground arith;
  managed = λ p h. (1, omega arith, ground arith);
}

call-Inv_example : (o : ℕ → ℕ) × ((t : State) × (call (assigns 0 1) shared_pair ≡ some t) × Inv o t)
call-Inv_example = call-Inv (assigns 0 1) shared_pair-Inv ((sharer, refl), (sharer, refl))

destroy-Parted_example :
    (t : State) × (destroy 0 shared_pair ≡ some t)
    × Parted shared_pair-Inv 0 0 {v = sharer} refl refl t
destroy-Parted_example = destroy-Parted shared_pair-Inv 0 0 {v = sharer} refl refl

reset_dangles_example :
    (t : State) × (u : State) × (reset 0 shared_pair ≡ some t)
    × (destroy 0 t ≡ some u)
    × (get 1 u ≡ some (some 0))
    × (deref 1 u ≡ none)
unfolding total
reset_dangles_example =
    reset_dangles shared_pair-Inv 0 1 0 {v = sharer} {w = sharer} (omega arith) refl refl refl refl
      refl

-- Two variables that share an object, and the state that they are in.
abbrev sharing_calls : List Call
sharing_calls = makes ∷ copies 0 ∷ []

abbrev sharing : State
sharing = elim (run sharing_calls start) [ some s ↦ s | none ↦ start ]

run-deref_example : (deref 1 sharing ≡ some 0) × (get_count 1 sharing ≡ some (sharers 0 sharing))
unfolding run call make_shared copy_construct construct
run-deref_example =
    run-deref sharing_calls sharing (omega arith, ((omega arith, (_, refl)), tt)) refl 1 0 sharer
      refl refl

-- Both are destroyed.
abbrev ending_calls : List Call
ending_calls = makes ∷ copies 0 ∷ dies 0 ∷ dies 1 ∷ []

abbrev ended : State
ended = elim (run ending_calls start) [ some s ↦ s | none ↦ start ]

ended-null : (i : ℕ) (v : Shared) → get_elem? (none ∷ none ∷ []) i ≡ some (some v) → v.ptr ≡ none
ended-null zero v at = absurd (cc)
ended-null (suc zero) v at = absurd (cc)
ended-null (suc (suc i)) v at = absurd (cc)

run-no_leak_example :
    ((p : ℕ) → ended.heap.object p ≡ false) × ((c : ℕ) → ended.heap.count c ≡ none)
unfolding run call make_shared copy_construct construct destroy
run-no_leak_example =
    run-no_leak ending_calls ended
      (omega arith, ((omega arith, (_, refl)), ((_, refl), ((_, refl), tt)))) refl ended-null

-- unique_ptr: one is moved to another, which is then reset to a new object.
abbrev unique_calls : List Ownership.Call
unique_calls =
    Ownership.makes
    ∷ Ownership.nulls
    ∷ Ownership.takes 1 0
    ∷ Ownership.renews 1
    ∷ Ownership.moves 1
    ∷ Ownership.resets 2
    ∷ Ownership.dies 2
    ∷ []

unique-run_example : Ownership.Runs (Programs.run unique_calls Programs.start)
unfolding Ownership.call Unique.make_unique Unique.construct Unique.move_assign Unique.reset
    Unique.move_construct Unique.destroy
unique-run_example =
    Programs.run-IsExclusive unique_calls Programs.start-IsExclusive
      (tt, (tt, (((_, refl), (_, refl)), ((_, refl), ((_, refl), ((_, refl), ((_, refl), tt)))))))

abbrev unique_pair : Unique.State
unique_pair = record {
  heap = record { object = λ p. p == 4; count = λ _. none; next = 5 };
  vars = some none ∷ some (some 4) ∷ [];
}

unique_pair-IsExclusive : Ownership.IsExclusive unique_pair
unfolding total
unique_pair-IsExclusive = record { exact = λ p. ground arith; fresh = λ p h. ground arith }

unique-call_example : Ownership.Runs (Ownership.call (Ownership.takes 0 1) unique_pair)
unique-call_example =
    Ownership.call-IsExclusive (Ownership.takes 0 1) unique_pair-IsExclusive
      ((none, refl), (some 4, refl))
