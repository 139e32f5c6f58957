-- ===== src/SmartPtr/Shared/Outcomes.antt =====
-- What a whole program over shared_ptr may rely on.
use cpp_backend.Prelude.{ℕ, ◌≡◌, sym, subst, ◌∙◌, false, none, some, some_inj, List, get_elem?}
use cpp_backend.SmartPtr.Shared.{Shared, State, deref, get_count}
use cpp_backend.SmartPtr.Shared.Counting.{Inv}
use cpp_backend.SmartPtr.Shared.Methods.{Call}
use cpp_backend.SmartPtr.Shared.Programs.{run, AllLegal, start, start-Inv, run-Inv}
use cpp_backend.SmartPtr.Shared.Lifetime.{sharers, deref-living, get_count-sharers, no_leak}

module _ (cs : List Call) (t : State) (legal : AllLegal cs start) (e : run cs start ≡ some t) where
  ran-Inv : (o : ℕ → ℕ) × Inv o t
  ran-Inv =
      let (u, o, e', inv) = run-Inv cs start-Inv legal in
      (o, subst (Inv o) (some_inj (sym e' ∙ e)) inv)

  -- After a program of legal calls, with no `reset`, a variable that holds an object can be dereferenced, since the
  -- object is alive, and its get_count is the number of variables that point to the object.
  pub run-deref :
      (i p : ℕ) (v : Shared)
      → get_elem? t.vars i ≡ some (some v)
      → v.ptr ≡ some p
      → (deref i t ≡ some p) × (get_count i t ≡ some (sharers p t))
  run-deref i p v here to =
      let (o, inv) = ran-Inv in
      (deref-living inv i p {v = v} here to, get_count-sharers inv i p {v = v} here to)

  -- After a program of legal calls, with no `reset`, whose variables have all ended or are null, every object that it
  -- made and every counter has been freed.
  pub run-no_leak :
      ((i : ℕ) (v : Shared) → get_elem? t.vars i ≡ some (some v) → v.ptr ≡ none)
      → ((p : ℕ) → t.heap.object p ≡ false) × ((c : ℕ) → t.heap.count c ≡ none)
  run-no_leak nulls = let (o, inv) = ran-Inv in no_leak inv nulls
