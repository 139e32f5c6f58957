-- ===== src/SmartPtr/Unique/Programs.antt =====
-- Programs over unique_ptr: sequences of method calls that name living variables.
use native.Mathlib.Decide.{ℕ_discrete}
use cpp_backend.Prelude.{
  ℕ, ◌≡◌, refl, false, Option, none, some, List, [], ◌∷◌, ◌∙◌, After, ◌>>=◌, get_elem?, set,
  total-nil, total-set, le-total, arith, get_elem?-set_ne,
}
use cpp_backend.SmartPtr.Unique.{State, deref}
use cpp_backend.SmartPtr.Unique.Ownership.{
  holds, IsExclusive, Call, call, IsLegal, Runs, call-IsExclusive,
}

unfoldable pub run : List Call → State → Option State
run [] s = some s
run (c ∷ cs) s = do t ← call c s; run cs t

-- Each call names living variables at its turn.
abbrev pub AllLegal : List Call → State → Type 0
AllLegal [] s = Unit {0}
AllLegal (c ∷ cs) s = IsLegal c s × After (call c s) (AllLegal cs)

abbrev pub start : State
start = record { heap = record { object = λ _. false; count = λ _. none; next = 0 }; vars = [] }

-- From a state in which each object that is alive has one owner and no other has one, a program of legal calls
-- never faults, and ends in such a state.
pub run-IsExclusive : (cs : List Call) {s : State} → IsExclusive s → AllLegal cs s → Runs (run cs s)
unfolding run
run-IsExclusive [] inv legal = (_, refl, inv)
run-IsExclusive (c ∷ cs) inv (now, later) =
    let (t, e, inv') = call-IsExclusive c inv now in
    let (u, e', inv'') = run-IsExclusive cs inv' (rw e at later) in (u, rw e e', inv'')

pub start-IsExclusive : IsExclusive start
start-IsExclusive = record { exact = λ p. total-nil (holds p); fresh = λ p h. cc }

-- In a state in which each object that is alive has one owner and no other has one, two variables never hold the
-- same object.
pub holds-once :
    {s : State}
    → IsExclusive s
    → (i j p : ℕ) → get_elem? s.vars i ≡ some (some (some p))
    → get_elem? s.vars j ≡ some (some (some p))
    → i ≡ j
holds-once {s} inv i j p here there = elim (ℕ_discrete i j) [
  | yes same ↦ same
  | no differ ↦ absurd (
      ground (
        arith,
        inv.exact p,
        total-set (holds p) s.vars i none here,
        le-total (holds p) (set s.vars i none) j (get_elem?-set_ne s.vars i j none differ ∙ there),
      ))
]

-- In a state in which each object that is alive has one owner and no other has one, a unique_ptr that is not null
-- can be dereferenced: its object is alive.
pub deref-owned :
    {s : State}
    → IsExclusive s
    → (i p : ℕ) → get_elem? s.vars i ≡ some (some (some p))
    → deref i s ≡ some p
unfolding deref
deref-owned {s} inv i p h = ground (arith, inv.exact p, le-total (holds p) s.vars i h)
