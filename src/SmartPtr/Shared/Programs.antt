-- ===== src/SmartPtr/Shared/Programs.antt =====
-- Programs over shared_ptr: sequences of method calls that name living variables.
use cpp_backend.Prelude.{
  ℕ, ◌≡◌, refl, false, Option, none, some, List, [], ◌∷◌, After, ◌>>=◌, total-nil, arith,
}
use cpp_backend.SmartPtr.Shared.{State}
use cpp_backend.SmartPtr.Shared.Counting.{owns, Inv}
use cpp_backend.SmartPtr.Shared.Methods.{Call, call, IsLegal, call-Inv}

unfoldable pub run : List Call → State → Option State
run [] s = some s
run (c ∷ cs) s = do t ← call c s; run cs t

-- Each call names living variables at its turn.
abbrev pub AllLegal : List Call → State → Type 0
AllLegal [] s = Unit {0}
AllLegal (c ∷ cs) s = IsLegal c s × After (call c s) (AllLegal cs)

abbrev pub start : State
start = record { heap = record { object = λ _. false; count = λ _. none; next = 0 }; vars = [] }

pub start-Inv : Inv (λ c. c) start
start-Inv = record {
  few = omega arith;
  exact = λ c. rw (total-nil (owns c)) refl;
  paired = λ i v at. cc;
  alive = λ c pos. absurd (omega (arith, total-nil (owns c)));
  apart = λ c d pos _ e. absurd (omega (arith, total-nil (owns c)));
  fresh_count = λ c pos. absurd (omega (arith, total-nil (owns c)));
  fresh_object = λ p h. cc;
  managed = λ p h. absurd (cc);
}

-- From a state that satisfies the counting invariant, a program of legal calls, with no `reset`, never faults: no
-- counter or object is freed twice or used after it was freed. It ends in a state that satisfies the invariant.
pub run-Inv :
    (cs : List Call) {object_of : ℕ → ℕ} {s : State}
    → Inv object_of s
    → AllLegal cs s
    → (t : State) × (o : ℕ → ℕ) × (run cs s ≡ some t) × Inv o t
unfolding run
run-Inv [] inv legal = (_, _, refl, inv)
run-Inv (c ∷ cs) inv (now, later) =
    let (o, (t, e, inv')) = call-Inv c inv now in
    let (u, o', e', inv'') = run-Inv cs inv' (rw e at later) in (u, o', rw e e', inv'')
