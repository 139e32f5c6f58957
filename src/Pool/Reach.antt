-- ===== src/Pool/Reach.antt =====
-- Every state that a pool can reach satisfies the invariant.
use cpp_backend.Prelude.{
  ℕ, zero, suc, ◌≡◌, refl, some, List, [], ◌∷◌, total, arith, >>=-eq-some, some_inj, Bool-cases,
  inl, inr, replicate, subst,
}
use cpp_backend.Pool.Machine.{
  Design, top, State, Move, take, sleep, exit, wake, finish, throw, decrement, check, tell, submit,
  push, signal, signal_none, enter, look, block, rouse, set_stop, notify_all, join, move, step, run,
  init,
}
use cpp_backend.Pool.Invariant.{Inv, busy, sleeping, left}
use cpp_backend.Pool.Invariant.Workers.{
  take_step-Inv, sleep_step-Inv, exit_step-Inv, wake_step-Inv, finish_step-Inv, throw_step-Inv,
  decrement_step-Inv, check_step-Inv, tell_step-Inv,
}
use cpp_backend.Pool.Invariant.Others.{
  submit_step-Inv, push_step-Inv, signal_step-Inv, signal_none_step-Inv, enter_step-Inv,
  look_step-Inv, block_step-Inv, rouse_step-Inv, set_stop_step-Inv, notify_all_step-Inv,
  join_step-Inv,
}

move-Inv : (d : Design) (m : Move) {s t : State} → Inv s → move d m s ≡ some t → Inv t
unfolding move
move-Inv d (take i k) v e = let (w, at, e') = >>=-eq-some _ _ e in take_step-Inv v d i k w at e'
move-Inv d (sleep i) v e = let (w, at, e') = >>=-eq-some _ _ e in sleep_step-Inv v d i w at e'
move-Inv d (exit i) v e = let (w, at, e') = >>=-eq-some _ _ e in exit_step-Inv v d i w at e'
move-Inv d (wake i) v e = let (w, at, e') = >>=-eq-some _ _ e in wake_step-Inv v d i w at e'
move-Inv d (finish i) v e = let (w, at, e') = >>=-eq-some _ _ e in finish_step-Inv v d i w at e'
move-Inv d (throw i) v e = let (w, at, e') = >>=-eq-some _ _ e in throw_step-Inv v d i w at e'
move-Inv d (decrement i) v e =
    let (w, at, e') = >>=-eq-some _ _ e in decrement_step-Inv v d i w at e'
move-Inv d (check i) v e = let (w, at, e') = >>=-eq-some _ _ e in check_step-Inv v d i w at e'
move-Inv d (tell i) v e = let (w, at, e') = >>=-eq-some _ _ e in tell_step-Inv v d i w at e'
move-Inv d (submit c u) v e = let (w, at, e') = >>=-eq-some _ _ e in submit_step-Inv v d c u w at e'
move-Inv d (push c) v e = let (w, at, e') = >>=-eq-some _ _ e in push_step-Inv v d c w at e'
move-Inv d (signal c i) v e =
    let (w, at, e') = >>=-eq-some _ _ e in
    let (x, at', e'') = >>=-eq-some _ _ e' in signal_step-Inv v d c i w x at at' e''
move-Inv d (signal_none c) v e =
    let (w, at, e') = >>=-eq-some _ _ e in signal_none_step-Inv v d c w at e'
move-Inv d enter {s} v e = enter_step-Inv v s.waiter refl e
move-Inv d look {s} v e = look_step-Inv v s.waiter refl e
move-Inv d block {s} v e = block_step-Inv v s.waiter refl e
move-Inv d rouse {s} v e = rouse_step-Inv v s.waiter refl e
move-Inv d set_stop {s} v e = set_stop_step-Inv v s.dtor refl e
move-Inv d notify_all {s} v e = notify_all_step-Inv v s.dtor refl e
move-Inv d join {s} v e = join_step-Inv v s.dtor refl e

pub step-Inv : (d : Design) (m : Move) {s t : State} → Inv s → step d m s ≡ some t → Inv t
unfolding step
step-Inv d m {s} {t} v e = elim (Bool-cases s.terminated) [
  | inl dead ↦ absurd (ground arith)
  | inr running ↦ move-Inv d m v (ground arith)
]

pub total-replicate :
    {A : Type 0} (w : A → ℕ) (a : A) → w a ≡ 0 → (n : ℕ) → total w (replicate n a) ≡ 0
unfolding total
total-replicate w a h zero = refl
total-replicate w a h (suc n) = omega (arith, total-replicate w a h n)

pub init-Inv : (n m : ℕ) → Inv (init n m)
init-Inv n m = record {
  counted = omega (arith, total-replicate busy top refl n);
  awake = λ h. absurd (omega (arith, total-replicate sleeping top refl n));
  told = λ h e. absurd (cc);
  stopping = refl;
  leaving = λ h. absurd (omega (arith, total-replicate left top refl n));
  drained = λ h e. absurd (omega (arith, total-replicate left top refl n));
  roused = λ h. absurd (cc);
}

pub run-Inv : (d : Design) (ms : List Move) {s t : State} → Inv s → run d ms s ≡ some t → Inv t
unfolding run
run-Inv d [] v e = subst Inv (some_inj e) v
run-Inv d (m ∷ ms) v e =
    let (u, e', e'') = >>=-eq-some _ _ e in run-Inv d ms (step-Inv d m v e') e''
