-- ===== src/Pool/Order.antt =====
-- The queues of the pools: both always offer a task, the FIFO queue the oldest, the priority queue a highest one.
use cpp_backend.Prelude.{
  ℕ, suc, ◌≤◌, ◌≡◌, refl, Bool, true, false, some, List, [], ◌∷◌, arith, get_elem?, not, ltb,
  >>=-eq-some, ◌∙◌,
}
use native.Mathlib.Decide.{dec_lt}
use cpp_backend.Pool.Machine.{
  Task, Design, State, Worker, running, Move, move, throw, throw_step, sleep, run, all,
}
use cpp_backend.Pool.Designs.{thread_pool, pri_thread_pool}
use cpp_backend.Pool.Ledger.{TakesFront, run_keeps}
use cpp_backend.Pool.Progress.{Offers}

pub front-Offers : Offers thread_pool
front-Offers [] h = elim h [ ]
front-Offers (u ∷ q) h = (0, u, refl, refl)

pub front-TakesFront : TakesFront thread_pool
front-TakesFront q k h = ground arith

-- No task of the list has a higher priority than `p`.
abbrev pub none_above : ℕ → List Task → Bool
none_above p q = all (λ u. not (ltb p u.pri)) q

none_above_mono : (p r : ℕ) (q : List Task) → p ≤ r → none_above p q ≡ true → none_above r q ≡ true
none_above_mono p r [] h a = refl
none_above_mono p r (u ∷ q) h a = ground (arith, none_above_mono p r q h)

best :
    (x : Task) (q : List Task)
    → (k : ℕ) × (u : Task) × (get_elem? (x ∷ q) k ≡ some u) × (none_above u.pri (x ∷ q) ≡ true)
best x [] = (0, x, refl, ground arith)
best x (y ∷ q) =
    let (k, u, at, top_of) = best y q in
    elim (dec_lt x.pri u.pri) [
      | yes lower ↦ (suc k, u, at, ground arith)
      | no above ↦
          (0, x, refl, ground (arith, none_above_mono u.pri x.pri (y ∷ q) (omega arith) top_of))
    ]

pub highest-Offers : Offers pri_thread_pool
highest-Offers [] h = elim h [ ]
highest-Offers (x ∷ q) h =
    let (k, u, at, top_of) = best x q in (k, u, at, ground (arith, at, top_of))

throw-survives :
    (d : Design) (i : ℕ) (w : Worker) (s t : State)
    → d.catches ≡ true
    → throw_step d i w s ≡ some t
    → t.terminated ≡ s.terminated
unfolding throw_step
throw-survives d i (running u) s t h e = ground arith
throw-survives d i _ s t h e = absurd (cc)

move-survives :
    (d : Design)
    → d.catches ≡ true
    → (m : Move) (s t : State) → s.terminated ≡ false
    → move d m s ≡ some t
    → t.terminated ≡ false
unfolding move
move-survives d h (throw i) s t v e =
    let (w, at, e') = >>=-eq-some (get_elem? s.workers i) (λ w. throw_step d i w s) e in
    throw-survives d i w s t h e' ∙ v
move-survives d h (sleep i) s t v e = ground arith
move-survives d h _ s t v e = ground arith

-- A pool that catches what its tasks throw is not terminated by any run from a state in which it is not
-- terminated.
pub run-survives :
    (d : Design)
    → d.catches ≡ true
    → (ms : List Move) (s t : State) → s.terminated ≡ false
    → run d ms s ≡ some t
    → t.terminated ≡ false
run-survives d h ms s t = run_keeps (λ s. s.terminated ≡ false) d (move-survives d h) ms
