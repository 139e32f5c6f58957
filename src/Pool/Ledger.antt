-- ===== src/Pool/Ledger.antt =====
-- Which tasks are where: every task that `submit` took is in the queue, in a worker, or done.
use mathlib.Core.List.{append_assoc}
use cpp_backend.Prelude.{
  ℕ, ◌+◌, ◌≡◌, refl, true, some, List, [], ◌∷◌, total, arith, get_elem?, set, remove, ◌++◌,
  >>=-eq-some, some_inj, Bool-cases, Option-cases, inl, inr, if◌then◌else◌, ◌==◌, total-set,
  total-remove, total-snoc, subst,
}
use cpp_backend.Pool.Machine.{
  Task, Design, Worker, top, asleep, running, returned, checking, notifying, gone, State, Move,
  take, sleep, exit, wake, finish, throw, decrement, check, tell, push, signal, notify_all, move,
  step, run, Client, accepted, take_step, finish_step, throw_step, push_step,
}
use cpp_backend.Pool.Invariant.Others.{wake_all-keeps}

-- First in, first out: what was started, and what still waits, is what was submitted, in that order.
abbrev pub InOrder : State → Type 0
InOrder s = s.started ++ s.queue ≡ s.submitted

-- Only the front of the queue is ever taken.
abbrev pub TakesFront : Design → Type 0
TakesFront d = (q : List Task) (k : ℕ) → d.may_take q k ≡ true → k ≡ 0

move_front :
    (xs q : List Task) (u : Task) → get_elem? q 0 ≡ some u → (xs ++ u ∷ []) ++ remove q 0 ≡ xs ++ q
move_front xs [] u h = cc
move_front xs (x ∷ q) u h = ground (arith, append_assoc xs (u ∷ []) q)

take-InOrder :
    (d : Design)
    → TakesFront d
    → (i k : ℕ) (w : Worker) (s t : State) → InOrder s
    → take_step d i k w s ≡ some t
    → InOrder t
unfolding take_step
take-InOrder d front i k top s t v e = elim (Option-cases (get_elem? s.queue k)) [
  | inl nothing ↦ absurd (ground arith)
  | inr (u, here) ↦ ground (arith, front s.queue k, move_front s.started s.queue u)
]
take-InOrder d front i k _ s t v e = absurd (cc)

push-InOrder : (c : ℕ) (w : Client) (s t : State) → InOrder s → push_step c w s ≡ some t → InOrder t
unfolding push_step
push-InOrder c (accepted u) s t v e = ground (arith, append_assoc s.started s.queue (u ∷ []))
push-InOrder c _ s t v e = absurd (cc)

move-InOrder :
    (d : Design)
    → TakesFront d
    → (m : Move) (s t : State) → InOrder s
    → move d m s ≡ some t
    → InOrder t
unfolding move
move-InOrder d front (take i k) s t v e =
    let (w, at, e') = >>=-eq-some (get_elem? s.workers i) (λ w. take_step d i k w s) e in
    take-InOrder d front i k w s t v e'
move-InOrder d front (push c) s t v e =
    let (w, at, e') = >>=-eq-some (get_elem? s.clients c) (λ w. push_step c w s) e in
    push-InOrder c w s t v e'
move-InOrder d front _ s t v e = ground arith

-- Is this the task with the job number `j`?
abbrev pub is_job : ℕ → Task → ℕ
is_job j u = if u.job == j then 1 else 0

abbrev pub runs_job : ℕ → Worker → ℕ
runs_job j (running u) = is_job j u
runs_job j _ = 0

-- How often the job number stands in a list of tasks.
abbrev pub times : ℕ → List Task → ℕ
times j ts = total (is_job j) ts

pub record Accounts (j : ℕ) (s : State) : Type 0 where
  pub taken : times j s.submitted ≡ times j s.started + times j s.queue
  pub run_so_far : times j s.started ≡ times j s.ended + total (runs_job j) s.workers

module _ (j i : ℕ) (s t : State) (v : Accounts j s) where
  take-Accounts :
      (d : Design) (k : ℕ) (w : Worker)
      → get_elem? s.workers i ≡ some w
      → take_step d i k w s ≡ some t
      → Accounts j t
  unfolding take_step
  take-Accounts d k top at e = elim (Option-cases (get_elem? s.queue k)) [
    | inl nothing ↦ absurd (ground arith)
    | inr (u, here) ↦ ground (
      arith,
      total-set (runs_job j) s.workers i (running u) at,
      total-remove (is_job j) s.queue k here,
      total-snoc (is_job j) s.started u,
    )
  ]
  take-Accounts d k _ at e = absurd (cc)

  finish-Accounts :
      (w : Worker) → get_elem? s.workers i ≡ some w → finish_step i w s ≡ some t → Accounts j t
  unfolding finish_step
  finish-Accounts (running u) at e =
      ground
        (arith, total-set (runs_job j) s.workers i returned at, total-snoc (is_job j) s.ended u)
  finish-Accounts _ at e = absurd (cc)

  throw-Accounts :
      (d : Design) (w : Worker)
      → get_elem? s.workers i ≡ some w
      → throw_step d i w s ≡ some t
      → Accounts j t
  unfolding throw_step
  throw-Accounts d (running u) at e =
      ground
        (arith, total-set (runs_job j) s.workers i returned at, total-snoc (is_job j) s.ended u)
  throw-Accounts d _ at e = absurd (cc)

  push-Accounts :
      (w : Client) → get_elem? s.clients i ≡ some w → push_step i w s ≡ some t → Accounts j t
  unfolding push_step
  push-Accounts (accepted u) at e =
      ground (arith, total-snoc (is_job j) s.submitted u, total-snoc (is_job j) s.queue u)
  push-Accounts _ at e = absurd (cc)

  -- A worker that goes from one place without a task to another.
  abbrev Goes : Worker → Worker → Type 0
  Goes w u =
      get_elem? s.workers i ≡ some w
      → total (runs_job j) (set s.workers i u) + runs_job j w
        ≡ total (runs_job j) s.workers + runs_job j u

  goes : (w u : Worker) → Goes w u
  goes w u at = total-set (runs_job j) s.workers i u at

move-Accounts :
    (d : Design) (m : Move) (j : ℕ) (s t : State)
    → Accounts j s
    → move d m s ≡ some t
    → Accounts j t
unfolding move
move-Accounts d (take i k) j s t v e =
    let (w, at, e') = >>=-eq-some _ _ e in take-Accounts j i s t v d k w at e'
move-Accounts d (finish i) j s t v e =
    let (w, at, e') = >>=-eq-some _ _ e in finish-Accounts j i s t v w at e'
move-Accounts d (throw i) j s t v e =
    let (w, at, e') = >>=-eq-some _ _ e in throw-Accounts j i s t v d w at e'
move-Accounts d (push c) j s t v e =
    let (w, at, e') = >>=-eq-some _ _ e in push-Accounts j c s t v w at e'
move-Accounts d (sleep i) j s t v e = ground (arith, goes j i s t v top asleep)
move-Accounts d (exit i) j s t v e = ground (arith, goes j i s t v top gone)
move-Accounts d (wake i) j s t v e = ground (arith, goes j i s t v asleep top)
move-Accounts d (decrement i) j s t v e = ground (
  arith,
  goes j i s t v returned notifying,
  goes j i s t v returned top,
  goes j i s t v returned checking,
)
move-Accounts d (check i) j s t v e =
    ground (arith, goes j i s t v checking notifying, goes j i s t v checking top)
move-Accounts d (tell i) j s t v e = ground (arith, goes j i s t v notifying top)
move-Accounts d (signal c i) j s t v e = ground (arith, goes j i s t v asleep top)
move-Accounts d notify_all j s t v e = ground (arith, wake_all-keeps (runs_job j) refl s.workers)
move-Accounts d _ j s t v e = ground arith

-- The rule for runs: what every move keeps, every run keeps.
module _ (P : State → Type 0) (d : Design)
    (keep : (m : Move) (s t : State) → P s → move d m s ≡ some t → P t) where
  pub run_keeps : (ms : List Move) {s t : State} → P s → run d ms s ≡ some t → P t
  unfolding run
  run_keeps [] v e = subst P (some_inj e) v
  run_keeps (m ∷ ms) {s} v e = elim (Bool-cases s.terminated) [
    | inl dead ↦ absurd (ground arith)
    | inr alive ↦
        let (u, e', e'') = >>=-eq-some (step d m s) (λ u. run d ms u) e in
        run_keeps ms (keep m s u v (ground arith)) e''
  ]

pub run-InOrder :
    (d : Design)
    → TakesFront d
    → (ms : List Move) (s t : State) → InOrder s
    → run d ms s ≡ some t
    → InOrder t
run-InOrder d front ms s t = run_keeps InOrder d (move-InOrder d front) ms

pub run-Accounts :
    (d : Design) (j : ℕ) (ms : List Move) {s t : State}
    → Accounts j s
    → run d ms s ≡ some t
    → Accounts j t
run-Accounts d j ms = run_keeps (Accounts j) d (λ m s t. move-Accounts d m j s t) ms
