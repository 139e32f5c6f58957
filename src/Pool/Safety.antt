-- ===== src/Pool/Safety.antt =====
-- What the users of a pool may rely on: no task is lost or run twice, nobody sleeps while there is work, the
-- waiter is told, and the destructor waits for every task.
use cpp_backend.Prelude.{
  ℕ, ◌+◌, ◌<◌, ◌≡◌, ◌⊎◌, refl, true, false, some, List, [], ◌∷◌, length, total, arith, get_elem?,
  ◌++◌, total-pos, total-nil, nil_of_length, inl, inr,
}
use cpp_backend.Pool.Machine.{
  Design, Worker, top, checking, notifying, gone, blocked, looked, destroyed, State, Move, join,
  step, run, all, is_gone, init, join_step,
}
use cpp_backend.Pool.Invariant.{Inv, busy, at_top, sleeping, telling, pending, left}
use cpp_backend.Pool.Reach.{run-Inv, init-Inv, total-replicate}
use cpp_backend.Pool.Ledger.{
  TakesFront, times, is_job, runs_job, Accounts, run-InOrder, run-Accounts,
}

pub all_gone-left : (ws : List Worker) → all is_gone ws ≡ true → total left ws ≡ length ws
unfolding total
all_gone-left [] h = refl
all_gone-left (w ∷ ws) h = ground (arith, all_gone-left ws)

pub all_gone-weightless :
    (w : Worker → ℕ) → w gone ≡ 0 → (ws : List Worker) → all is_gone ws ≡ true → total w ws ≡ 0
unfolding total
all_gone-weightless w none_of [] h = refl
all_gone-weightless w none_of (gone ∷ ws) h = ground (arith, all_gone-weightless w none_of ws)
all_gone-weightless w none_of (_ ∷ ws) h = absurd (ground arith)

module _ (d : Design) (n m : ℕ) (ms : List Move) {s : State}
    (reached : run d ms (init n m) ≡ some s) where
  reached-Inv : Inv s
  reached-Inv = run-Inv d ms (init-Inv n m) reached

  reached-Accounts : (j : ℕ) → Accounts j s
  reached-Accounts j =
      run-Accounts d j ms
        (record {
          taken = omega (arith, total-nil (is_job j));
          run_so_far = omega (arith, total-nil (is_job j), total-replicate (runs_job j) top refl n);
        })
        reached

  -- In every state that a pool of any design reaches: task_count is the number of tasks that wait in the queue or
  -- that a worker has not yet counted off.
  pub task_count-exact : s.task_count ≡ length s.queue + total busy s.workers
  task_count-exact = reached-Inv.counted

  -- In every state that a pool of any design reaches: each task was submitted as often as it is in the queue, in
  -- the hands of a worker, or has ended, taken together.
  pub tasks_once :
      (j : ℕ)
      → times j s.submitted ≡ times j s.queue + total (runs_job j) s.workers + times j s.ended
  tasks_once j = omega (arith, (reached-Accounts j).taken, (reached-Accounts j).run_so_far)

  -- In every state that a pool of any design reaches: if tasks wait while a worker sleeps, and no client still has
  -- to call notify_one, then some worker is awake and about to look at the queue.
  pub no_idle_sleep :
      0 < length s.queue
      → 0 < total sleeping s.workers
      → total pending s.clients ≡ 0
      → (i : ℕ) × (get_elem? s.workers i ≡ some top)
  no_idle_sleep work lazy told =
      let (i, w, at, pos) = total-pos at_top s.workers (omega (arith, reached-Inv.awake lazy)) in
      (i, awake_at i w at pos)
    where
      awake_at :
          (i : ℕ) (w : Worker)
          → get_elem? s.workers i ≡ some w
          → 0 < at_top w
          → get_elem? s.workers i ≡ some top
      awake_at i top at pos = at
      awake_at i _ at pos = elim pos [ ]

  -- In every state that a pool of any design reaches: while the waiter is about to sleep or sleeps with task_count
  -- at 0, a worker is about to lock end_mtx and notify it, or about to find that it must.
  pub no_lost_notification :
      (s.waiter ≡ looked) ⊎ (s.waiter ≡ blocked)
      → s.task_count ≡ 0
      → (i : ℕ) × ((get_elem? s.workers i ≡ some notifying)
          ⊎ (get_elem? s.workers i ≡ some checking))
  no_lost_notification asleep_on none_left =
      let (i, w, at, pos) =
        total-pos telling s.workers (reached-Inv.told (ground arith) none_left) in
      (i, telling_at i w at pos)
    where
      telling_at :
          (i : ℕ) (w : Worker)
          → get_elem? s.workers i ≡ some w
          → 0 < telling w
          → (get_elem? s.workers i ≡ some notifying) ⊎ (get_elem? s.workers i ≡ some checking)
      telling_at i notifying at pos = inl at
      telling_at i checking at pos = inr at
      telling_at i _ at pos = elim pos [ ]

  -- If a pool of any design has workers, the destructor returns from its joins, and no task entered the queue
  -- after `stop` was set, then the queue is empty, task_count is 0, and every submitted task has run to its end.
  pub join_drains :
      {t : State}
      → s.late ≡ false
      → 0 < length s.workers
      → step d join s ≡ some t
      → (t.dtor ≡ destroyed)
        × (t.queue ≡ [])
        × (t.task_count ≡ 0)
        × ((j : ℕ) → times j t.ended ≡ times j t.submitted)
  unfolding step join_step
  join_drains {t} early some_worker e =
      let everyone : all is_gone s.workers ≡ true = ground arith in
      let empty : s.queue ≡ [] =
        nil_of_length s.queue
          (reached-Inv.drained (omega (arith, all_gone-left s.workers everyone)) early) in
      (
        ground arith,
        ground arith,
        ground (arith, task_count-exact, all_gone-weightless busy refl s.workers everyone),
        λ j. ground (
          arith,
          tasks_once j,
          all_gone-weightless (runs_job j) refl s.workers everyone,
          total-nil (is_job j),
        ),
      )

-- A pool whose queue is first in, first out starts its tasks in the order of their submission: those started, and
-- then those that wait, are those submitted.
pub first_in_first_out :
    (d : Design)
    → TakesFront d
    → (n m : ℕ) (ms : List Move) {s : State} → run d ms (init n m) ≡ some s
    → s.started ++ s.queue ≡ s.submitted
first_in_first_out d front n m ms {s} reached = run-InOrder d front ms (init n m) s refl reached
