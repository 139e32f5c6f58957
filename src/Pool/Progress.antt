-- ===== src/Pool/Progress.antt =====
-- The destructor is never stuck in its joins: every worker that is not out of its loop can go on. And what
-- happens to a task that is pushed too late.
use cpp_backend.Prelude.{
  ℕ, zero, suc, ◌+◌, ◌<◌, ◌≤◌, ◌≡◌, ◌≢◌, ◌⊎◌, refl, true, false, some, List, [], ◌∷◌, length, arith,
  get_elem?, set, remove, nil_of_length, ◌-◌, ◌==◌, ◌∙◌, ◌++◌, le-total, get_elem?-set_self,
  >>=-eq-some, inl, inr, if◌then◌else◌,
}
use cpp_backend.Pool.Machine.{
  Task, Design, Worker, top, asleep, running, returned, checking, notifying, gone, Waiter, entering,
  blocked, looked, joining, State, Move, take, exit, finish, decrement, check, tell, block, move,
  step, run, all, is_gone, sleep, wake, throw, push, signal, notify_all, wake_all, init,
  finish_step, throw_step, push_step, Client, accepted,
}
use native.Mathlib.Decide.{dec_lt}
use cpp_backend.Pool.Invariant.{Inv, sleeping}
use cpp_backend.Pool.Reach.{run-Inv, init-Inv}
use cpp_backend.Pool.Ledger.{run_keeps}

-- The queue always has a task that may be taken, unless it is empty.
abbrev pub Offers : Design → Type 0
Offers d =
    (q : List Task)
    → 0 < length q
    → (k : ℕ) × (u : Task) × (get_elem? q k ≡ some u) × (d.may_take q k ≡ true)

-- Some move takes worker `i` on from where it stands, or lets the waiter go to sleep and free end_mtx.
abbrev pub Advances : Design → ℕ → State → Type 0
Advances d i s =
    (m : Move) × (t : State) × (step d m s ≡ some t)
    × ((get_elem? t.workers i ≢ get_elem? s.workers i) ⊎ (m ≡ block))

module _ (d : Design) (offers : Offers d) {s : State} (v : Inv s) (alive : s.terminated ≡ false)
    (ending : s.dtor ≡ joining) (i : ℕ) where
  changes :
      (w u : Worker)
      → get_elem? s.workers i ≡ some w
      → w ≢ u
      → get_elem? (set s.workers i u) i ≢ get_elem? s.workers i
  changes w u at differ e = differ (ground (arith, get_elem?-set_self s.workers i u at))

  -- Before end_cv.notify_one: end_mtx is free, or its holder can go to sleep.
  tell-Advances :
      (w : Waiter) → s.waiter ≡ w → get_elem? s.workers i ≡ some notifying → Advances d i s
  unfolding step
  tell-Advances looked is at = (block, record s { waiter = blocked }, ground arith, inr refl)
  tell-Advances blocked is at = (
    tell i,
    record s { workers = set s.workers i top; waiter = entering },
    ground arith,
    inl (changes notifying top at (λ e. cc)),
  )
  tell-Advances _ is at = (
    tell i,
    record s { workers = set s.workers i top },
    ground arith,
    inl (changes notifying top at (λ e. cc)),
  )

  by_place : (w : Worker) → get_elem? s.workers i ≡ some w → w ≢ gone → Advances d i s
  unfolding step
  by_place top at here = elim (dec_lt 0 (length s.queue)) [
    | yes work ↦
        let (k, u, first, may) = offers s.queue work in
        (
          take i k,
          record s {
            queue = remove s.queue k;
            workers = set s.workers i (running u);
            started = s.started ++ u ∷ [];
          },
          ground arith,
          inl (changes top (running u) at (λ e. cc)),
        )
    | no none_left ↦
        let empty : s.queue ≡ [] = nil_of_length s.queue (omega arith) in
        (
          exit i,
          record s { workers = set s.workers i gone },
          ground (arith, v.stopping),
          inl (changes top gone at (λ e. cc)),
        )
  ]
  by_place asleep at here = absurd (ground (arith, v.roused, le-total sleeping s.workers i at))
  by_place (running u) at here = (
    finish i,
    record s { workers = set s.workers i returned; ended = s.ended ++ u ∷ [] },
    ground arith,
    inl (changes (running u) returned at (λ e. cc)),
  )
  by_place returned at here =
      let next : Worker =
        if d.fetch_sub then (if s.task_count == 1 then notifying else top) else checking in
      (
        decrement i,
        record s { task_count = s.task_count - 1; workers = set s.workers i next },
        ground arith,
        inl (changes returned next at (λ e. ground arith)),
      )
  by_place checking at here =
      let next : Worker = if s.task_count == 0 then notifying else top in
      (
        check i,
        record s { workers = set s.workers i next },
        ground arith,
        inl (changes checking next at (λ e. ground arith)),
      )
  by_place notifying at here = tell-Advances s.waiter refl at
  by_place gone at here = absurd (here refl)

-- In every state that a pool reaches whose queue, when it is not empty, has a task that may be taken: while the
-- destructor joins and nothing was thrown, each worker that is not out of its loop can make its next step, or the
-- waiter can give up the lock that the worker waits for.
pub join_progress :
    (d : Design)
    → Offers d
    → (n m : ℕ) (ms : List Move) {s : State} → run d ms (init n m) ≡ some s
    → s.terminated ≡ false
    → s.dtor ≡ joining
    → (i : ℕ) {w : Worker} → get_elem? s.workers i ≡ some w
    → w ≢ gone
    → Advances d i s
join_progress d offers n m ms reached alive ending i {w} at here =
    by_place d offers (run-Inv d ms (init-Inv n m) reached) alive ending i w at here

all_gone-at :
    (ws : List Worker) (i : ℕ) (w : Worker)
    → all is_gone ws ≡ true
    → get_elem? ws i ≡ some w
    → is_gone w ≡ true
all_gone-at [] i w h at = cc
all_gone-at (x ∷ ws) zero w h at = ground arith
all_gone-at (x ∷ ws) (suc i) w h at = all_gone-at ws i w (ground arith) at

all_gone-wake : (ws : List Worker) → all is_gone ws ≡ true → all is_gone (wake_all ws) ≡ true
unfolding wake_all
all_gone-wake [] h = refl
all_gone-wake (w ∷ ws) h = ground (arith, all_gone-wake ws)

-- No worker is left, no task was started since `before`, and none was counted off.
pub record Stranded (before s : State) : Type 0 where
  pub nobody : all is_gone s.workers ≡ true
  pub same : s.started ≡ before.started
  pub more : before.task_count ≤ s.task_count

move-Stranded :
    (d : Design) (before : State) (m : Move) (s t : State)
    → Stranded before s
    → move d m s ≡ some t
    → Stranded before t
unfolding move
move-Stranded d b (take i k) s t v e = absurd (ground (arith, all_gone-at s.workers i top))
move-Stranded d b (sleep i) s t v e = absurd (ground (arith, all_gone-at s.workers i top))
move-Stranded d b (exit i) s t v e = absurd (ground (arith, all_gone-at s.workers i top))
move-Stranded d b (wake i) s t v e = absurd (ground (arith, all_gone-at s.workers i asleep))
move-Stranded d b (finish i) s t v e =
    let (w, at, e') = >>=-eq-some (get_elem? s.workers i) (λ w. finish_step i w s) e in
    absurd (ground (arith, all_gone-at s.workers i w v.nobody at))
move-Stranded d b (throw i) s t v e =
    let (w, at, e') = >>=-eq-some (get_elem? s.workers i) (λ w. throw_step d i w s) e in
    absurd (ground (arith, all_gone-at s.workers i w v.nobody at))
move-Stranded d b (decrement i) s t v e = absurd (ground (arith, all_gone-at s.workers i returned))
move-Stranded d b (check i) s t v e = absurd (ground (arith, all_gone-at s.workers i checking))
move-Stranded d b (tell i) s t v e = absurd (ground (arith, all_gone-at s.workers i notifying))
move-Stranded d b (signal c i) s t v e = absurd (ground (arith, all_gone-at s.workers i asleep))
move-Stranded d b notify_all s t v e = ground (arith, all_gone-wake s.workers)
move-Stranded d b _ s t v e = ground arith

push-effect :
    (c : ℕ) (w : Client) (s t : State)
    → push_step c w s ≡ some t
    → (t.workers ≡ s.workers) × (t.started ≡ s.started) × (t.task_count ≡ s.task_count + 1)
unfolding push_step
push-effect c (accepted u) s t e = ground arith
push-effect c _ s t e = absurd (cc)

-- `submit` tests `stop` before it takes the lock. A task that passed the test, and is pushed when the workers are
-- out of their loops, is never started, and task_count never gets back to 0, whatever happens next.
pub late_push_stranded :
    (d : Design) (c : ℕ) (ms : List Move) (s t r : State)
    → all is_gone s.workers ≡ true
    → move d (push c) s ≡ some t
    → run d ms t ≡ some r
    → (r.started ≡ s.started) × (0 < r.task_count)
unfolding move
late_push_stranded d c ms s t r nobody pushes e =
    let (w, at, e') = >>=-eq-some (get_elem? s.clients c) (λ w. push_step c w s) pushes in
    let (crew, same, counts) = push-effect c w s t e' in
    let v : Stranded t r =
      run_keeps (Stranded t) d (move-Stranded d t) ms
        (record { nobody = rw crew nobody; same = refl; more = omega arith }) e in
    (v.same ∙ same, omega (arith, v.more))
