-- ===== src/Pool/Tests.antt =====
-- Schedules of the pools, and the theorems at concrete runs.
use cpp_backend.Prelude.{
  ℕ, ◌+◌, ◌<◌, ◌≡◌, ◌⊎◌, inr, refl, true, Option, none, some, List, [], ◌∷◌, ◌++◌, length, total,
  arith, get_elem?,
}
use cpp_backend.Pool.Machine.{
  Task, Client, wake_all, top, asleep, running, gone, State, Move, take, sleep, exit, finish,
  decrement, tell, submit, push, signal, signal_none, enter, look, block, set_stop, notify_all,
  join, step, run, move, init, blocked, joining, destroyed, checking, notifying,
}
use cpp_backend.Pool.Invariant.{busy}
use cpp_backend.Pool.Designs.{thread_pool}
use cpp_backend.Pool.Ledger.{times, runs_job}
use cpp_backend.Pool.Safety.{
  task_count-exact, tasks_once, no_idle_sleep, no_lost_notification, join_drains,
}
use cpp_backend.Pool.Order.{front-Offers}
use cpp_backend.Pool.Progress.{Advances, join_progress, late_push_stranded}

abbrev task_1 : Task
task_1 = record { pri = 1; job = 1 }

abbrev task_2 : Task
task_2 = record { pri = 2; job = 2 }

-- The state after a run that is known to succeed.
abbrev final : (r : Option State) → State
final none = init 0 0
final (some s) = s

-- Two workers, one client, which submits two tasks; worker 0 took the first, worker 1 sleeps.
abbrev busy_moves : List Move
busy_moves =
    sleep 1 ∷ submit 0 task_1 ∷ push 0 ∷ take 0 0 ∷ signal 0 1 ∷ submit 0 task_2 ∷ push 0 ∷ []

abbrev busy_pool : State
busy_pool = record (init 2 1) {
  queue = task_2 ∷ [];
  task_count = 2;
  workers = running task_1 ∷ top ∷ [];
  clients = Client.pushed ∷ [];
  submitted = task_1 ∷ task_2 ∷ [];
  started = task_1 ∷ [];
}

busy_reached : run thread_pool busy_moves (init 2 1) ≡ some busy_pool
unfolding run
busy_reached = refl

task_count-exact_example :
    busy_pool.task_count ≡ length busy_pool.queue + total busy busy_pool.workers
task_count-exact_example = task_count-exact thread_pool 2 1 busy_moves busy_reached

tasks_once_example :
    times 1 busy_pool.submitted
    ≡ times 1 busy_pool.queue + total (runs_job 1) busy_pool.workers + times 1 busy_pool.ended
tasks_once_example = tasks_once thread_pool 2 1 busy_moves busy_reached 1

-- Worker 1 sleeps again, worker 0 was notified of a new task.
abbrev lazy_moves : List Move
lazy_moves = sleep 1 ∷ sleep 0 ∷ submit 0 task_1 ∷ push 0 ∷ signal 0 0 ∷ []

abbrev lazy_pool : State
lazy_pool = record (init 2 1) {
  queue = task_1 ∷ [];
  task_count = 1;
  workers = top ∷ asleep ∷ [];
  submitted = task_1 ∷ [];
}

lazy_reached : run thread_pool lazy_moves (init 2 1) ≡ some lazy_pool
unfolding run
lazy_reached = refl

no_idle_sleep_example : (i : ℕ) × (get_elem? lazy_pool.workers i ≡ some top)
unfolding total
no_idle_sleep_example =
    no_idle_sleep thread_pool 2 1 lazy_moves lazy_reached (omega arith) (omega arith) refl

-- The waiter sleeps, and the last task was counted off.
abbrev told_moves : List Move
told_moves =
    submit 0 task_1
    ∷ push 0
    ∷ signal_none 0
    ∷ enter
    ∷ look
    ∷ block
    ∷ take 0 0
    ∷ finish 0
    ∷ decrement 0
    ∷ []

abbrev told_pool : State
told_pool = record (init 1 1) {
  workers = notifying ∷ [];
  waiter = blocked;
  submitted = task_1 ∷ [];
  started = task_1 ∷ [];
  ended = task_1 ∷ [];
}

told_reached : run thread_pool told_moves (init 1 1) ≡ some told_pool
unfolding run
told_reached = refl

no_lost_notification_example :
    (i : ℕ) × ((get_elem? told_pool.workers i ≡ some notifying)
      ⊎ (get_elem? told_pool.workers i ≡ some checking))
no_lost_notification_example =
    no_lost_notification thread_pool 1 1 told_moves told_reached (inr refl) refl

-- The destructor is called while a task waits: the worker still runs it.
abbrev ending_moves : List Move
ending_moves =
    submit 0 task_1
    ∷ push 0
    ∷ signal_none 0
    ∷ set_stop
    ∷ notify_all
    ∷ take 0 0
    ∷ finish 0
    ∷ decrement 0
    ∷ tell 0
    ∷ []

abbrev ending_pool : State
ending_pool = record (init 1 1) {
  stop = true;
  dtor = joining;
  submitted = task_1 ∷ [];
  started = task_1 ∷ [];
  ended = task_1 ∷ [];
}

ending_reached : run thread_pool ending_moves (init 1 1) ≡ some ending_pool
unfolding run wake_all
ending_reached = refl

join_progress_example : Advances thread_pool 0 ending_pool
join_progress_example =
    join_progress thread_pool front-Offers 1 1 ending_moves ending_reached refl refl 0 refl
      (λ e. cc)

abbrev drained_moves : List Move
drained_moves = ending_moves ++ exit 0 ∷ []

abbrev drained_pool : State
drained_pool = record ending_pool { workers = gone ∷ [] }

drained_reached : run thread_pool drained_moves (init 1 1) ≡ some drained_pool
unfolding run wake_all
drained_reached = refl

drained_join : step thread_pool join drained_pool ≡ some (record drained_pool { dtor = destroyed })
unfolding step
drained_join = refl

join_drains_example :
    (destroyed ≡ destroyed)
    × (◌≡◌ {A = List Task} [] [])
    × (◌≡◌ {A = ℕ} 0 0)
    × ((j : ℕ) → times j (task_1 ∷ []) ≡ times j (task_1 ∷ []))
join_drains_example =
    join_drains thread_pool 1 1 drained_moves drained_reached refl (omega arith) drained_join

-- A client passed the test of `stop` before the destructor began.
abbrev too_late : State
too_late = record drained_pool { clients = Client.accepted task_2 ∷ [] }

late_push_stranded_example : (task_1 ∷ [] ≡ task_1 ∷ []) × (◌<◌ 0 1)
unfolding run move
late_push_stranded_example =
    late_push_stranded thread_pool 0 (signal_none 0 ∷ []) too_late
      (record too_late {
        queue = task_2 ∷ [];
        task_count = 1;
        clients = Client.pushed ∷ [];
        submitted = task_1 ∷ task_2 ∷ [];
        late = true;
      })
      (record too_late {
        queue = task_2 ∷ [];
        task_count = 1;
        clients = Client.idle ∷ [];
        submitted = task_1 ∷ task_2 ∷ [];
        late = true;
      })
      refl refl refl

-- Two tasks wait; the one with the higher priority is started, and throws.
abbrev pri_waiting : State
pri_waiting = record (init 1 1) {
  queue = task_1 ∷ task_2 ∷ [];
  task_count = 2;
  submitted = task_1 ∷ task_2 ∷ [];
}

abbrev pri_started : State
pri_started = record pri_waiting {
  queue = task_1 ∷ [];
  workers = running task_2 ∷ [];
  started = task_2 ∷ [];
}
