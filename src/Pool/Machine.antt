-- ===== src/Pool/Machine.antt =====
-- The class ThreadPool as threads that interleave. A step is a critical section, an atomic access or a task;
-- what the files differ in is a `Design`. A condition variable is the set of threads that sleep on it.
use cpp_backend.Prelude.{
  ℕ, ◌+◌, ◌-◌, Bool, true, false, not, ◌&&◌, ◌||◌, Option, none, some, List, [], ◌∷◌, ◌++◌, ◌>>=◌,
  ◌>>◌, guard, ◌==◌, if◌then◌else◌, get_elem?, set, remove, replicate,
}

-- A queued std::function<void()>, with its priority where the pool has one.
pub record Task : Type 0 where
  pub pri : ℕ
  pub job : ℕ

-- What the pools of the repository differ in.
pub record Design : Type 0 where
  pub checks_stop : Bool  -- does `submit` refuse tasks once `stop` is set
  pub fetch_sub : Bool  -- is the last task found by the value of fetch_sub, or by a second load
  pub catches : Bool  -- does a worker catch what a task throws
  pub may_take : List Task → ℕ → Bool  -- may the task at this index of the queue be taken next

-- Where a worker stands in NewThread.
pub data Worker : Type 0 where
  top : Worker  -- head of the loop, or woken in `wait`: about to hold `mtx`
  asleep : Worker  -- in cv.wait
  running : Task → Worker  -- `task()`
  returned : Worker  -- before the decrement of task_count
  checking : Worker  -- before the load of `task_count == 0`
  notifying : Worker  -- before the lock of end_mtx
  gone : Worker  -- out of the loop

-- A thread that calls `submit`.
pub data Client : Type 0 where
  idle : Client
  accepted : Task → Client  -- past the test of `stop`, before the lock of `mtx`
  pushed : Client  -- before cv.notify_one

-- The thread in end_cv.wait(end_mtx, task_count == 0).
pub data Waiter : Type 0 where
  away : Waiter
  entering : Waiter  -- called, or woken: about to hold end_mtx and test
  looked : Waiter  -- the test failed; holds end_mtx
  blocked : Waiter
  released : Waiter

-- ~ThreadPool
pub data Destructor : Type 0 where
  waiting : Destructor
  stopped : Destructor  -- `stop` is set
  joining : Destructor  -- after cv.notify_all
  destroyed : Destructor

pub record State : Type 0 where
  pub queue : List Task
  pub stop : Bool
  pub task_count : ℕ
  pub workers : List Worker
  pub clients : List Client
  pub waiter : Waiter
  pub dtor : Destructor
  pub terminated : Bool  -- std::terminate, by an exception that left a worker
  -- What happened so far, in its order; the code does not keep it.
  pub submitted : List Task
  pub started : List Task
  pub ended : List Task
  pub late : Bool  -- did a task enter the queue after `stop` was set

-- The steps, with the worker `i` or the client `c` that makes them.
pub data Move : Type 0 where
  take : (i k : ℕ) → Move  -- wait returns, the task at index k is popped
  sleep : (i : ℕ) → Move  -- wait's test fails
  exit : (i : ℕ) → Move  -- `break`
  wake : (i : ℕ) → Move  -- a spurious wake
  finish : (i : ℕ) → Move  -- `task()` returns
  throw : (i : ℕ) → Move  -- `task()` throws
  decrement : (i : ℕ) → Move
  check : (i : ℕ) → Move
  tell : (i : ℕ) → Move  -- lock of end_mtx, end_cv.notify_one
  submit : (c : ℕ) (t : Task) → Move  -- call of `submit`, its test of `stop`
  push : (c : ℕ) → Move  -- the block that holds `mtx`
  signal : (c i : ℕ) → Move  -- cv.notify_one, which wakes worker i
  signal_none : (c : ℕ) → Move  -- cv.notify_one, when nobody sleeps
  enter : Move  -- end_cv.wait is called
  look : Move  -- its test, under end_mtx
  block : Move  -- it sleeps, and gives end_mtx up
  rouse : Move  -- a spurious wake of it
  set_stop : Move
  notify_all : Move
  join : Move

abbrev pub is_asleep : Worker → Bool
is_asleep asleep = true
is_asleep _ = false

abbrev pub is_gone : Worker → Bool
is_gone gone = true
is_gone _ = false

abbrev pub any {ℓ} : {A : Type ℓ} → (A → Bool) → List A → Bool
any p [] = false
any p (x ∷ xs) = p x || any p xs

abbrev pub all {ℓ} : {A : Type ℓ} → (A → Bool) → List A → Bool
all p [] = true
all p (x ∷ xs) = p x && all p xs

abbrev pub set_worker : State → ℕ → Worker → State
set_worker s i w = record s { workers = set s.workers i w }

abbrev pub set_client : State → ℕ → Client → State
set_client s c w = record s { clients = set s.clients c w }

abbrev pub is_empty {ℓ} : {A : Type ℓ} → List A → Bool
is_empty [] = true
is_empty (x ∷ xs) = false

-- The moves of a worker, by where it stands.
unfoldable pub take_step : Design → ℕ → ℕ → Worker → State → Option State
take_step d i k top s = do
  t ← get_elem? s.queue k
  guard (d.may_take s.queue k)
  some (record s {
    queue = remove s.queue k;
    workers = set s.workers i (running t);
    started = s.started ++ t ∷ [];
  })
take_step d i k _ s = none

unfoldable pub sleep_step : ℕ → Worker → State → Option State
sleep_step i top s = if is_empty s.queue && not s.stop then some (set_worker s i asleep) else none
sleep_step i _ s = none

unfoldable pub exit_step : ℕ → Worker → State → Option State
exit_step i top s = if s.stop && is_empty s.queue then some (set_worker s i gone) else none
exit_step i _ s = none

unfoldable pub wake_step : ℕ → Worker → State → Option State
wake_step i asleep s = some (set_worker s i top)
wake_step i _ s = none

unfoldable pub finish_step : ℕ → Worker → State → Option State
finish_step i (running t) s =
    some (record s { workers = set s.workers i returned; ended = s.ended ++ t ∷ [] })
finish_step i _ s = none

unfoldable pub throw_step : Design → ℕ → Worker → State → Option State
throw_step d i (running t) s =
    if d.catches
    then some (record s { workers = set s.workers i returned; ended = s.ended ++ t ∷ [] })
    else some (record s { terminated = true })
throw_step d i _ s = none

unfoldable pub decrement_step : Design → ℕ → Worker → State → Option State
decrement_step d i returned s = some (record s {
  task_count = s.task_count - 1;
  workers =
      set s.workers i
        (if d.fetch_sub then (if s.task_count == 1 then notifying else top) else checking);
})
decrement_step d i _ s = none

unfoldable pub check_step : ℕ → Worker → State → Option State
check_step i checking s = some (set_worker s i (if s.task_count == 0 then notifying else top))
check_step i _ s = none

-- What end_cv.notify_one does to the waiter; `none` while end_mtx is held.
unfoldable pub told : Waiter → Option Waiter
told looked = none
told blocked = some entering
told w = some w

unfoldable pub tell_step : ℕ → Worker → State → Option State
unfolding told
tell_step i notifying s = do
  w ← told s.waiter
  some (record s { workers = set s.workers i top; waiter = w })
tell_step i _ s = none

-- The moves of a client.
unfoldable pub submit_step : Design → ℕ → Task → Client → State → Option State
submit_step d c t idle s =
    if d.checks_stop && s.stop then some s else some (set_client s c (accepted t))
submit_step d c t _ s = none

unfoldable pub push_step : ℕ → Client → State → Option State
push_step c (accepted t) s = some (record s {
  queue = s.queue ++ t ∷ [];
  task_count = s.task_count + 1;
  clients = set s.clients c pushed;
  submitted = s.submitted ++ t ∷ [];
  late = s.late || s.stop;
})
push_step c _ s = none

unfoldable pub signal_step : ℕ → ℕ → Client → Worker → State → Option State
signal_step c i pushed asleep s =
    some (record s { clients = set s.clients c idle; workers = set s.workers i top })
signal_step c i _ _ s = none

unfoldable pub signal_none_step : ℕ → Client → State → Option State
signal_none_step c pushed s = if any is_asleep s.workers then none else some (set_client s c idle)
signal_none_step c _ s = none

-- The moves of the waiter.
unfoldable pub look_step : Waiter → State → Option State
look_step entering s = some (record s { waiter = if s.task_count == 0 then released else looked })
look_step _ s = none

unfoldable pub block_step : Waiter → State → Option State
block_step looked s = some (record s { waiter = blocked })
block_step _ s = none

unfoldable pub rouse_step : Waiter → State → Option State
rouse_step blocked s = some (record s { waiter = entering })
rouse_step _ s = none

unfoldable pub enter_step : Waiter → State → Option State
enter_step away s = some (record s { waiter = entering })
enter_step released s = some (record s { waiter = entering })
enter_step _ s = none

-- The moves of the destructor.
unfoldable pub set_stop_step : Destructor → State → Option State
set_stop_step waiting s = some (record s { stop = true; dtor = stopped })
set_stop_step _ s = none

abbrev pub woken : Worker → Worker
woken asleep = top
woken w = w

-- cv.notify_all
unfoldable pub wake_all : List Worker → List Worker
wake_all [] = []
wake_all (w ∷ ws) = woken w ∷ wake_all ws

unfoldable pub notify_all_step : Destructor → State → Option State
notify_all_step stopped s = some (record s { workers = wake_all s.workers; dtor = joining })
notify_all_step _ s = none

unfoldable pub join_step : Destructor → State → Option State
join_step joining s = if all is_gone s.workers then some (record s { dtor = destroyed }) else none
join_step _ s = none

-- One move, if the thread that makes it is at its place.
unfoldable pub move : Design → Move → State → Option State
unfolding take_step sleep_step exit_step wake_step finish_step throw_step decrement_step check_step
    tell_step submit_step push_step signal_step signal_none_step look_step block_step rouse_step
    enter_step set_stop_step notify_all_step join_step
move d (take i k) s = get_elem? s.workers i >>= λ w. take_step d i k w s
move d (sleep i) s = get_elem? s.workers i >>= λ w. sleep_step i w s
move d (exit i) s = get_elem? s.workers i >>= λ w. exit_step i w s
move d (wake i) s = get_elem? s.workers i >>= λ w. wake_step i w s
move d (finish i) s = get_elem? s.workers i >>= λ w. finish_step i w s
move d (throw i) s = get_elem? s.workers i >>= λ w. throw_step d i w s
move d (decrement i) s = get_elem? s.workers i >>= λ w. decrement_step d i w s
move d (check i) s = get_elem? s.workers i >>= λ w. check_step i w s
move d (tell i) s = get_elem? s.workers i >>= λ w. tell_step i w s
move d (submit c t) s = get_elem? s.clients c >>= λ w. submit_step d c t w s
move d (push c) s = get_elem? s.clients c >>= λ w. push_step c w s
move d (signal c i) s =
    get_elem? s.clients c >>= λ w. get_elem? s.workers i >>= λ v. signal_step c i w v s
move d (signal_none c) s = get_elem? s.clients c >>= λ w. signal_none_step c w s
move d enter s = enter_step s.waiter s
move d look s = look_step s.waiter s
move d block s = block_step s.waiter s
move d rouse s = rouse_step s.waiter s
move d set_stop s = set_stop_step s.dtor s
move d notify_all s = notify_all_step s.dtor s
move d join s = join_step s.dtor s

-- After std::terminate nothing moves.
unfoldable pub step : Design → Move → State → Option State
unfolding move
step d m s = if s.terminated then none else move d m s

unfoldable pub run : Design → List Move → State → Option State
unfolding step
run d [] s = some s
run d (m ∷ ms) s = step d m s >>= λ t. run d ms t

-- ThreadPool(int): `n` workers at the head of their loops; `m` threads that will submit.
abbrev pub init : ℕ → ℕ → State
init n m = record {
  queue = [];
  stop = false;
  task_count = 0;
  workers = replicate n top;
  clients = replicate m idle;
  waiter = away;
  dtor = waiting;
  terminated = false;
  submitted = [];
  started = [];
  ended = [];
  late = false;
}
