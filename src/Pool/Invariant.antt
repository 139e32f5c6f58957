-- ===== src/Pool/Invariant.antt =====
-- What holds of a pool whatever its threads do.
pub mod Workers
pub mod Others
use cpp_backend.Prelude.{
  ℕ, zero, ◌+◌, ◌<◌, ◌≤◌, ◌≡◌, Bool, true, false, Option, none, some, List, length, total,
}
use cpp_backend.Pool.Machine.{
  Design, Worker, top, asleep, running, returned, checking, notifying, gone, Client, idle, accepted,
  pushed, Waiter, away, entering, looked, blocked, released, Destructor, waiting, stopped, joining,
  destroyed, State,
}

-- A task that this worker has taken, and that task_count still counts.
abbrev pub busy : Worker → ℕ
busy (running t) = 1
busy returned = 1
busy _ = 0

abbrev pub at_top : Worker → ℕ
at_top top = 1
at_top _ = 0

abbrev pub sleeping : Worker → ℕ
sleeping asleep = 1
sleeping _ = 0

-- A worker that will test or has tested task_count before it notifies.
abbrev pub telling : Worker → ℕ
telling checking = 1
telling notifying = 1
telling _ = 0

abbrev pub left : Worker → ℕ
left gone = 1
left _ = 0

-- A client that still owes the workers a cv.notify_one.
abbrev pub pending : Client → ℕ
pending pushed = 1
pending _ = 0

abbrev pub is_waiting : Waiter → Bool
is_waiting looked = true
is_waiting blocked = true
is_waiting _ = false

abbrev pub has_stopped : Destructor → Bool
has_stopped waiting = false
has_stopped _ = true

abbrev pub has_roused : Destructor → Bool
has_roused joining = true
has_roused destroyed = true
has_roused _ = false

pub record Inv (s : State) : Type 0 where
  pub counted : s.task_count ≡ length s.queue + total busy s.workers
  pub awake :
      0 < total sleeping s.workers
      → length s.queue ≤ total pending s.clients + total at_top s.workers
  pub told : is_waiting s.waiter ≡ true → s.task_count ≡ 0 → 0 < total telling s.workers
  pub stopping : s.stop ≡ has_stopped s.dtor
  pub leaving : 0 < total left s.workers → s.stop ≡ true
  pub drained : 0 < total left s.workers → s.late ≡ false → length s.queue ≡ 0
  pub roused : has_roused s.dtor ≡ true → total sleeping s.workers ≡ 0
