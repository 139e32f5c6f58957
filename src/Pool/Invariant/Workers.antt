-- ===== src/Pool/Invariant/Workers.antt =====
-- Each step of a worker keeps the invariant of the pool.
use cpp_backend.Prelude.{
  ℕ, ◌+◌, ◌≤◌, ◌≡◌, some, total, arith, get_elem?, set, total-set, le-total, length-remove,
  Option-cases, inl, inr,
}
use cpp_backend.Pool.Machine.{
  Design, Worker, top, asleep, running, returned, checking, notifying, gone, State, take_step,
  sleep_step, exit_step, wake_step, finish_step, throw_step, decrement_step, check_step, tell_step,
}
use cpp_backend.Pool.Invariant.{busy, at_top, sleeping, telling, left, Inv}

module _ (s : State) (i : ℕ) where
  -- How the counts of workers change when worker `i`, at `w`, goes to `v`.
  pub record Moved (w v : Worker) : Type 0 where
    pub busy_now : total busy (set s.workers i v) + busy w ≡ total busy s.workers + busy v
    pub top_now : total at_top (set s.workers i v) + at_top w ≡ total at_top s.workers + at_top v
    pub sleeping_now :
        total sleeping (set s.workers i v) + sleeping w ≡ total sleeping s.workers + sleeping v
    pub telling_now :
        total telling (set s.workers i v) + telling w ≡ total telling s.workers + telling v
    pub left_now : total left (set s.workers i v) + left w ≡ total left s.workers + left v
    pub busy_here : busy w ≤ total busy s.workers

  pub moved : (w v : Worker) → get_elem? s.workers i ≡ some w → Moved w v
  moved w v at = record {
    busy_now = total-set busy s.workers i v at;
    top_now = total-set at_top s.workers i v at;
    sleeping_now = total-set sleeping s.workers i v at;
    telling_now = total-set telling s.workers i v at;
    left_now = total-set left s.workers i v at;
    busy_here = le-total busy s.workers i at;
  }

module _ {s t : State} (inv : Inv s) (d : Design) (i : ℕ) where
  pub sleep_step-Inv :
      (w : Worker) → get_elem? s.workers i ≡ some w → sleep_step i w s ≡ some t → Inv t
  unfolding sleep_step
  sleep_step-Inv top at e = ground (arith, moved s i top asleep at)
  sleep_step-Inv _ at e = absurd (cc)

  pub exit_step-Inv :
      (w : Worker) → get_elem? s.workers i ≡ some w → exit_step i w s ≡ some t → Inv t
  unfolding exit_step
  exit_step-Inv top at e = ground (arith, moved s i top gone at)
  exit_step-Inv _ at e = absurd (cc)

  pub wake_step-Inv :
      (w : Worker) → get_elem? s.workers i ≡ some w → wake_step i w s ≡ some t → Inv t
  unfolding wake_step
  wake_step-Inv asleep at e = ground (arith, moved s i asleep top at)
  wake_step-Inv _ at e = absurd (cc)

  pub take_step-Inv :
      (k : ℕ) (w : Worker) → get_elem? s.workers i ≡ some w → take_step d i k w s ≡ some t → Inv t
  unfolding take_step
  take_step-Inv k top at e = elim (Option-cases (get_elem? s.queue k)) [
    | inl nothing ↦ absurd (ground arith)
    | inr (u, here) ↦ ground (arith, moved s i top (running u) at, length-remove s.queue k here)
  ]
  take_step-Inv k _ at e = absurd (cc)

  pub finish_step-Inv :
      (w : Worker) → get_elem? s.workers i ≡ some w → finish_step i w s ≡ some t → Inv t
  unfolding finish_step
  finish_step-Inv (running u) at e = ground (arith, moved s i (running u) returned at)
  finish_step-Inv _ at e = absurd (cc)

  pub throw_step-Inv :
      (w : Worker) → get_elem? s.workers i ≡ some w → throw_step d i w s ≡ some t → Inv t
  unfolding throw_step
  throw_step-Inv (running u) at e = ground (arith, moved s i (running u) returned at)
  throw_step-Inv _ at e = absurd (cc)

  pub decrement_step-Inv :
      (w : Worker) → get_elem? s.workers i ≡ some w → decrement_step d i w s ≡ some t → Inv t
  unfolding decrement_step
  decrement_step-Inv returned at e = ground (
    arith,
    moved s i returned notifying at,
    moved s i returned top at,
    moved s i returned checking at,
  )
  decrement_step-Inv _ at e = absurd (cc)

  pub check_step-Inv :
      (w : Worker) → get_elem? s.workers i ≡ some w → check_step i w s ≡ some t → Inv t
  unfolding check_step
  check_step-Inv checking at e =
      ground (arith, moved s i checking notifying at, moved s i checking top at)
  check_step-Inv _ at e = absurd (cc)

  pub tell_step-Inv :
      (w : Worker) → get_elem? s.workers i ≡ some w → tell_step i w s ≡ some t → Inv t
  unfolding tell_step
  tell_step-Inv notifying at e = ground (arith, moved s i notifying top at)
  tell_step-Inv _ at e = absurd (cc)
