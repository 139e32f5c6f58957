-- ===== src/Select/Tests.antt =====
-- The select servers on a small operating system: a list of what is open, and whether a client has sent a text.
use cpp_backend.Prelude.{
  ℕ, ◌≤◌, ◌≡◌, refl, Bool, true, false, ◌||◌, none, some, List, [], ◌∷◌, ltb, ◌==◌, if◌then◌else◌,
  update, arith, Bool-cases, inl, inr,
}
use cpp_backend.DescendingSet.{has}
use cpp_backend.Select.Os.{Os, Documented, SmallDescriptors}
use cpp_backend.Select.Servers.{thread_per_event}
use cpp_backend.Select.Machine.{
  closing, State, select, scan, add, job, run, start, select_thread_pool,
}
use cpp_backend.Select.Invariant.{is_adding}
use cpp_backend.Select.Reach.{run-tracked}
use cpp_backend.Select.Reuse.{selects_closed}

record World : Type 0 where
  opened : ℕ → Bool
  text : List ℕ

-- accept gives 4 whenever it is free, and all that is asked for is ready.
abbrev small : Os
small = record {
  World = World;
  accept = λ l w.
      if w.opened 4
      then (none, w)
      else (some 4, record { opened = update w.opened 4 true; text = w.text });
  recv = λ fd n w. (w.text, record { opened = w.opened; text = [] });
  send = λ fd bs w. w;
  close = λ fd w. record { opened = update w.opened fd false; text = w.text };
  select = λ n f w. (some f, w);
  eintr = λ w. true;
  interrupted = λ w. false;
  is_open = λ w. w.opened;
}

small-accept :
    (l fd : ℕ) (w w' : World)
    → small.accept l w ≡ (some fd, w')
    → (w.opened fd ≡ false) × ((i : ℕ) → w'.opened i ≡ (i == fd || w.opened i))
small-accept l fd w w' e = elim (Bool-cases (w.opened 4)) [
  | inl taken ↦ absurd (ground arith)
  | inr free ↦ (ground arith, λ i. ground arith)
]

small-accept_none :
    (l i : ℕ) (w w' : World) → small.accept l w ≡ (none, w') → w'.opened i ≡ w.opened i
small-accept_none l i w w' e = elim (Bool-cases (w.opened 4)) [
  | inl taken ↦ ground arith
  | inr free ↦ absurd (ground arith)
]

small-Documented : Documented small
small-Documented = record {
  accept_fresh = small-accept;
  accept_none = small-accept_none;
  recv_keeps = λ fd n i w. refl;
  send_keeps = λ fd i bs w. refl;
  select_keeps = λ n i f w. refl;
  select_asked = λ n i f g w w' e h. ground arith;
  close_gone = λ fd w. ground arith;
  close_keeps = λ fd i w differ. ground arith;
}

small-SmallDescriptors : SmallDescriptors small
small-SmallDescriptors l fd w w' e = elim (Bool-cases (w.opened 4)) [
  | inl taken ↦ absurd (ground arith)
  | inr free ↦ let is : fd ≡ 4 = ground arith in omega arith
]

abbrev booted : World
booted = record { opened = λ i. ltb i 4; text = [] }

-- The server is 1: the scan comes to it in its second step.
abbrev one_client : State small
one_client = record {
  max_fd = 4;
  read_fds = update (update (λ _. false) 1 true) 4 true;
  client_fds = 4 ∷ [];
  jobs = [];
  scanning = some (record { ready = update (λ _. false) 1 true; cur_max_fd = 1; fd = 2 });
  adding = none;
  looping = true;
  overrun = false;
  world = record { opened = update (λ i. ltb i 4) 4 true; text = [] };
}

one_comes :
    run small 1 select_thread_pool (select ∷ scan ∷ scan ∷ add ∷ []) (start small 1 booted)
    ≡ some one_client
unfolding run
one_comes = refl

run-tracked_example :
    (one_client.overrun ≡ false)
    × (one_client.looping ≡ true
        → (i : ℕ) → one_client.read_fds i ≡ (i == 1 || has i one_client.client_fds))
    × (1 ≤ one_client.max_fd)
    × ((i : ℕ) → has i one_client.client_fds ≡ true → i ≤ one_client.max_fd)
    × ((i : ℕ) → small.is_open booted i ≡ true → small.is_open one_client.world i ≡ true)
    × ((i : ℕ)
        → small.is_open one_client.world i ≡ true
        → is_adding one_client.adding i ≡ false
        → (small.is_open booted i || has i one_client.client_fds) ≡ true)
run-tracked_example =
    run-tracked small small-Documented small-SmallDescriptors 1 select_thread_pool
      (select ∷ scan ∷ scan ∷ add ∷ []) booted one_client refl (omega arith) one_comes

abbrev both_closing : State small
both_closing = record one_client {
  jobs = closing 4 ∷ closing 4 ∷ [];
  scanning = some (record { ready = λ i. i == 1; cur_max_fd = 4; fd = 1 });
}

selects_closed_example :
    (t : State small) × (thread_per_event small 1 (job 0 ∷ scan ∷ job 0 ∷ add ∷ []) both_closing
      ≡ some t)
    × (t.read_fds 4 ≡ true)
    × (small.is_open t.world 4 ≡ false)
selects_closed_example =
    selects_closed small small-Documented 1 4 4 (λ i. i == 1) [] both_closing
      (record { opened = update (update both_closing.world.opened 4 false) 4 true; text = [] }) refl
      refl refl refl (omega arith) refl
