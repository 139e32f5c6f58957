-- ===== src/Setup/Init.antt =====
-- `init`, `error` and the destructor, over the list of calls that a file makes after `socket`. The clients, of which
-- there are none during `init`, are closed elsewhere.
use cpp_backend.Prelude.{ℕ, true, false, Option, none, some, List, [], ◌∷◌}
use cpp_backend.Setup.Os.{Call, shutdown, epoll_mod, Os}

-- A call of `init`, and what it does when the call fails.
pub data Stage : Type 0 where
  checked : Call → Stage  -- calls error
  ignored : Call → Stage  -- goes on
  create_epoll : Stage  -- calls error

-- The fields: `none` is -1.
pub record State (os : Os) : Type 0 where
  pub server_fd : Option ℕ
  pub epfd : Option ℕ
  pub world : os.World

pub data Outcome (os : Os) : Type 0 where
  returned : State os → Outcome os
  thrown : State os → Outcome os

module _ (os : Os) where
  abbrev pub close_if : Option ℕ → os.World → os.World
  close_if none w = w
  close_if (some fd) w = os.close fd w

  -- error(msg), which forgets the number of server_fd and not that of epfd
  unfoldable pub error : State os → Outcome os
  error s = thrown (record {
    server_fd = none;
    epfd = s.epfd;
    world = close_if s.epfd (close_if s.server_fd s.world);
  })

  unfoldable pub run_stages : List Stage → State os → Outcome os
  unfolding error
  run_stages [] s = returned s
  run_stages (checked c ∷ stages) s =
      let r = os.call c s.server_fd s.world in
      let rest = run_stages stages (record s { world = r.1 }) in
      elim r.0 [ true ↦ rest | false ↦ error (record s { world = r.1 }) ]
  run_stages (ignored c ∷ stages) s =
      run_stages stages (record s { world = (os.call c s.server_fd s.world).1 })
  run_stages (create_epoll ∷ stages) s =
      let r = os.epoll_create s.world in
      let rest = run_stages stages (record s { epfd = r.0; world = r.1 }) in
      elim r.0 [ some e ↦ rest | none ↦ error (record s { world = r.1 }) ]

  -- init(), with the calls after `socket`
  unfoldable pub init : List Stage → os.World → Outcome os
  unfolding error run_stages
  init stages w =
      let r : Option ℕ × os.World = os.socket w in
      let s : State os = record { server_fd = r.0; epfd = none; world = r.1 } in
      elim r.0 [ some fd ↦ run_stages stages s | none ↦ error s ]

  -- ~TCPServer() of the servers whose destructor does not call stop(), of the descriptors that `init` opens
  unfoldable pub destroy : State os → os.World
  destroy s = close_if s.epfd (close_if s.server_fd s.world)

  -- stop() of epollthread_tp.cpp and epollthread_tpet.cpp, up to is_running. With the pool as `init` leaves it, without
  -- a task, the wait for the task_count 0 that ends it returns at once.
  unfoldable pub stop : State os → os.World
  stop s =
      let w : os.World = elim s.server_fd [
        | none ↦ s.world
        | some fd ↦ (os.call shutdown s.server_fd s.world).1
      ] in
      elim s.epfd [ none ↦ w | some e ↦ (os.call (epoll_mod e) s.server_fd w).1 ]

  -- ~TCPServer() of these two
  unfoldable pub stop_and_destroy : State os → os.World
  unfolding stop destroy
  stop_and_destroy s = destroy (record s { world = stop s })
