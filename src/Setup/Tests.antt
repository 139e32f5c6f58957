-- ===== src/Setup/Tests.antt =====
-- `init` on a small operating system, in which epoll_ctl fails.
use cpp_backend.Prelude.{
  ℕ, ◌≡◌, refl, Bool, true, false, Option, none, some, if◌then◌else◌, ltb, update, arith,
}
use cpp_backend.Setup.Os.{Call, epoll_add, Os, Opens, Documented}
use cpp_backend.Setup.Init.{State, Outcome, returned, thrown, init}
use cpp_backend.Setup.Plans
use cpp_backend.Setup.Clean.{IsClean, init-IsClean}

abbrev works : Call → Bool
works epoll_add = false
works _ = true

-- A call that makes a descriptor gives `fd`, unless it is open.
abbrev make : ℕ → (ℕ → Bool) → Option ℕ × (ℕ → Bool)
make fd w = if w fd then (none, w) else (some fd, update w fd true)

abbrev small : Os
small = record {
  World = ℕ → Bool;
  socket = make 3;
  epoll_create = make 4;
  call = λ c fd w. (works c, w);
  close = λ fd w. update w fd false;
  is_open = λ w. w;
}

make-Opens : (fd : ℕ) → Opens small (make fd)
make-Opens fd w i = (λ j e. ground arith, ground arith)

small-Documented : Documented small
small-Documented = record {
  socket_opens = make-Opens 3;
  epoll_opens = make-Opens 4;
  call_keeps = λ c fd w i. refl;
  close_lem = λ fd i w. ground arith;
}

abbrev booted : ℕ → Bool
booted i = ltb i 3

init-IsClean_example : IsClean small small-Documented booted (init small Plans.epoll_thread booted)
init-IsClean_example = init-IsClean small small-Documented booted Plans.epoll_thread (omega arith)

-- epoll_ctl fails, after epoll_create gave 4.
abbrev thrown_state : State small
thrown_state = elim (init small Plans.epoll_thread_pool booted) [ returned s ↦ s | thrown s ↦ s ]

is_thrown : Outcome small → Bool
is_thrown (thrown s) = true
is_thrown (returned s) = false

plans_run : is_thrown (init small Plans.epoll_server booted) ≡ true
unfolding is_thrown init
plans_run = refl

plans_return : is_thrown (init small Plans.poll_server booted) ≡ false
unfolding is_thrown init
plans_return = refl
