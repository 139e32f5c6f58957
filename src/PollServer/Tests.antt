-- ===== src/PollServer/Tests.antt =====
-- pollserver.cpp on a small operating system: a list of open descriptors, and the bytes that wait for each.
use cpp_backend.Prelude.{
  ℕ, ◌+◌, ◌≤◌, ◌≡◌, refl, ap, Bool, true, false, Option, none, some, List, [], ◌∷◌, ltb, ◌==◌,
  if◌then◌else◌, update, inl, inr, arith, Bool-cases,
}
use cpp_backend.PollServer.Os.{nothing, pollin, PollFd, Os, Documented}
use cpp_backend.PollServer.Server
use cpp_backend.PollServer.Table.{Inv}
use cpp_backend.PollServer.Loop.{poll_loop-safe, poll_round-Keeps, init-Inv}

-- Which descriptors are open, the next to be given, and the calls of recv so far.
record World : Type 0 where
  opened : ℕ → Bool
  next : ℕ
  turn : ℕ

-- poll reports all that it is asked for; the first message of all is one byte, and then the clients leave.
abbrev report : (ℕ → PollFd) → ℕ → ℕ → PollFd
report fds n i =
    if ltb i n
    then record {
      fd = (fds i).fd;
      events = (fds i).events;
      revents = if (fds i).events then pollin else nothing;
    }
    else fds i

abbrev small : Os
small = record {
  World = World;
  accept = λ l w. if w.opened w.next then (none, w) else (
    some w.next,
    record { opened = update w.opened w.next true; next = w.next + 1; turn = w.turn },
  );
  recv = λ fd n w. (
    if w.turn == 0 then 104 ∷ [] else [],
    record { opened = w.opened; next = w.next; turn = w.turn + 1 },
  );
  send = λ fd bs w. w;
  close = λ fd w. record { opened = update w.opened fd false; next = w.next; turn = w.turn };
  poll = λ fds n w. (some (n, report fds n), w);
  interrupted = λ w. ltb 9 w.turn;
  is_open = λ w. w.opened;
}

small-accept :
    (l fd : ℕ) (w w' : World)
    → small.accept l w ≡ (some fd, w')
    → (w.opened fd ≡ false) × (w'.opened fd ≡ true)
small-accept l fd w w' e = elim (Bool-cases (w.opened w.next)) [
  | inl taken ↦ absurd (ground arith)
  | inr free ↦ (ground arith, ground arith)
]

abbrev table_of : Option (ℕ × (ℕ → PollFd)) → ℕ → PollFd
table_of none = λ _. Server.unused
table_of (some (cnt, fds)) = fds

reported :
    (fds fds' : ℕ → PollFd) (n cnt i : ℕ) (w w' : World)
    → small.poll fds n w ≡ (some (cnt, fds'), w')
    → report fds n i ≡ fds' i
reported fds fds' n cnt i w w' e = ap (λ p. table_of p.0 i) e

small-Documented : Documented small
small-Documented = record {
  accept_fresh = small-accept;
  accept_keeps = λ l i w o. ground arith;
  recv_keeps = λ fd n i w o. o;
  send_keeps = λ fd i bs w o. o;
  poll_keeps = λ fds n i w o. o;
  close_gone = λ fd w. ground arith;
  close_keeps = λ fd i w o. ground arith;
  poll_fd = λ fds fds' n cnt i w w' e.
      let is : report fds n i ≡ fds' i = reported fds fds' n cnt i w w' e in
      elim (Bool-cases (ltb i n)) [
        | inl a ↦ (ground arith, ground arith)
        | inr b ↦ (ground arith, ground arith)
      ];
  poll_asked = λ fds fds' n cnt i w w' e inside r.
      let is : report fds n i ≡ fds' i = reported fds fds' n cnt i w w' e in
      elim (Bool-cases (fds i).events) [ inl a ↦ a | inr b ↦ absurd (ground arith) ];
  poll_rest = λ fds fds' n cnt i w w' e outside.
      let is : report fds n i ≡ fds' i = reported fds fds' n cnt i w w' e in ground arith;
}

abbrev booted : World
booted = record { opened = λ i. ltb i 4; next = 4; turn = 0 }

abbrev listening : Server.State small
listening = Server.init small 3 booted

listening-Inv : Inv small listening
listening-Inv = init-Inv small small-Documented 3 booted refl

poll_loop-safe_example :
    (t : Server.State small) × (Server.poll_loop small 3 listening ≡ some t) × Inv small t
poll_loop-safe_example = poll_loop-safe small small-Documented 3 listening listening-Inv

poll_round-Keeps_example :
    (t : Server.State small) × (Server.poll_round small listening ≡ some t)
    × Inv small t
    × (t.server_fd ≡ 3)
    × (4 ≤ t.size)
poll_round-Keeps_example = poll_round-Keeps small small-Documented listening listening-Inv

-- A client is accepted, sends a message, gets its answer and leaves.
abbrev clients_after : Option (Server.State small) → List ℕ
clients_after none = 0 ∷ []
clients_after (some s) = s.client_fds

one_client : clients_after (Server.poll_loop small 1 listening) ≡ 4 ∷ []
unfolding Server.poll_loop
one_client = refl
