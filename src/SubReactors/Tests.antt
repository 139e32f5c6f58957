-- ===== src/SubReactors/Tests.antt =====
-- The four reactors that TCPServer of multithread_reactor.cpp starts, and their threads on a small operating system.
use cpp_backend.Prelude.{
  ℕ, suc, ◌+◌, ◌-◌, ◌≢◌, ◌==◌, if◌then◌else◌, some, List, [], ◌∷◌, ◌^◌, ◌<◌, ◌≤◌, ◌≡◌, refl, arith,
}
use cpp_backend.SubReactors.{init, get_next_sub_reactor, clients_of}
use cpp_backend.Reactor.Small.{small, small-Documented, booted}
use cpp_backend.SubReactors.Machine.{
  Step, accept, wait, handle, task, Result, goes, freed, run, start,
}
use cpp_backend.SubReactors.Safety.{run-never_freed}
use cpp_backend.SubReactors.Balance.{clients_of-even}
use cpp_backend.SubReactors.Overflow.{get_next_sub_reactor-cycles}

-- Before the counter overflows to a negative number, with four reactors
get_next_sub_reactor-cycles_example :
    (i : ℕ) × (i < 4)
    × ((get_next_sub_reactor (record { size = 4; next_reactor = 2 ^ 31 - 1 })).0 ≡ some i)
    × ((get_next_sub_reactor
          (get_next_sub_reactor (record { size = 4; next_reactor = 2 ^ 31 - 1 })).1).0
        ≡ some (if suc i == 4 then 0 else suc i))
get_next_sub_reactor-cycles_example =
    get_next_sub_reactor-cycles 4 (2 ^ 30) (omega arith) (omega arith) (omega arith) (2 ^ 31 - 1)
      (omega arith)

-- With three, which do not divide 2 ^ 32, the reactor 0 has two turns in a row when the counter comes back to 0.
overflow_three :
    ((get_next_sub_reactor (record { size = 3; next_reactor = 2 ^ 32 - 1 })).0 ≡ some 0)
    × ((get_next_sub_reactor (record { size = 3; next_reactor = 0 })).0 ≡ some 0)
unfolding get_next_sub_reactor
overflow_three = (refl, refl)

four_lem : (init 4).size ≡ 4
unfolding init
four_lem = refl

clients_of-even_example : clients_of 0 10 (init 4) ≤ clients_of 3 10 (init 4) + 1
clients_of-even_example =
    clients_of-even 4 10 0 3 (omega arith) (omega (arith, four_lem)) (omega (arith, four_lem))

ten_clients : clients_of 1 10 (init 4) ≡ 3
unfolding clients_of init
ten_clients = refl

-- A client comes, is read, leaves, and the next one gets its descriptor and another sub-reactor, and then the
-- reply to the first is sent.
abbrev two_clients : List Step
two_clients =
    accept ∷ wait 0 ∷ handle 0 ∷ wait 0 ∷ handle 0 ∷ accept ∷ task 0 ∷ wait 1 ∷ handle 1 ∷ []

run-never_freed_example : run small 3 two_clients (start small 3 4 booted) ≢ freed
run-never_freed_example = run-never_freed small small-Documented 3 4 two_clients booted

abbrev connections_of : Result small → ℕ
connections_of (goes s) = s.next
connections_of _ = 0

two_connections : connections_of (run small 3 two_clients (start small 3 4 booted)) ≡ 2
unfolding run init
two_connections = refl
