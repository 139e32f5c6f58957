-- ===== src/SubReactors.antt =====
-- The class ReactorThreadPool of Cpp_WebPrograming/multithread_reactor.cpp: which of its reactors gets a client.
pub mod Balance
pub mod Overflow
pub mod Machine
pub mod Invariant
pub mod Moves
pub mod Safety
mod Tests
use cpp_backend.Prelude.{
  ℕ, zero, suc, ◌+◌, ◌-◌, ◌%◌, ◌^◌, ◌<◌, ◌≡◌, Bool, true, false, Option, none, some, ltb, ◌==◌,
  if◌then◌else◌,
}

-- The size of the vector __sub_reactors, and the bits of the int __next_reactor.
pub record ReactorThreadPool : Type 0 where
  pub size : ℕ
  pub next_reactor : ℕ

-- int, and its conversion to size_t
abbrev pub int_word : ℕ
int_word = 2 ^ 32

unfoldable pub to_size_t : ℕ → ℕ
to_size_t bits = if ltb bits (2 ^ 31) then bits else bits + (2 ^ 64 - 2 ^ 32)

-- init(sub_reactor_num, work_pool), for a number that is not negative
unfoldable pub init : ℕ → ReactorThreadPool
init sub_reactor_num = record {
  size = if sub_reactor_num == 0 then 1 else sub_reactor_num;
  next_reactor = 0;
}

-- getNextSubReactor(): the index of the reactor, if there is one. The remainder, a size_t, becomes the int `idx`, and
-- that becomes a size_t again in __sub_reactors[idx].
unfoldable pub get_next_sub_reactor : ReactorThreadPool → Option ℕ × ReactorThreadPool
unfolding to_size_t
get_next_sub_reactor p = if p.size == 0 then (none, p) else (
  some (to_size_t (to_size_t p.next_reactor % p.size % int_word)),
  record { size = p.size; next_reactor = (p.next_reactor + 1) % int_word },
)

-- How many of the next clients the reactor `i` gets.
unfoldable pub clients_of : ℕ → ℕ → ReactorThreadPool → ℕ
unfolding get_next_sub_reactor
clients_of i zero p = 0
clients_of i (suc clients) p =
    let (r, q) = get_next_sub_reactor p in
    clients_of i clients q + elim r [ none ↦ 0 | some idx ↦ if idx == i then 1 else 0 ]
