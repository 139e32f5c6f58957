-- ===== src/SmartPtr/Shared/Counting.antt =====
-- The invariant of shared_ptr: a counter holds the number of variables that own it.
use cpp_backend.Prelude.{
  ℕ, zero, suc, ◌<◌, ◌≡◌, true, Option, none, some, ◌==◌, if◌then◌else◌, get_elem?, length, total,
}
use cpp_backend.SmartPtr.Shared.{Shared, State, word}

-- Does the variable own the counter `c`?
abbrev pub owns : ℕ → Option Shared → ℕ
owns c none = 0
owns c (some v) = elim v.shared_count [ none ↦ 0 | some d ↦ if c == d then 1 else 0 ]

abbrev pub owners : ℕ → State → ℕ
owners c s = total (owns c) s.vars

-- A counter is allocated exactly while it has owners, and holds their number.
abbrev pub counted : ℕ → Option ℕ
counted zero = none
counted (suc n) = some (suc n)

-- A variable is null, or holds a counter `c` with the object `object_of c`.
abbrev pub Owner : (ℕ → ℕ) → Shared → Type 0
Owner object_of v = elim v.shared_count [
  | none ↦ v.ptr ≡ none
  | some c ↦ v.ptr ≡ some (object_of c)
]

pub record Inv (object_of : ℕ → ℕ) (s : State) : Type 0 where
  pub few : length s.vars < word
  pub exact : (c : ℕ) → s.heap.count c ≡ counted (owners c s)
  pub paired : (i : ℕ) (v : Shared) → get_elem? s.vars i ≡ some (some v) → Owner object_of v
  pub alive : (c : ℕ) → 0 < owners c s → s.heap.object (object_of c) ≡ true
  pub apart : (c d : ℕ) → 0 < owners c s → 0 < owners d s → object_of c ≡ object_of d → c ≡ d
  pub fresh_count : (c : ℕ) → 0 < owners c s → c < s.heap.next
  pub fresh_object : (p : ℕ) → s.heap.object p ≡ true → p < s.heap.next
  pub managed : (p : ℕ) → s.heap.object p ≡ true → (c : ℕ) × (0 < owners c s) × (object_of c ≡ p)
