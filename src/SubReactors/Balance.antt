-- ===== src/SubReactors/Balance.antt =====
-- getNextSubReactor spreads the clients evenly.
use native.Mathlib.Decide.{dec_lt, ℕ_discrete}
use native.Mathlib.Nat.{mod-lt, mod-le, suc-mod, mod_self, mod-eq_of_lt}
use cpp_backend.Prelude.{
  ℕ, zero, suc, ◌+◌, ◌-◌, ◌%◌, ◌^◌, ◌<◌, ◌≤◌, ◌≡◌, sym, ap, subst, ◌≢◌, ◌∙◌, leb, ◌==◌,
  if◌then◌else◌, arith,
}
use cpp_backend.SubReactors.{int_word, to_size_t, init, get_next_sub_reactor, clients_of}

-- How many calls after one that gives `r` the reactor `i` has its turn.
abbrev turns : ℕ → ℕ → ℕ → ℕ
turns size r i = if leb r i then i - r else i + size - r

pub positive : (c : ℕ) → c < 2 ^ 31 → to_size_t c ≡ c
unfolding to_size_t
positive c small = ground arith

-- An index that fits in an int is the one that is used.
pub idx_lem : (i : ℕ) → i < 2 ^ 31 → to_size_t (i % int_word) ≡ i
unfolding to_size_t
idx_lem i small =
    let same : i % int_word ≡ i = mod-eq_of_lt (omega (arith, small)) in
    ap to_size_t same ∙ ground arith

pub next_index :
    (size c r : ℕ) → 0 < size → c % size ≡ r → suc c % size ≡ (if suc r == size then 0 else suc r)
next_index size c r some_reactor at = elim (ℕ_discrete (suc r) size) [
  | yes last ↦
      suc-mod c size
      ∙ ap (λ k. suc k % size) at
      ∙ ap (λ k. k % size) last
      ∙ mod_self size
      ∙ ground arith
  | no inner ↦
      let r-bound : r < size = ground (arith, mod-lt c some_reactor) in
      suc-mod c size ∙ ap (λ k. suc k % size) at ∙ mod-eq_of_lt (omega arith) ∙ ground arith
]

clients_of-suc :
    (size c r i clients : ℕ)
    → 0 < size
    → c + 1 < 2 ^ 31
    → c % size ≡ r
    → clients_of i (suc clients) (record { size = size; next_reactor = c })
      ≡ clients_of i clients (record { size = size; next_reactor = suc c })
        + (if r == i then 1 else 0)
unfolding clients_of get_next_sub_reactor
clients_of-suc size c r i clients some_reactor small at =
    let bound : r ≤ c = subst (λ k. k ≤ c) at (mod-le c size) in
    let idx : to_size_t (to_size_t c % size % int_word) ≡ r =
      ap (λ k. to_size_t (k % size % int_word)) (positive c (omega (arith, small)))
      ∙ ap (λ k. to_size_t (k % int_word)) at
      ∙ idx_lem r (omega (arith, bound, small)) in
    let counter : (c + 1) % int_word ≡ suc c = mod-eq_of_lt (omega (arith, small)) ∙ omega arith in
    ground (arith, idx, counter)

-- Among the next clients, `i` gets as many as `j`, or one more.
abbrev IsAhead : ℕ → ℕ → ℕ → ℕ → ℕ → Type 0
IsAhead clients size c i j =
    (clients_of j clients (record { size = size; next_reactor = c })
      ≤ clients_of i clients (record { size = size; next_reactor = c }))
    × (clients_of i clients (record { size = size; next_reactor = c })
        ≤ clients_of j clients (record { size = size; next_reactor = c }) + 1)

none_yet : (size c i j : ℕ) → IsAhead 0 size c i j
unfolding clients_of
none_yet size c i j = (omega arith, omega arith)

abbrev after : ℕ → ℕ → ℕ
after size r = if suc r == size then 0 else suc r

turns_later :
    (size r i j : ℕ)
    → r < size
    → i < size
    → j < size
    → r ≢ i
    → r ≢ j
    → turns size r i ≤ turns size r j
    → turns size (after size r) i ≤ turns size (after size r) j
turns_later size r i j r_in i_in j_in other other' before = ground arith

turns_last :
    (size r j : ℕ) → r < size → j < size → turns size (after size r) j ≤ turns size (after size r) r
turns_last size r j r_in j_in = ground arith

in_turn :
    (clients size c r i j : ℕ)
    → 0 < size
    → c + clients < 2 ^ 31
    → c % size ≡ r
    → i < size
    → j < size
    → i ≢ j
    → turns size r i ≤ turns size r j
    → IsAhead clients size c i j
in_turn zero size c r i j some_reactor small at i_in j_in apart before = none_yet size c i j
in_turn (suc clients) size c r i j some_reactor small at i_in j_in apart before =
    let r_in : r < size = ground (arith, mod-lt c some_reactor) in
    let next : suc c % size ≡ after size r = next_index size c r some_reactor at in
    let more_i = clients_of-suc size c r i clients some_reactor (omega arith) at in
    let more_j = clients_of-suc size c r j clients some_reactor (omega arith) at in
    elim (ℕ_discrete r i) [
      | yes now ↦
          let (a, b) =
            in_turn clients size (suc c) (after size r) j i some_reactor (omega arith) next j_in
              i_in (λ e. apart (sym e))
              (subst (λ k. turns size (after size r) j ≤ turns size (after size r) k) now
                (turns_last size r j r_in j_in)) in
          (ground (arith, more_i, more_j), ground (arith, more_i, more_j))
      | no later ↦
          let later' : r ≢ j = λ e. absurd (ground arith) in
          let (a, b) =
            in_turn clients size (suc c) (after size r) i j some_reactor (omega arith) next i_in
              j_in apart (turns_later size r i j r_in i_in j_in later later' before) in
          (ground (arith, more_i, more_j), ground (arith, more_i, more_j))
    ]

spread :
    (size clients i j : ℕ)
    → 0 < size
    → clients < 2 ^ 31
    → i < size
    → j < size
    → clients_of i clients (record { size = size; next_reactor = 0 })
      ≤ clients_of j clients (record { size = size; next_reactor = 0 }) + 1
spread size clients i j some_reactor small i_in j_in = elim (ℕ_discrete i j) [
  | yes same ↦
      subst
        (λ k.
          clients_of i clients (record { size = size; next_reactor = 0 })
          ≤ clients_of k clients (record { size = size; next_reactor = 0 }) + 1)
        same (omega arith)
  | no apart ↦ elim (dec_lt j i) [
    | yes above ↦
        let (a, b) =
          in_turn clients size 0 0 j i some_reactor (omega arith) (mod-eq_of_lt some_reactor) j_in
            i_in (λ e. apart (sym e)) (ground arith) in
        omega arith
    | no below ↦
        let (a, b) =
          in_turn clients size 0 0 i j some_reactor (omega arith) (mod-eq_of_lt some_reactor) i_in
            j_in apart (ground arith) in
        omega arith
  ]
]

-- Of the first clients, as long as the counter does not overflow, no reactor gets more than one more than another.
pub clients_of-even :
    (sub_reactor_num clients i j : ℕ)
    → clients < 2 ^ 31
    → i < (init sub_reactor_num).size
    → j < (init sub_reactor_num).size
    → clients_of i clients (init sub_reactor_num) ≤ clients_of j clients (init sub_reactor_num) + 1
unfolding init
clients_of-even sub_reactor_num clients i j small i_in j_in =
    spread (init sub_reactor_num).size clients i j (ground arith) small i_in j_in
