-- ===== src/SubReactors/Overflow.antt =====
-- getNextSubReactor around the overflow of __next_reactor.
use native.Mathlib.Decide.{dec_lt, ℕ_discrete}
use native.Mathlib.Nat.{mod-lt, mod-eq_of_lt, mul_assoc, add-mul-mod_self_left, mul-mod_right}
use cpp_backend.Prelude.{
  ℕ, suc, ◌+◌, ◌-◌, ◌*◌, ◌%◌, ◌^◌, ◌<◌, ◌≤◌, ◌≡◌, refl, sym, ap, ◌∙◌, some, ◌==◌, if◌then◌else◌,
  arith,
}
use cpp_backend.SubReactors.{int_word, to_size_t, get_next_sub_reactor}
use cpp_backend.SubReactors.Balance.{positive, idx_lem, next_index}

module _ (size m : ℕ) (some_reactor : 0 < size) (few : size ≤ 2 ^ 31)
    (divides : size * m ≡ int_word) where
  -- A negative counter has the remainder of its bits.
  to_size_t-mod : (c : ℕ) → to_size_t c % size ≡ c % size
  unfolding to_size_t
  to_size_t-mod c = elim (dec_lt c (2 ^ 31)) [
    | yes small ↦ ap (◌% size) (positive c small)
    | no large ↦
        let gap : size * (m * (2 ^ 32 - 1)) ≡ 2 ^ 64 - 2 ^ 32 =
          sym (mul_assoc size m (2 ^ 32 - 1)) ∙ ap (◌* (2 ^ 32 - 1)) divides ∙ omega arith in
        let negative : to_size_t c ≡ c + size * (m * (2 ^ 32 - 1)) = ground (arith, gap) in
        ap (◌% size) negative ∙ add-mul-mod_self_left c size (m * (2 ^ 32 - 1))
  ]

  given :
      (c : ℕ)
      → (get_next_sub_reactor (record { size = size; next_reactor = c })).0 ≡ some (c % size)
  unfolding get_next_sub_reactor
  given c =
      let bound : c % size < size = mod-lt c some_reactor in
      let idx : to_size_t (to_size_t c % size % int_word) ≡ c % size =
        ap (λ k. to_size_t (k % int_word)) (to_size_t-mod c)
        ∙ idx_lem (c % size) (omega (arith, bound, few)) in
      ground (arith, idx)

  next_given :
      (c : ℕ)
      → c < int_word
      → (c + 1) % int_word % size ≡ (if suc (c % size) == size then 0 else suc (c % size))
  next_given c fits = elim (ℕ_discrete (c + 1) int_word) [
    | yes last ↦
        let whole : (c + 1) % int_word ≡ 0 = ap (◌% int_word) last ∙ omega arith in
        let none_left : suc c % size ≡ 0 =
          ap (◌% size) (omega (arith, last, divides)) ∙ mul-mod_right size m in
        ap (◌% size) whole
        ∙ mod-eq_of_lt some_reactor
        ∙ sym none_left
        ∙ next_index size c (c % size) some_reactor refl
    | no inner ↦
        let plus : c + 1 ≡ suc c = omega arith in
        ap (◌% size) (mod-eq_of_lt (omega (arith, fits, inner)) ∙ plus)
        ∙ next_index size c (c % size) some_reactor refl
  ]

  -- If the number of reactors, at most 2 ^ 31, divides 2 ^ 32, then whatever the counter is, negative ones included, two
  -- calls one after the other give an index of the vector and the index after it, or 0 after the last index, also when
  -- the counter overflows to a negative number in the first call, or comes back to 0.
  pub get_next_sub_reactor-cycles :
      (c : ℕ)
      → c < int_word
      → (i : ℕ) × (i < size)
        × ((get_next_sub_reactor (record { size = size; next_reactor = c })).0 ≡ some i)
        × ((get_next_sub_reactor
              (get_next_sub_reactor (record { size = size; next_reactor = c })).1).0
            ≡ some (if suc i == size then 0 else suc i))
  unfolding get_next_sub_reactor
  get_next_sub_reactor-cycles c fits =
      let i : ℕ = c % size in
      let d : ℕ = (c + 1) % int_word in
      let moved : (get_next_sub_reactor (record { size = size; next_reactor = c })).1
          ≡ record { size = size; next_reactor = d } =
        ground arith in
      (
        i,
        mod-lt c some_reactor,
        given c,
        ap (λ p. (get_next_sub_reactor p).0) moved ∙ given d ∙ ap some (next_given c fits),
      )
