-- ===== src/Strategy.antt =====
-- The sorting strategies of Cpp_Design_Mode/StrategyMode.cpp: BubbleSort, and the Sorter. The elements are of any type with the
-- comparison `>`. `none` is an access out of the bounds of the vector.
use cpp_backend.Prelude.{
  ℕ, zero, suc, ◌+◌, ◌-◌, Bool, true, false, Option, none, some, List, [], ◌∷◌, ◌>>=◌, get_elem?,
  set, length, if◌then◌else◌,
}
pub mod Sorts
mod Tests

module _ {A : Type 0} (greater : A → A → Bool) where
  -- if (vec[j] > vec[j+1]) std::swap(vec[j], vec[j+1])
  unfoldable pub compare_swap : ℕ → List A → Option (List A)
  compare_swap j vec = do
    a ← get_elem? vec j
    b ← get_elem? vec (j + 1)
    some (if greater a b then set (set vec j b) (j + 1) a else vec)

  -- The inner for, from j on, with the number of its rounds that are left
  unfoldable pub inner_loop : ℕ → ℕ → List A → Option (List A)
  unfolding compare_swap
  inner_loop zero j vec = some vec
  inner_loop (suc left) j vec = compare_swap j vec >>= λ v. inner_loop left (j + 1) v

  -- The outer for, from i on
  unfoldable pub outer_loop : ℕ → ℕ → ℕ → List A → Option (List A)
  unfolding inner_loop
  outer_loop n zero i vec = some vec
  outer_loop n (suc left) i vec = inner_loop (n - i - 1) 0 vec >>= λ v. outer_loop n left (i + 1) v

  -- BubbleSort::sort
  unfoldable pub bubble_sort : List A → Option (List A)
  unfolding outer_loop
  bubble_sort vec = outer_loop (length vec) (length vec - 1) 0 vec

-- Sorter::sortData without what it prints: an empty strategy leaves the vector as it is.
unfoldable pub sort_data {ℓ} :
    {A : Type ℓ} → Option (List A → Option (List A)) → List A → Option (List A)
sort_data none vec = some vec
sort_data (some strategy) vec = strategy vec
