-- ===== src/Strategy/Tests.antt =====
-- BubbleSort on the vector of the source's main.
use cpp_backend.Prelude.{ℕ, ◌≡◌, refl, Bool, ltb, some, List, [], ◌∷◌}
use cpp_backend.Strategy.{bubble_sort}

abbrev above : ℕ → ℕ → Bool
above a b = ltb b a

abbrev data1 : List ℕ
data1 = 5 ∷ 2 ∷ 9 ∷ 1 ∷ 5 ∷ 6 ∷ []

data1_sorted : bubble_sort above data1 ≡ some (1 ∷ 2 ∷ 5 ∷ 5 ∷ 6 ∷ 9 ∷ [])
unfolding bubble_sort
data1_sorted = refl
