-- ===== src/Strategy/Sorts.antt =====
-- BubbleSort sorts.
use cpp_backend.Prelude.{
  ℕ, zero, suc, ◌+◌, ◌≡◌, Bool, true, false, Option, some, List, [], ◌∷◌, ◌++◌, length,
  if◌then◌else◌, total, All,
}

-- `>` of a total order
pub record Ordered {A : Type 0} (greater : A → A → Bool) : Type 0 where
  pub greater_irrefl : (a : A) → greater a a ≡ false
  pub greater_asym : (a b : A) → greater a b ≡ true → greater b a ≡ false
  pub le_trans : (a b c : A) → greater a b ≡ false → greater b c ≡ false → greater a c ≡ false

module _ {A : Type 0} (greater : A → A → Bool) (ordered : Ordered greater) where
  -- No element is greater than a later one.
  abbrev pub IsSorted : List A → Type 0
  IsSorted [] = Unit {0}
  IsSorted (a ∷ bs) = All (λ b. greater a b ≡ false) bs × IsSorted bs

  -- One inner for, on the list from its first index on
  unfoldable bubble : ℕ → List A → List A
  bubble zero vec = vec
  bubble (suc left) [] = []
  bubble (suc left) (a ∷ []) = a ∷ []
  bubble (suc left) (a ∷ b ∷ vec) =
      let moved = bubble left (a ∷ vec) in
      let stayed = bubble left (b ∷ vec) in if greater a b then b ∷ moved else a ∷ stayed

  -- The list with its greatest element at the end, before the rest
  record Raised (left : ℕ) (vec rest : List A) : Type 1 where
    smaller : List A
    greatest : A
    is : bubble left (vec ++ rest) ≡ smaller ++ greatest ∷ rest
    long : length smaller ≡ left
    below : All (λ a. greater a greatest ≡ false) vec
    under : All (λ a. greater a greatest ≡ false) smaller
    same : (w : A → ℕ) → total w smaller + w greatest ≡ total w vec
    every : (P : A → Type 0) → All P vec → All P smaller × P greatest

  -- The result of the outer for: sorted, and with the same elements
  abbrev Sorts : Option (List A) → List A → Type 0
  Sorts o vec = (v : List A) × (o ≡ some v) × IsSorted v × ((w : A → ℕ) → total w v ≡ total w vec)
