-- ===== src/DescendingSet.antt =====
-- std::set<int, std::greater<int>> of the servers, as the list of its elements in its order.
use cpp_backend.Prelude.{
  ℕ, ◌<◌, ◌≤◌, ◌≡◌, refl, Bool, true, false, not, ◌&&◌, ◌||◌, List, [], ◌∷◌, ltb, ◌==◌,
  if◌then◌else◌, inl, inr, arith, Bool-cases,
}

unfoldable pub insert : ℕ → List ℕ → List ℕ
insert a [] = a ∷ []
insert a (b ∷ bs) =
    let rest = insert a bs in if ltb b a then a ∷ b ∷ bs else (if a == b then b ∷ bs else b ∷ rest)

unfoldable pub erase : ℕ → List ℕ → List ℕ
erase a [] = []
erase a (b ∷ bs) = let rest = erase a bs in if a == b then bs else b ∷ rest

abbrev pub has : ℕ → List ℕ → Bool
has a [] = false
has a (b ∷ bs) = (a == b) || has a bs

-- Each is less than the one before it.
abbrev pub IsDescending : List ℕ → Type 0
IsDescending [] = Unit {0}
IsDescending (b ∷ bs) = ((i : ℕ) → has i bs ≡ true → i < b) × IsDescending bs

pub has-insert : (i a : ℕ) (bs : List ℕ) → has i (insert a bs) ≡ (i == a) || has i bs
unfolding insert
has-insert i a [] = refl
has-insert i a (b ∷ bs) = ground (arith, has-insert i a bs)

pub insert-IsDescending : (a : ℕ) (bs : List ℕ) → IsDescending bs → IsDescending (insert a bs)
unfolding insert
insert-IsDescending a [] d = (λ i h. absurd (cc), tt)
insert-IsDescending a (b ∷ bs) (below, d) = elim (Bool-cases (ltb b a)) [
  | inl above ↦ rw above ((λ i h. ground (arith, below i), (below, d)))
  | inr not_above ↦ elim (Bool-cases (a == b)) [
    | inl same ↦ rw (not_above, same) (below, d)
    | inr other ↦
        rw (not_above, other)
          ((λ i h. ground (arith, has-insert i a bs, below i)), insert-IsDescending a bs d)
  ]
]

pub has-erase :
    (i a : ℕ) (bs : List ℕ) → IsDescending bs → has i (erase a bs) ≡ has i bs && not (i == a)
unfolding erase
has-erase i a [] d = refl
has-erase i a (b ∷ bs) (below, d) = ground (arith, has-erase i a bs d, below i)

pub erase-IsDescending : (a : ℕ) (bs : List ℕ) → IsDescending bs → IsDescending (erase a bs)
unfolding erase
erase-IsDescending a [] d = tt
erase-IsDescending a (b ∷ bs) (below, d) = elim (Bool-cases (a == b)) [
  | inl same ↦ rw same d
  | inr other ↦
      rw other ((λ i h. ground (arith, has-erase i a bs d, below i)), erase-IsDescending a bs d)
]

pub has-first : (i c : ℕ) (cs : List ℕ) → IsDescending (c ∷ cs) → has i (c ∷ cs) ≡ true → i ≤ c
has-first i c cs (below, d) h = ground (arith, below i)
