-- ===== src/Prelude/Every.antt =====
-- A predicate on all elements of a list, kept by the operations on lists.
use Prim.Native.Nat.{ℕ, zero, suc}
use mathlib.Core.Path.{◌≡◌, subst}
use mathlib.Core.List.{List, [], ◌∷◌, ◌++◌}
use mathlib.Core.Option.{some, some_inj}
use cpp_backend.Prelude.Lists.{get_elem?, set, remove}

module _ {ℓ} {A : Type ℓ} where
  -- All elements satisfy P.
  abbrev pub All {κ} : (A → Type κ) → List A → Type κ
  All P [] = Unit
  All P (x ∷ xs) = P x × All P xs

  pub All-snoc {κ} : (P : A → Type κ) (xs : List A) (y : A) → All P xs → P y → All P (xs ++ y ∷ [])
  All-snoc P [] y all h = (h, tt)
  All-snoc P (x ∷ xs) y (h', all) h = (h', All-snoc P xs y all h)

  pub All-set {κ} :
      (P : A → Type κ) (xs : List A) (k : ℕ) (y : A) → All P xs → P y → All P (set xs k y)
  All-set P [] k y all h = tt
  All-set P (x ∷ xs) zero y (h', all) h = (h, all)
  All-set P (x ∷ xs) (suc k) y (h', all) h = (h', All-set P xs k y all h)

  pub All-remove {κ} : (P : A → Type κ) (xs : List A) (k : ℕ) → All P xs → All P (remove xs k)
  All-remove P [] k all = tt
  All-remove P (x ∷ xs) zero (h', all) = all
  All-remove P (x ∷ xs) (suc k) (h', all) = (h', All-remove P xs k all)

  pub All-at {κ} :
      (P : A → Type κ) (xs : List A) (k : ℕ) {y : A} → All P xs → get_elem? xs k ≡ some y → P y
  All-at P [] k all at = absurd (cc)
  All-at P (x ∷ xs) zero (h, all) at = subst P (some_inj.0 at) h
  All-at P (x ∷ xs) (suc k) (h, all) at = All-at P xs k all at
