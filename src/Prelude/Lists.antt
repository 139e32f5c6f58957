-- ===== src/Prelude/Lists.antt =====
-- Lists measured and indexed by native numbers, under the library's names, and weighted sums.
use Prim.Native.Nat.{◌-◌, min, ℕ, zero, suc, ◌+◌, ◌≤◌, ◌<◌}
use mathlib.Core.Path.{◌≡◌, refl, ap}
use mathlib.Core.Logic.{◌≢◌}
use mathlib.Core.List.{List, [], ◌∷◌, ◌++◌}
use mathlib.Core.Option.{Option, none, some}
use native.Mathlib.Omega.{arith}
use native.Mathlib.Decide.{dec_lt}

module _ {ℓ} {A : Type ℓ} where
  abbrev pub length : List A → ℕ
  length [] = 0
  length (x ∷ xs) = suc (length xs)

  abbrev pub get_elem? : List A → ℕ → Option A
  get_elem? [] i = none
  get_elem? (x ∷ xs) zero = some x
  get_elem? (x ∷ xs) (suc i) = get_elem? xs i

  -- A write out of bounds changes nothing.
  abbrev pub set : List A → ℕ → A → List A
  set [] i v = []
  set (x ∷ xs) zero v = v ∷ xs
  set (x ∷ xs) (suc i) v = x ∷ set xs i v

  abbrev pub take : ℕ → List A → List A
  take zero xs = []
  take (suc n) [] = []
  take (suc n) (x ∷ xs) = x ∷ take n xs

  abbrev pub drop : ℕ → List A → List A
  drop zero xs = xs
  drop (suc n) [] = []
  drop (suc n) (x ∷ xs) = drop n xs

  abbrev pub replicate : ℕ → A → List A
  replicate zero a = []
  replicate (suc n) a = a ∷ replicate n a

  -- The list without the element at an index.
  abbrev pub remove : List A → ℕ → List A
  remove [] i = []
  remove (x ∷ xs) zero = xs
  remove (x ∷ xs) (suc i) = x ∷ remove xs i

  -- The sum of the weights of a list's elements.
  unfoldable pub total : (A → ℕ) → List A → ℕ
  total w [] = 0
  total w (x ∷ xs) = w x + total w xs

  pub total-nil : (w : A → ℕ) → total w [] ≡ 0
  unfolding total
  total-nil w = refl

  pub length-append : (xs ys : List A) → length (xs ++ ys) ≡ length xs + length ys
  length-append [] ys = omega arith
  length-append (x ∷ xs) ys = omega (arith, length-append xs ys)

  pub nil_of_length : (xs : List A) → length xs ≡ 0 → xs ≡ []
  nil_of_length [] h = refl
  nil_of_length (x ∷ xs) h = absurd (omega arith)

  pub take-append-drop : (n : ℕ) (xs : List A) → take n xs ++ drop n xs ≡ xs
  take-append-drop zero xs = refl
  take-append-drop (suc n) [] = refl
  take-append-drop (suc n) (x ∷ xs) = ap (◌∷◌ x) (take-append-drop n xs)

  pub take-length : (xs : List A) → take (length xs) xs ≡ xs
  take-length [] = refl
  take-length (x ∷ xs) = ap (◌∷◌ x) (take-length xs)

  pub length-take : (n : ℕ) (xs : List A) → length (take n xs) ≡ min n (length xs)
  length-take zero xs = omega arith
  length-take (suc n) [] = omega arith
  length-take (suc n) (x ∷ xs) = omega (arith, length-take n xs)

  pub length-drop : (n : ℕ) (xs : List A) → length (drop n xs) ≡ length xs - n
  length-drop zero xs = omega arith
  length-drop (suc n) [] = omega arith
  length-drop (suc n) (x ∷ xs) = omega (arith, length-drop n xs)

  -- Two ways to cut a list: the shorter first part begins the longer one.
  pub append-split :
      (xs zs ys ws : List A)
      → length xs ≤ length zs
      → xs ++ ys ≡ zs ++ ws
      → (us : List A) × (zs ≡ xs ++ us) × (ys ≡ us ++ ws)
  append-split [] zs ys ws h e = (zs, refl, e)
  append-split (x ∷ xs) [] ys ws h e = elim h [ ]
  append-split (x ∷ xs) (z ∷ zs) ys ws h e =
      let (us, p, q) = append-split xs zs ys ws (omega arith) (ground arith) in
      (us, ground arith, q)

  pub length-set : (xs : List A) (i : ℕ) (v : A) → length (set xs i v) ≡ length xs
  length-set [] i v = refl
  length-set (x ∷ xs) zero v = refl
  length-set (x ∷ xs) (suc i) v = ap suc (length-set xs i v)

  pub set-set : (xs : List A) (i : ℕ) (u v : A) → set (set xs i u) i v ≡ set xs i v
  set-set [] i u v = refl
  set-set (x ∷ xs) zero u v = refl
  set-set (x ∷ xs) (suc i) u v = ap (◌∷◌ x) (set-set xs i u v)

  pub get_elem?-set_self :
      (xs : List A) (i : ℕ) (v : A) {a : A}
      → get_elem? xs i ≡ some a
      → get_elem? (set xs i v) i ≡ some v
  get_elem?-set_self [] i v h = cc
  get_elem?-set_self (x ∷ xs) zero v h = refl
  get_elem?-set_self (x ∷ xs) (suc i) v h = get_elem?-set_self xs i v h

  pub get_elem?-set_ne :
      (xs : List A) (i j : ℕ) (v : A) → i ≢ j → get_elem? (set xs i v) j ≡ get_elem? xs j
  get_elem?-set_ne [] i j v h = refl
  get_elem?-set_ne (x ∷ xs) zero zero v h = absurd (h refl)
  get_elem?-set_ne (x ∷ xs) zero (suc j) v h = refl
  get_elem?-set_ne (x ∷ xs) (suc i) zero v h = refl
  get_elem?-set_ne (x ∷ xs) (suc i) (suc j) v h = get_elem?-set_ne xs i j v (λ e. h (ap suc e))

  pub get_elem?-snoc :
      (xs : List A) (i : ℕ) (y : A) {a : A}
      → get_elem? (xs ++ y ∷ []) i ≡ some a
      → a ≢ y
      → get_elem? xs i ≡ some a
  get_elem?-snoc [] zero y h ne = ground arith
  get_elem?-snoc [] (suc i) y h ne = h
  get_elem?-snoc (x ∷ xs) zero y h ne = h
  get_elem?-snoc (x ∷ xs) (suc i) y h ne = get_elem?-snoc xs i y h ne

  pub get_elem?-append_left :
      (xs ys : List A) (i : ℕ) {a : A} → get_elem? xs i ≡ some a → get_elem? (xs ++ ys) i ≡ some a
  get_elem?-append_left [] ys i h = cc
  get_elem?-append_left (x ∷ xs) ys zero h = h
  get_elem?-append_left (x ∷ xs) ys (suc i) h = get_elem?-append_left xs ys i h

  pub get_elem?-end : (xs : List A) (y : A) → get_elem? (xs ++ y ∷ []) (length xs) ≡ some y
  get_elem?-end [] y = refl
  get_elem?-end (x ∷ xs) y = get_elem?-end xs y

  pub remove-end : (xs : List A) (y : A) → remove (xs ++ y ∷ []) (length xs) ≡ xs
  remove-end [] y = refl
  remove-end (x ∷ xs) y = ap (x ∷◌) (remove-end xs y)

  pub set-end : (xs : List A) (y v : A) → set (xs ++ y ∷ []) (length xs) v ≡ xs ++ v ∷ []
  set-end [] y v = refl
  set-end (x ∷ xs) y v = ap (◌∷◌ x) (set-end xs y v)

  pub set-append_left :
      (xs ys : List A) (i : ℕ) (v : A) → i < length xs → set (xs ++ ys) i v ≡ set xs i v ++ ys
  set-append_left [] ys i v h = elim h [ ]
  set-append_left (x ∷ xs) ys zero v h = refl
  set-append_left (x ∷ xs) ys (suc i) v h = ap (◌∷◌ x) (set-append_left xs ys i v (omega arith))

  pub lt_of_get_elem? : (xs : List A) (i : ℕ) {a : A} → get_elem? xs i ≡ some a → i < length xs
  lt_of_get_elem? [] i h = cc
  lt_of_get_elem? (x ∷ xs) zero h = omega arith
  lt_of_get_elem? (x ∷ xs) (suc i) h = omega (arith, lt_of_get_elem? xs i h)

  -- A write moves the total by the weights of the two values.
  pub total-set :
      (w : A → ℕ) (xs : List A) (i : ℕ) (v : A) {a : A}
      → get_elem? xs i ≡ some a
      → total w (set xs i v) + w a ≡ total w xs + w v
  unfolding total
  total-set w [] i v h = cc
  total-set w (x ∷ xs) zero v h = ground arith
  total-set w (x ∷ xs) (suc i) v h = omega (arith, total-set w xs i v h)

  pub total-remove :
      (w : A → ℕ) (xs : List A) (i : ℕ) {a : A}
      → get_elem? xs i ≡ some a
      → total w (remove xs i) + w a ≡ total w xs
  unfolding total
  total-remove w [] i h = cc
  total-remove w (x ∷ xs) zero h = ground arith
  total-remove w (x ∷ xs) (suc i) h = omega (arith, total-remove w xs i h)

  pub length-remove :
      (xs : List A) (i : ℕ) {a : A} → get_elem? xs i ≡ some a → length (remove xs i) + 1 ≡ length xs
  length-remove [] i h = cc
  length-remove (x ∷ xs) zero h = omega arith
  length-remove (x ∷ xs) (suc i) h = omega (arith, length-remove xs i h)

  pub length-snoc : (xs : List A) (y : A) → length (xs ++ y ∷ []) ≡ length xs + 1
  length-snoc [] y = omega arith
  length-snoc (x ∷ xs) y = omega (arith, length-snoc xs y)

  pub total-append : (w : A → ℕ) (xs ys : List A) → total w (xs ++ ys) ≡ total w xs + total w ys
  unfolding total
  total-append w [] ys = omega arith
  total-append w (x ∷ xs) ys = omega (arith, total-append w xs ys)

  pub total-snoc : (w : A → ℕ) (xs : List A) (y : A) → total w (xs ++ y ∷ []) ≡ total w xs + w y
  unfolding total
  total-snoc w xs y = omega (arith, total-append w xs (y ∷ []))

  pub le-total :
      (w : A → ℕ) (xs : List A) (i : ℕ) {a : A} → get_elem? xs i ≡ some a → w a ≤ total w xs
  unfolding total
  le-total w [] i h = cc
  le-total w (x ∷ xs) zero h = ground arith
  le-total w (x ∷ xs) (suc i) h = omega (arith, le-total w xs i h)

  pub total-le-length : (w : A → ℕ) → ((a : A) → w a ≤ 1) → (xs : List A) → total w xs ≤ length xs
  unfolding total
  total-le-length w small [] = omega arith
  total-le-length w small (x ∷ xs) = omega (arith, small x, total-le-length w small xs)

  pub total-eq :
      (w u : A → ℕ) (xs : List A)
      → ((i : ℕ) (a : A) → get_elem? xs i ≡ some a → w a ≡ u a)
      → total w xs ≡ total u xs
  unfolding total
  total-eq w u [] h = refl
  total-eq w u (x ∷ xs) h = omega (arith, h 0 x refl, total-eq w u xs (λ i a at. h (suc i) a at))

  -- A positive total has an element of positive weight.
  pub total-pos :
      (w : A → ℕ) (xs : List A)
      → 0 < total w xs
      → (i : ℕ) × (a : A) × (get_elem? xs i ≡ some a) × (0 < w a)
  unfolding total
  total-pos w [] h = elim h [ ]
  total-pos w (x ∷ xs) h = elim (dec_lt 0 (w x)) [
    | yes here ↦ (0, x, refl, here)
    | no light ↦ let (i, a, at, pos) = total-pos w xs (omega arith) in (suc i, a, at, pos)
  ]
