-- ===== src/SmartPtr/Shared/Owning.antt =====
-- Making variables owners: an empty variable takes a share, or takes over the share of another.
use native.Mathlib.Decide.{ℕ_discrete, dec_lt}
use cpp_backend.Prelude.{
  ℕ, zero, suc, ◌+◌, ◌≤◌, ◌<◌, ◌≡◌, ◌≢◌, refl, true, none, some, ◌==◌, if◌then◌else◌, get_elem?,
  set, length, update, arith, total-set, le-total, length-set, get_elem?-set_ne, get_elem?-set_self,
  Option-cases, inl, inr, [], ◌∷◌, ◌++◌, length-append, total-snoc, total-le-length, get_elem?-snoc,
}
use cpp_backend.SmartPtr.Store.{Store}
use cpp_backend.SmartPtr.Shared.{Shared, State, word, put, null_ptr, increment}
use cpp_backend.SmartPtr.Shared.Counting.{owns, owners, counted, Owner, Inv}

module _ {object_of : ℕ → ℕ} {s : State} (inv : Inv object_of s) (i : ℕ)
    (empty : get_elem? s.vars i ≡ some none) where
  -- A null pointer may stand in an empty variable.
  module _ (w : Shared) (owner : Owner object_of w) where
    abbrev pub filled : State
    filled = put i (some w) s

    filled-owners : (d : ℕ) → owners d filled ≡ owners d s + owns d (some w)
    filled-owners d = omega (arith, total-set (owns d) s.vars i (some w) empty)

    filled-paired :
        (j : ℕ) (u : Shared) → get_elem? filled.vars j ≡ some (some u) → Owner object_of u
    filled-paired j u at = elim (ℕ_discrete i j) [
      | yes e ↦ ground (arith, get_elem?-set_self s.vars i (some w) empty)
      | no ne ↦ inv.paired j u (ground (arith, get_elem?-set_ne s.vars i j (some w) ne))
    ]

    pub fill_null : w.shared_count ≡ none → Inv object_of filled
    fill_null e = record {
      few = omega (arith, length-set s.vars i (some w), inv.few);
      exact = λ d. ground (arith, filled-owners d, inv.exact d);
      paired = filled-paired;
      alive = λ d p. inv.alive d (ground (arith, filled-owners d));
      apart = λ d f p q.
          inv.apart d f (ground (arith, filled-owners d)) (ground (arith, filled-owners f));
      fresh_count = λ d p. inv.fresh_count d (ground (arith, filled-owners d));
      fresh_object = inv.fresh_object;
      managed =
          λ p h. let (d, own, is) = inv.managed p h in (d, ground (arith, filled-owners d), is);
    }

    module _ (c n : ℕ) (held : w.shared_count ≡ some c) (many : owners c s ≡ suc n) where
      abbrev shared : State
      shared = put i (some w) (record s {
        heap = record (s.heap) { count = update s.heap.count c (counted (suc (suc n))) };
      })

      was_owned : (d : ℕ) → 0 < owners d shared → 0 < owners d s
      was_owned d p = ground (arith, filled-owners d)

      share-Inv : Inv object_of shared
      share-Inv = record {
        few = omega (arith, length-set s.vars i (some w), inv.few);
        exact = λ d. ground (arith, filled-owners d, inv.exact d);
        paired = filled-paired;
        alive = λ d p. inv.alive d (was_owned d p);
        apart = λ d f p q. inv.apart d f (was_owned d p) (was_owned f q);
        fresh_count = λ d p. inv.fresh_count d (was_owned d p);
        fresh_object = inv.fresh_object;
        managed =
            λ p h. let (d, own, is) = inv.managed p h in (d, ground (arith, filled-owners d), is);
      }

      increment-runs : increment w.shared_count s.heap ≡ some shared.heap
      unfolding increment
      increment-runs = ground (
        arith,
        inv.exact c,
        inv.few,
        total-le-length (owns c) (λ u. ground arith) s.vars,
        filled-owners c,
        total-le-length (owns c) (λ u. ground arith) filled.vars,
        length-set s.vars i (some w),
      )

-- An empty variable copies another, and the counter, if there is one, goes up.
pub share_lem :
    {object_of : ℕ → ℕ} {s : State} (inv : Inv object_of s) (i j : ℕ) {w : Shared}
    → get_elem? s.vars i ≡ some none
    → get_elem? s.vars j ≡ some (some w)
    → (m : Store) × (increment w.shared_count s.heap ≡ some m)
      × Inv object_of (put i (some w) (record s { heap = m }))
unfolding increment
share_lem {object_of} {s} inv i j {w} empty other = elim (Option-cases w.shared_count) [
  | inl e ↦ (s.heap, ground arith, fill_null inv i empty w (inv.paired j w other) e)
  | inr (c, e) ↦ counted_case c e (owners c s) refl
]
  where
    counted_case :
        (c : ℕ)
        → w.shared_count ≡ some c
        → (n : ℕ) → owners c s ≡ n
        → (m : Store) × (increment w.shared_count s.heap ≡ some m)
          × Inv object_of (put i (some w) (record s { heap = m }))
    counted_case c e zero many = absurd (ground (arith, le-total (owns c) s.vars j other))
    counted_case c e (suc n) many = (
      _,
      increment-runs inv i empty w (inv.paired j w other) c n e many,
      share-Inv inv i empty w (inv.paired j w other) c n e many,
    )

-- A variable takes over the share of another, which becomes null.
module _ {object_of : ℕ → ℕ} {s : State} (inv : Inv object_of s) (i j : ℕ) {w : Shared}
    (differ : i ≢ j) (empty : get_elem? s.vars i ≡ some none)
    (other : get_elem? s.vars j ≡ some (some w)) where
  abbrev pub moved : State
  moved = put j (some null_ptr) (put i (some w) s)

  other_still : get_elem? (set s.vars i (some w)) j ≡ some (some w)
  other_still = ground (arith, get_elem?-set_ne s.vars i j (some w) differ)

  moved-owners : (d : ℕ) → owners d moved ≡ owners d s
  moved-owners d = ground (
    arith,
    filled-owners inv i empty w (inv.paired j w other) d,
    total-set (owns d) (set s.vars i (some w)) j (some null_ptr) other_still,
  )

  moved-paired : (k : ℕ) (u : Shared) → get_elem? moved.vars k ≡ some (some u) → Owner object_of u
  moved-paired k u at = elim (ℕ_discrete j k) [
    | yes e ↦
        ground (arith, get_elem?-set_self (set s.vars i (some w)) j (some null_ptr) other_still)
    | no ne ↦
        filled-paired inv i empty w (inv.paired j w other) k u
          (ground (arith, get_elem?-set_ne (set s.vars i (some w)) j k (some null_ptr) ne))
  ]

  pub move-Inv : Inv object_of moved
  move-Inv = record {
    few = omega (
      arith,
      length-set s.vars i (some w),
      length-set (set s.vars i (some w)) j (some null_ptr),
      inv.few,
    );
    exact = λ d. rw (moved-owners d) (inv.exact d);
    paired = moved-paired;
    alive = λ d p. inv.alive d (omega (arith, moved-owners d));
    apart =
        λ d f p q. inv.apart d f (omega (arith, moved-owners d)) (omega (arith, moved-owners f));
    fresh_count = λ d p. inv.fresh_count d (omega (arith, moved-owners d));
    fresh_object = inv.fresh_object;
    managed = λ p h. let (d, own, is) = inv.managed p h in (d, ground (arith, moved-owners d), is);
  }

-- Room for a new variable, at the end.
module _ {object_of : ℕ → ℕ} {s : State} (inv : Inv object_of s)
    (room : length s.vars + 1 < word) where
  abbrev pub extended : State
  extended = record s { vars = s.vars ++ none ∷ [] }

  extended-owners : (d : ℕ) → owners d extended ≡ owners d s
  extended-owners d = omega (arith, total-snoc (owns d) s.vars none)

  pub extend-Inv : Inv object_of extended
  extend-Inv = record {
    few = omega (arith, length-append s.vars (none ∷ []));
    exact = λ d. rw (extended-owners d) (inv.exact d);
    paired = λ j u at. inv.paired j u (get_elem?-snoc s.vars j none at (λ e. cc));
    alive = λ d p. inv.alive d (omega (arith, extended-owners d));
    apart = λ d f p q.
        inv.apart d f (omega (arith, extended-owners d)) (omega (arith, extended-owners f));
    fresh_count = λ d p. inv.fresh_count d (omega (arith, extended-owners d));
    fresh_object = inv.fresh_object;
    managed =
        λ p h. let (d, own, is) = inv.managed p h in (d, ground (arith, extended-owners d), is);
  }

-- make_shared: a new object and its counter, owned by the variable alone.
module _ {object_of : ℕ → ℕ} {s : State} (inv : Inv object_of s) (i : ℕ)
    (empty : get_elem? s.vars i ≡ some none) where
  abbrev object_at : ℕ
  object_at = s.heap.next

  abbrev count_at : ℕ
  count_at = suc s.heap.next

  abbrev first_owner : Shared
  first_owner = record { ptr = some object_at; shared_count = some count_at }

  abbrev pub newborn : State
  newborn = record {
    heap = record {
      object = update s.heap.object object_at true;
      count = update s.heap.count count_at (some 1);
      next = suc count_at;
    };
    vars = set s.vars i (some first_owner);
  }

  abbrev pub with_newborn : ℕ → ℕ
  with_newborn = update object_of count_at object_at

  newborn-owners : (d : ℕ) → owners d newborn ≡ owners d s + (if d == count_at then 1 else 0)
  newborn-owners d = omega (arith, total-set (owns d) s.vars i (some first_owner) empty)

  older : (d : ℕ) → 0 < owners d s → (d < object_at) × (object_of d < object_at)
  older d pos = (inv.fresh_count d pos, inv.fresh_object (object_of d) (inv.alive d pos))

  none_yet : (d : ℕ) → object_at ≤ d → owners d s ≡ 0
  none_yet d late = elim (dec_lt 0 (owners d s)) [
    | yes owned ↦ absurd (omega (arith, inv.fresh_count d owned))
    | no nobody ↦ omega arith
  ]

  -- An older variable keeps its object.
  with_newborn-Owner :
      (j : ℕ) (u : Shared) → get_elem? s.vars j ≡ some (some u) → Owner with_newborn u
  with_newborn-Owner j u at = elim (Option-cases u.shared_count) [
    | inl e ↦ ground (arith, inv.paired j u at)
    | inr (c, e) ↦
        ground (arith, inv.paired j u at, older c (ground (arith, le-total (owns c) s.vars j at)))
  ]

  newborn-paired :
      (j : ℕ) (u : Shared) → get_elem? newborn.vars j ≡ some (some u) → Owner with_newborn u
  newborn-paired j u at = elim (ℕ_discrete i j) [
    | yes e ↦ ground (arith, get_elem?-set_self s.vars i (some first_owner) empty)
    | no ne ↦
        with_newborn-Owner j u (ground (arith, get_elem?-set_ne s.vars i j (some first_owner) ne))
  ]

  newborn-managed :
      (p : ℕ)
      → newborn.heap.object p ≡ true
      → (c : ℕ) × (0 < owners c newborn) × (with_newborn c ≡ p)
  newborn-managed p h = elim (ℕ_discrete object_at p) [
    | yes e ↦ (count_at, ground (arith, newborn-owners count_at), ground arith)
    | no ne ↦
        let (c, own, is) = inv.managed p (ground arith) in
        (c, ground (arith, newborn-owners c), ground (arith, older c own))
  ]

  pub newborn-Inv : Inv with_newborn newborn
  newborn-Inv = record {
    few = omega (arith, length-set s.vars i (some first_owner), inv.few);
    exact = λ d. ground (arith, newborn-owners d, none_yet d, inv.exact d);
    paired = newborn-paired;
    alive = λ d q. ground (arith, newborn-owners d, inv.alive d);
    apart = λ d f q r.
        ground (arith, newborn-owners d, newborn-owners f, inv.apart d f, older d, older f);
    fresh_count = λ d q. ground (arith, newborn-owners d, older d);
    fresh_object = λ q h. ground (arith, inv.fresh_object q);
    managed = newborn-managed;
  }
