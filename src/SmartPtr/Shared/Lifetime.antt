-- ===== src/SmartPtr/Shared/Lifetime.antt =====
-- What programs over shared_ptr may rely on: nothing dangles, nothing leaks, `get_count` is the number of
-- sharers; and what `reset` breaks.
use native.Mathlib.Decide.{dec_lt}
use cpp_backend.Prelude.{
  ℕ, zero, suc, ◌+◌, ◌-◌, ◌<◌, ◌≡◌, ◌≢◌, refl, false, Option, none, some, ◌==◌, ◌&&◌, Bool-cases,
  if◌then◌else◌, get_elem?, set, total, total-eq, total-pos, le-total, update-update, arith,
  Option-cases, inl, inr,
}
use cpp_backend.SmartPtr.Shared.{
  Shared, State, put, release, destroy, reset, get, deref, get_count, null_ptr,
}
use cpp_backend.SmartPtr.Shared.Counting.{owns, owners, Inv}
use cpp_backend.SmartPtr.Shared.Release.{release_shared, release_last, dropped}
use cpp_backend.Prelude.{total-set, set-set, get_elem?-set_ne}

-- Does the variable point to the object `p`?
abbrev pub points_to : ℕ → Option Shared → ℕ
points_to p none = 0
points_to p (some v) = elim v.ptr [ none ↦ 0 | some q ↦ if p == q then 1 else 0 ]

abbrev pub sharers : ℕ → State → ℕ
sharers p s = total (points_to p) s.vars

module _ {object_of : ℕ → ℕ} {s : State} (inv : Inv object_of s) where
  owns-points_to :
      (c : ℕ)
      → 0 < owners c s
      → (i : ℕ) (v : Option Shared) → get_elem? s.vars i ≡ some v
      → owns c v ≡ points_to (object_of c) v
  owns-points_to c pos i none at = refl
  owns-points_to c pos i (some v) at = elim (Option-cases v.shared_count) [
    | inl e ↦ ground (arith, inv.paired i v at)
    | inr (d, e) ↦
        ground (arith, inv.paired i v at, inv.apart c d pos, le-total (owns d) s.vars i at)
  ]

  owners-sharers : (c : ℕ) → 0 < owners c s → owners c s ≡ sharers (object_of c) s
  owners-sharers c pos = total-eq (owns c) (points_to (object_of c)) s.vars (owns-points_to c pos)

  module _ (i p : ℕ) {v : Shared} (here : get_elem? s.vars i ≡ some (some v))
      (to : v.ptr ≡ some p) where
    -- A variable that points somewhere holds a counter.
    counter : (c : ℕ) × (v.shared_count ≡ some c) × (object_of c ≡ p) × (0 < owners c s)
    counter = elim (Option-cases v.shared_count) [
      | inl e ↦ absurd (ground (arith, inv.paired i v here))
      | inr (c, e) ↦ (
        c,
        e,
        ground (arith, inv.paired i v here),
        ground (arith, le-total (owns c) s.vars i here),
      )
    ]

    -- In a state that satisfies the counting invariant, a variable that holds an object can be dereferenced: the
    -- object is alive.
    pub deref-living : deref i s ≡ some p
    unfolding deref
    deref-living = let (c, e, is, pos) = counter in ground (arith, inv.alive c pos)

    -- In a state that satisfies the counting invariant, get_count of a variable that holds an object is the number
    -- of variables that point to the object.
    pub get_count-sharers : get_count i s ≡ some (sharers p s)
    unfolding get_count
    get_count-sharers =
        let (c, e, is, pos) = counter in ground (arith, inv.exact c, owners-sharers c pos)

    -- The object goes exactly if it has one sharer, and no other object goes.
    abbrev pub Parted : State → Type 0
    Parted t =
        ((q : ℕ)
          → t.heap.object q ≡ (if q == p && sharers p s == 1 then false else s.heap.object q))
        × (sharers p t + 1 ≡ sharers p s)

    parted_vars : total (points_to p) (set s.vars i none) + 1 ≡ sharers p s
    parted_vars = ground (arith, total-set (points_to p) s.vars i none here)

    destroy_by_count :
        (c : ℕ)
        → v.shared_count ≡ some c
        → object_of c ≡ p
        → (n : ℕ) → owners c s ≡ n
        → (t : State) × (destroy i s ≡ some t) × Parted t
    unfolding destroy
    destroy_by_count c e is zero many = absurd (ground (arith, le-total (owns c) s.vars i here))
    destroy_by_count c e is (suc zero) many = (
      put i none (put i (some null_ptr) (record s { heap = dropped 0 c (object_of c) s.heap })),
      ground (arith, release_last inv i here c e many),
      (
        λ q. ground (arith, owners-sharers c (omega arith)),
        rw (set-set s.vars i (some null_ptr) none) parted_vars,
      ),
    )
    destroy_by_count c e is (suc (suc n)) many = (
      put i none (record s { heap = dropped (suc n) c (object_of c) s.heap }),
      ground (arith, release_shared inv i here c n e many),
      (λ q. ground (arith, owners-sharers c (omega arith)), parted_vars),
    )

    -- In a state that satisfies the counting invariant, the end of the life of a variable that holds an object
    -- ends the life of its object if nobody else shares it, and otherwise leaves all objects alive.
    pub destroy-Parted : (t : State) × (destroy i s ≡ some t) × Parted t
    destroy-Parted = let (c, e, is, pos) = counter in destroy_by_count c e is (owners c s) refl

    -- In a state that satisfies the counting invariant, `reset` of a variable whose object has other sharers
    -- leaves the variable as it is, and the counter is then one short of the number of sharers.
    pub reset_shared :
        1 < sharers p s
        → (t : State) × (reset i s ≡ some t)
          × (t.vars ≡ s.vars)
          × (get_count i t ≡ some (sharers p t - 1))
    unfolding reset get_count
    reset_shared more =
        let (c, e, is, pos) = counter in
        let many : owners c s ≡ suc (suc (sharers p s - 2)) =
          ground (arith, owners-sharers c pos) in
        (
          record s { heap = dropped (suc (sharers p s - 2)) c (object_of c) s.heap },
          ground (arith, release_shared inv i here c (sharers p s - 2) e many),
          refl,
          ground arith,
        )

  -- In a state that satisfies the counting invariant, if two variables and no others share an object, resetting
  -- one of them and then ending its life frees the object that the other still points to.
  pub reset_dangles :
      (i j p : ℕ) {v w : Shared}
      → i ≢ j
      → get_elem? s.vars i ≡ some (some v)
      → get_elem? s.vars j ≡ some (some w)
      → v.ptr ≡ some p
      → w.ptr ≡ some p
      → sharers p s ≡ 2
      → (t : State) × (u : State) × (reset i s ≡ some t)
        × (destroy i t ≡ some u)
        × (get j u ≡ some (some p))
        × (deref j u ≡ none)
  unfolding reset destroy release get deref
  reset_dangles i j p {v} {w} differ here there to to' two =
      let (c, e, is, pos) = counter i p here to in
      let many : owners c s ≡ 2 = ground (arith, owners-sharers c pos) in
      let m = dropped 1 c (object_of c) s.heap in
      (
        record s { heap = m },
        put i none (
            put i (some null_ptr)
              (record s { heap = dropped 0 c p (dropped 1 c (object_of c) s.heap) })),
        ground (arith, release_shared inv i here c 0 e many),
        ground (
          arith,
          inv.alive c pos,
          update-update (dropped 1 c (object_of c) s.heap).count c (some 0) none,
        ),
        ground
            (arith, set-set s.vars i (some null_ptr) none, get_elem?-set_ne s.vars i j none differ),
        ground
            (arith, set-set s.vars i (some null_ptr) none, get_elem?-set_ne s.vars i j none differ),
      )

  module _ (nulls : (i : ℕ) (v : Shared) → get_elem? s.vars i ≡ some (some v) → v.ptr ≡ none) where
    null-owns : (c i : ℕ) (v : Option Shared) → get_elem? s.vars i ≡ some v → owns c v ≡ 0
    null-owns c i none at = refl
    null-owns c i (some v) at = elim (Option-cases v.shared_count) [
      | inl e ↦ ground arith
      | inr (d, e) ↦ absurd (ground (arith, inv.paired i v at, nulls i v at))
    ]

    unowned : (c : ℕ) → owners c s ≡ 0
    unowned c = elim (dec_lt 0 (owners c s)) [
      | yes pos ↦
          let (i, v, at, one) = total-pos (owns c) s.vars pos in
          absurd (omega (arith, null-owns c i v at))
      | no nobody ↦ omega arith
    ]

    -- In a state that satisfies the counting invariant, if no variable is left, or only null ones, then no object
    -- and no counter is left either.
    pub no_leak : ((p : ℕ) → s.heap.object p ≡ false) × ((c : ℕ) → s.heap.count c ≡ none)
    no_leak = (
      λ p. elim (Bool-cases (s.heap.object p)) [
        | inl living ↦ let (c, own, is) = inv.managed p living in absurd (omega (arith, unowned c))
        | inr dead ↦ dead
      ],
      λ c. ground (arith, inv.exact c, unowned c),
    )
