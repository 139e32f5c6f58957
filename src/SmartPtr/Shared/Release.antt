-- ===== src/SmartPtr/Shared/Release.antt =====
-- What `release` of smartpointer.hpp does to the counting invariant: the variable that it is called on no longer
-- counts, and the object goes with the last owner.
use native.Mathlib.Decide.{ℕ_discrete}
use cpp_backend.Prelude.{
  ℕ, zero, suc, ◌+◌, ◌≤◌, ◌<◌, ◌≡◌, refl, true, false, Option, none, some, ◌==◌, if◌then◌else◌,
  get_elem?, set, update, arith, total-set, le-total, length-set, get_elem?-set_ne,
  get_elem?-set_self, Option-cases, inl, inr, set-set, total-le-length, update-update,
}
use cpp_backend.SmartPtr.Store.{Store}
use cpp_backend.SmartPtr.Shared.{Shared, State, put, release, null_ptr}
use cpp_backend.SmartPtr.Shared.Counting.{owns, owners, counted, Owner, Inv}

-- The heap once the owner count of `c`, whose object is `p`, has fallen from `suc n` to `n`.
abbrev pub dropped : ℕ → ℕ → ℕ → Store → Store
dropped n c p m = record m {
  object = if n == 0 then update m.object p false else m.object;
  count = update m.count c (counted n);
}

module _ {object_of : ℕ → ℕ} {s : State} (inv : Inv object_of s) (i : ℕ) {v : Shared}
    (here : get_elem? s.vars i ≡ some (some v)) where
  erase_owners : (d : ℕ) → owners d (put i none s) + owns d (some v) ≡ owners d s
  erase_owners d = omega (arith, total-set (owns d) s.vars i none here)

  pub owns-le : (c : ℕ) (u : Option Shared) → owns c u ≤ 1
  owns-le c u = ground arith

  module _ (c n : ℕ) (held : v.shared_count ≡ some c) (many : owners c s ≡ suc n) where
    abbrev after : State
    after = put i none (record s { heap = dropped n c (object_of c) s.heap })

    after-exact : (d : ℕ) → after.heap.count d ≡ counted (owners d after)
    after-exact d = ground (arith, erase_owners d, inv.exact d)

    after-paired : (j : ℕ) (u : Shared) → get_elem? after.vars j ≡ some (some u) → Owner object_of u
    after-paired j u at = elim (ℕ_discrete i j) [
      | yes e ↦ ground (arith, get_elem?-set_self s.vars i none here)
      | no ne ↦ inv.paired j u (ground (arith, get_elem?-set_ne s.vars i j none ne))
    ]

    still_owned : (d : ℕ) → 0 < owners d after → 0 < owners d s
    still_owned d pos = omega (arith, erase_owners d)

    after-alive : (d : ℕ) → 0 < owners d after → after.heap.object (object_of d) ≡ true
    after-alive d pos = ground (
      arith,
      erase_owners d,
      inv.alive d (still_owned d pos),
      inv.apart c d (omega arith) (still_owned d pos),
    )

    release_count-Inv : Inv object_of after
    release_count-Inv = record {
      few = omega (arith, length-set s.vars i none, inv.few);
      exact = after-exact;
      paired = after-paired;
      alive = after-alive;
      apart = λ d e p q. inv.apart d e (still_owned d p) (still_owned e q);
      fresh_count = λ d p. inv.fresh_count d (still_owned d p);
      fresh_object = λ p h. inv.fresh_object p (ground arith);
      managed = λ p h.
          let (d, own, is) = inv.managed p (ground arith) in
          (d, ground (arith, erase_owners d), is);
    }

  erase_null-Inv : v.shared_count ≡ none → Inv object_of (put i none s)
  erase_null-Inv e = record {
    few = omega (arith, length-set s.vars i none, inv.few);
    exact = λ d. ground (arith, erase_owners d, inv.exact d);
    paired = λ j u at. elim (ℕ_discrete i j) [
      | yes e ↦ ground (arith, get_elem?-set_self s.vars i none here)
      | no ne ↦ inv.paired j u (ground (arith, get_elem?-set_ne s.vars i j none ne))
    ];
    alive = λ d p. inv.alive d (omega (arith, erase_owners d));
    apart =
        λ d f p q. inv.apart d f (omega (arith, erase_owners d)) (omega (arith, erase_owners f));
    fresh_count = λ d p. inv.fresh_count d (omega (arith, erase_owners d));
    fresh_object = inv.fresh_object;
    managed = λ p h. let (d, own, is) = inv.managed p h in (d, ground (arith, erase_owners d), is);
  }

  -- A null variable is released as it is.
  pub release-none : v.shared_count ≡ none → release i s ≡ some s
  unfolding release
  release-none e = ground arith

  -- With other owners left only the counter changes.
  pub release_shared :
      (c n : ℕ)
      → v.shared_count ≡ some c
      → owners c s ≡ suc (suc n)
      → release i s ≡ some (record s { heap = dropped (suc n) c (object_of c) s.heap })
  unfolding release
  release_shared c n held many =
      ground (arith, inv.exact c, inv.few, total-le-length (owns c) (owns-le c) s.vars)

  -- The last owner frees the object and the counter, and becomes null.
  pub release_last :
      (c : ℕ)
      → v.shared_count ≡ some c
      → owners c s ≡ 1
      → release i s
        ≡ some (put i (some null_ptr) (record s { heap = dropped 0 c (object_of c) s.heap }))
  unfolding release
  release_last c held one = ground (
    arith,
    inv.exact c,
    inv.paired i v here,
    inv.alive c,
    update-update s.heap.count c (some 0) none,
  )

-- What the methods rely on: `release` runs, and with the variable taken away the invariant holds.
pub record Released (object_of : ℕ → ℕ) (i : ℕ) (s t : State) : Type 0 where
  pub runs : release i s ≡ some t
  pub erased : Inv object_of (put i none t)
  pub same : set t.vars i none ≡ set s.vars i none

pub release_lem :
    {object_of : ℕ → ℕ} {s : State} (inv : Inv object_of s) (i : ℕ) {v : Shared}
    → get_elem? s.vars i ≡ some (some v)
    → (t : State) × Released object_of i s t
release_lem {object_of} {s} inv i {v} here = elim (Option-cases v.shared_count) [
  | inl e ↦ (
    s,
    record { runs = release-none inv i here e; erased = erase_null-Inv inv i here e; same = refl },
  )
  | inr (c, e) ↦ counted_case c e (owners c s) refl
]
  where
    counted_case :
        (c : ℕ)
        → v.shared_count ≡ some c
        → (n : ℕ) → owners c s ≡ n
        → (t : State) × Released object_of i s t
    counted_case c e zero many = absurd (ground (arith, le-total (owns c) s.vars i here))
    counted_case c e (suc zero) many = (
      _,
      record {
        runs = release_last inv i here c e many;
        erased =
            rw (set-set s.vars i (some null_ptr) none) (release_count-Inv inv i here c 0 e many);
        same = set-set s.vars i (some null_ptr) none;
      },
    )
    counted_case c e (suc (suc n)) many = (
      _,
      record {
        runs = release_shared inv i here c n e many;
        erased = release_count-Inv inv i here c (suc n) e many;
        same = refl;
      },
    )
