-- ===== src/SmartPtr/Unique/Ownership.antt =====
-- Every living object has exactly one unique_ptr, and every method keeps it so.
use native.Mathlib.Decide.{ℕ_discrete}
use cpp_backend.Prelude.{
  ℕ, suc, ◌+◌, ◌<◌, ◌≡◌, refl, true, false, Option, none, some, [], ◌∷◌, ◌++◌, ◌==◌, if◌then◌else◌,
  get_elem?, set, ◌∙◌, set-set, total, total-snoc, total-set, le-total, update, arith,
  get_elem?-set_ne,
}
use cpp_backend.SmartPtr.Store.{Store, new_object, delete_object}
use cpp_backend.SmartPtr.Unique.{
  State, construct, make_unique, move_construct, move_assign, destroy, reset,
}

-- Does the variable hold the object `p`?
abbrev pub holds : ℕ → Option (Option ℕ) → ℕ
holds p none = 0
holds p (some none) = 0
holds p (some (some q)) = if p == q then 1 else 0

abbrev pub holders : ℕ → State → ℕ
holders p s = total (holds p) s.vars

pub record IsExclusive (s : State) : Type 0 where
  pub exact : (p : ℕ) → holders p s ≡ (if s.heap.object p then 1 else 0)
  pub fresh : (p : ℕ) → s.heap.object p ≡ true → p < s.heap.next

-- A method call of the program: the variables by their addresses.
pub data Call : Type 0 where
  makes : Call  -- auto p = make_unique<T>(...)
  nulls : Call  -- unique_ptr<T> p
  moves : (from : ℕ) → Call  -- unique_ptr<T> p = std::move(from)
  takes : (this_var from : ℕ) → Call  -- p = std::move(from)
  dies : (this_var : ℕ) → Call  -- the end of a scope
  resets : (this_var : ℕ) → Call  -- p.reset()
  renews : (this_var : ℕ) → Call  -- p.reset(new T(...))

unfoldable pub call : Call → State → Option State
call makes s = some (make_unique s)
call nulls s = some (construct none s)
call (moves j) s = move_construct j s
call (takes i j) s = move_assign i j s
call (dies i) s = destroy i s
call (resets i) s = reset i none s
call (renews i) s = let (p, m) = new_object s.heap in reset i (some p) (record s { heap = m })

abbrev pub Living : ℕ → State → Type 0
Living i s = (v : Option ℕ) × (get_elem? s.vars i ≡ some (some v))

-- The variables that a call names are alive.
abbrev pub IsLegal : Call → State → Type 0
IsLegal makes s = Unit {0}
IsLegal nulls s = Unit {0}
IsLegal (moves j) s = Living j s
IsLegal (takes i j) s = Living i s × Living j s
IsLegal (dies i) s = Living i s
IsLegal (resets i) s = Living i s
IsLegal (renews i) s = Living i s

abbrev pub Runs : Option State → Type 0
Runs r = (t : State) × (r ≡ some t) × IsExclusive t

module _ {s : State} (inv : IsExclusive s) where
  makes_lem : IsExclusive (make_unique s)
  unfolding make_unique
  makes_lem = record {
    exact = λ p.
        ground
          (arith, inv.exact p, inv.fresh p, total-snoc (holds p) s.vars (some (some s.heap.next)));
    fresh = λ p h. ground (arith, inv.fresh p);
  }

  nulls_lem : IsExclusive (construct none s)
  unfolding construct
  nulls_lem = record {
    exact = λ p. ground (arith, inv.exact p, total-snoc (holds p) s.vars (some none));
    fresh = inv.fresh;
  }

  moves_lem : (j : ℕ) → Living j s → Runs (move_construct j s)
  unfolding move_construct
  moves_lem j (v, there) = (
    record s { vars = set s.vars j (some none) ++ some v ∷ [] },
    ground arith,
    record {
      exact = λ p. ground (
        arith,
        inv.exact p,
        total-snoc (holds p) (set s.vars j (some none)) (some v),
        total-set (holds p) s.vars j (some none) there,
      );
      fresh = inv.fresh;
    },
  )

  -- The heap after `delete ptr` of a living variable.
  abbrev without : Option ℕ → Store
  without none = s.heap
  without (some p) = record (s.heap) { object = update s.heap.object p false }

  without-exact :
      (i : ℕ) (v : Option ℕ)
      → get_elem? s.vars i ≡ some (some v)
      → (p : ℕ) → holders p s ≡ holds p (some v) + (if (without v).object p then 1 else 0)
  without-exact i none here p = ground (arith, inv.exact p)
  without-exact i (some q) here p = ground (arith, inv.exact p, le-total (holds p) s.vars i here)

  without-fresh : (v : Option ℕ) (p : ℕ) → (without v).object p ≡ true → p < s.heap.next
  without-fresh none p h = inv.fresh p h
  without-fresh (some q) p h = ground (arith, inv.fresh p)

  without-next : (v : Option ℕ) → (without v).next ≡ s.heap.next
  without-next none = refl
  without-next (some q) = refl

  -- `delete ptr` of a living variable never faults.
  delete-runs :
      (i : ℕ) (v : Option ℕ)
      → get_elem? s.vars i ≡ some (some v)
      → delete_object v s.heap ≡ some (without v)
  unfolding delete_object
  delete-runs i none here = refl
  delete-runs i (some p) here = ground (arith, inv.exact p, le-total (holds p) s.vars i here)

  module _ (i : ℕ) {v : Option ℕ} (here : get_elem? s.vars i ≡ some (some v)) where
    -- The variable that let its object go holds nothing, or is gone.
    emptied-IsExclusive :
        (u : Option (Option ℕ))
        → ((p : ℕ) → holds p u ≡ 0)
        → IsExclusive (record { heap = without v; vars = set s.vars i u })
    emptied-IsExclusive u nothing = record {
      exact = λ p.
          omega (arith, without-exact i v here p, nothing p, total-set (holds p) s.vars i u here);
      fresh = λ p h. omega (arith, without-fresh v p h, without-next v);
    }

    dies_lem : Runs (destroy i s)
    unfolding destroy
    dies_lem = (
      record { heap = without v; vars = set s.vars i none },
      ground (arith, delete-runs i v here, set-set s.vars i (some none) none),
      emptied-IsExclusive none (λ p. refl),
    )

    resets_lem : Runs (reset i none s)
    unfolding reset
    resets_lem = (
      record { heap = without v; vars = set s.vars i (some none) },
      ground (arith, delete-runs i v here),
      emptied-IsExclusive (some none) (λ p. refl),
    )

    takes_lem : (j : ℕ) → Living j s → Runs (move_assign i j s)
    unfolding move_assign
    takes_lem j (w, there) = elim (ℕ_discrete i j) [
      | yes same ↦ (s, ground arith, inv)
      | no differ ↦
          let there' : get_elem? (set s.vars i (some w)) j ≡ some (some w) =
            get_elem?-set_ne s.vars i j (some w) differ ∙ there in
          (
            record { heap = without v; vars = set (set s.vars i (some w)) j (some none) },
            ground (arith, delete-runs i v here),
            record {
              exact = λ p. omega (
                arith,
                without-exact i v here p,
                total-set (holds p) s.vars i (some w) here,
                total-set (holds p) (set s.vars i (some w)) j (some none) there',
              );
              fresh = λ p h. omega (arith, without-fresh v p h, without-next v);
            },
          )
    ]

  -- `new T` stands above every object, so the old object is another one.
  renews_lem :
      (i : ℕ) (v : Option ℕ) → get_elem? s.vars i ≡ some (some v) → Runs (call (renews i) s)
  unfolding call reset new_object delete_object
  renews_lem i none here = (
    record {
      heap = record (s.heap) {
        object = update s.heap.object s.heap.next true;
        next = suc s.heap.next;
      };
      vars = set s.vars i (some (some s.heap.next));
    },
    ground arith,
    record {
      exact = λ p. ground (
        arith,
        inv.exact p,
        inv.fresh p,
        total-set (holds p) s.vars i (some (some s.heap.next)) here,
      );
      fresh = λ p h. ground (arith, inv.fresh p);
    },
  )
  renews_lem i (some q) here = (
    record {
      heap = record (s.heap) {
        object = update (update s.heap.object s.heap.next true) q false;
        next = suc s.heap.next;
      };
      vars = set s.vars i (some (some s.heap.next));
    },
    ground (arith, inv.exact q, le-total (holds q) s.vars i here),
    record {
      exact = λ p. ground (
        arith,
        inv.exact p,
        inv.exact q,
        le-total (holds q) s.vars i here,
        inv.fresh p,
        inv.fresh q,
        total-set (holds p) s.vars i (some (some s.heap.next)) here,
      );
      fresh = λ p h. ground (arith, inv.fresh p);
    },
  )

-- A legal call never faults, and keeps every object with exactly one owner.
pub call-IsExclusive : (c : Call) {s : State} → IsExclusive s → IsLegal c s → Runs (call c s)
unfolding call
call-IsExclusive makes inv legal = (_, refl, makes_lem inv)
call-IsExclusive nulls inv legal = (_, refl, nulls_lem inv)
call-IsExclusive (moves j) inv there = moves_lem inv j there
call-IsExclusive (takes i j) inv (here, there) = takes_lem inv i here.1 j there
call-IsExclusive (dies i) inv here = dies_lem inv i here.1
call-IsExclusive (resets i) inv here = resets_lem inv i here.1
call-IsExclusive (renews i) inv here = renews_lem inv i here.0 here.1
