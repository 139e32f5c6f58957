-- ===== src/SmartPtr/Shared/Methods.antt =====
-- Every method of shared_ptr but `reset` runs without a fault and keeps the counting invariant.
use native.Mathlib.Decide.{ℕ_discrete}
use cpp_backend.Prelude.{
  ℕ, ◌+◌, ◌<◌, ◌≡◌, ◌≢◌, refl, Option, none, some, sym, ◌∙◌, get_elem?, set, set-set, set-end,
  set-append_left, length, arith, get_elem?-set_ne, get_elem?-set_self, get_elem?-end,
  get_elem?-append_left, lt_of_get_elem?, ◌++◌, [], ◌∷◌,
}
use cpp_backend.SmartPtr.Shared.{
  Shared, State, word, put, null_ptr, var, construct, make_shared, copy_construct, move_construct,
  destroy, copy_assign, move_assign,
}
use cpp_backend.SmartPtr.Shared.Counting.{Inv}
use cpp_backend.SmartPtr.Shared.Release.{Released, release_lem}
use cpp_backend.SmartPtr.Shared.Owning.{share_lem, move-Inv, extend-Inv, newborn-Inv, fill_null}

-- A method call of the program: the variables by their addresses.
pub data Call : Type 0 where
  makes : Call  -- auto p = make_shared<T>(...)
  nulls : Call  -- shared_ptr<T> p
  copies : (from : ℕ) → Call  -- shared_ptr<T> p = from
  moves : (from : ℕ) → Call  -- shared_ptr<T> p = std::move(from)
  dies : (this_var : ℕ) → Call  -- the end of a scope
  assigns : (this_var from : ℕ) → Call  -- p = from
  takes : (this_var from : ℕ) → Call  -- p = std::move(from)

unfoldable pub call : Call → State → Option State
call makes s = some (make_shared s)
call nulls s = some (construct none s)
call (copies j) s = copy_construct j s
call (moves j) s = move_construct j s
call (dies i) s = destroy i s
call (assigns i j) s = copy_assign i j s
call (takes i j) s = move_assign i j s

abbrev pub Living : ℕ → State → Type 0
Living i s = (v : Shared) × (get_elem? s.vars i ≡ some (some v))

-- The variables that a call names are alive, and there is room for a new one.
abbrev pub IsLegal : Call → State → Type 0
IsLegal makes s = length s.vars + 1 < word
IsLegal nulls s = length s.vars + 1 < word
IsLegal (copies j) s = (length s.vars + 1 < word) × Living j s
IsLegal (moves j) s = (length s.vars + 1 < word) × Living j s
IsLegal (dies i) s = Living i s
IsLegal (assigns i j) s = Living i s × Living j s
IsLegal (takes i j) s = Living i s × Living j s

abbrev pub Runs : (ℕ → ℕ) → Option State → Type 0
Runs object_of r = (t : State) × (r ≡ some t) × Inv object_of t

module _ {object_of : ℕ → ℕ} {s : State} (inv : Inv object_of s) where
  destroy_lem : (i : ℕ) → Living i s → Runs object_of (destroy i s)
  unfolding destroy
  destroy_lem i (v, here) =
      let (t, done) = release_lem inv i here in (put i none t, rw done.runs refl, done.erased)

  -- What `release` leaves, seen without the variable: another variable is as it was.
  module _ (i j : ℕ) (differ : i ≢ j) {v w : Shared} (here : get_elem? s.vars i ≡ some (some v))
      (there : get_elem? s.vars j ≡ some (some w)) {t : State}
      (done : Released object_of i s t) where
    emptied : get_elem? (set t.vars i none) i ≡ some none
    emptied = rw done.same (get_elem?-set_self s.vars i none here)

    untouched : get_elem? (set t.vars i none) j ≡ some (some w)
    untouched = rw done.same (get_elem?-set_ne s.vars i j none differ ∙ there)

    untouched_now : get_elem? t.vars j ≡ some (some w)
    untouched_now = sym (get_elem?-set_ne t.vars i j none differ) ∙ untouched

    copy_after : Runs object_of (copy_assign i j s)
    unfolding copy_assign var
    copy_after =
        let (m, up, inv') = share_lem done.erased i j emptied untouched in
        (
          put i (some w) (record t { heap = m }),
          ground (arith, done.runs, untouched_now, up),
          rw (set-set t.vars i none (some w)) at inv',
        )

    move_after : Runs object_of (move_assign i j s)
    unfolding move_assign var
    move_after = (
      put j (some null_ptr) (put i (some w) t),
      ground (arith, done.runs, untouched_now),
      rw (set-set t.vars i none (some w)) at (move-Inv done.erased i j differ emptied untouched),
    )

  copy_assign_lem : (i j : ℕ) → Living i s → Living j s → Runs object_of (copy_assign i j s)
  unfolding copy_assign
  copy_assign_lem i j (v, here) (w, there) = elim (ℕ_discrete i j) [
    | yes same ↦ (s, ground arith, inv)
    | no differ ↦ let (t, done) = release_lem inv i here in copy_after i j differ here there done
  ]

  move_assign_lem : (i j : ℕ) → Living i s → Living j s → Runs object_of (move_assign i j s)
  unfolding move_assign
  move_assign_lem i j (v, here) (w, there) = elim (ℕ_discrete i j) [
    | yes same ↦ (s, ground arith, inv)
    | no differ ↦ let (t, done) = release_lem inv i here in move_after i j differ here there done
  ]

  -- The constructors fill a variable that is new.
  module _ (room : length s.vars + 1 < word) where
    abbrev fresh : ℕ
    fresh = length s.vars

    construct_null_lem : Runs object_of (some (construct none s))
    unfolding construct
    construct_null_lem = (
      _,
      refl,
      rw (set-end s.vars none (some null_ptr)) at
          (fill_null (extend-Inv inv room) fresh (get_elem?-end s.vars none) null_ptr refl refl),
    )

    copy_construct_lem : (j : ℕ) → Living j s → Runs object_of (copy_construct j s)
    unfolding copy_construct var
    copy_construct_lem j (w, there) =
        let (m, up, inv') =
          share_lem (extend-Inv inv room) fresh j (get_elem?-end s.vars none)
            (get_elem?-append_left s.vars (none ∷ []) j there) in
        (
          record { heap = m; vars = s.vars ++ some w ∷ [] },
          ground (arith, there, up),
          rw (set-end s.vars none (some w)) at inv',
        )

    move_construct_lem : (j : ℕ) → Living j s → Runs object_of (move_construct j s)
    unfolding move_construct var
    move_construct_lem j (w, there) = (
      record s { vars = set s.vars j (some null_ptr) ++ some w ∷ [] },
      ground (arith, there),
      rw
          (
            set-end s.vars none (some w),
            set-append_left s.vars (some w ∷ []) j (some null_ptr) (lt_of_get_elem? s.vars j there),
          )
          at
          (move-Inv (extend-Inv inv room) fresh j (omega (arith, lt_of_get_elem? s.vars j there))
            (get_elem?-end s.vars none) (get_elem?-append_left s.vars (none ∷ []) j there)),
    )

    make_shared_lem : (o : ℕ → ℕ) × Runs o (some (make_shared s))
    unfolding make_shared
    make_shared_lem = (
      _,
      (
        _,
        refl,
        rw (set-end s.vars none _) at
            (newborn-Inv (extend-Inv inv room) fresh (get_elem?-end s.vars none)),
      ),
    )

-- A legal call never faults, and keeps the invariant.
pub call-Inv :
    (c : Call) {object_of : ℕ → ℕ} {s : State}
    → Inv object_of s
    → IsLegal c s
    → (o : ℕ → ℕ) × Runs o (call c s)
unfolding call
call-Inv makes inv room = make_shared_lem inv room
call-Inv nulls inv room = (_, construct_null_lem inv room)
call-Inv (copies j) inv (room, there) = (_, copy_construct_lem inv room j there)
call-Inv (moves j) inv (room, there) = (_, move_construct_lem inv room j there)
call-Inv (dies i) inv here = (_, destroy_lem inv i here)
call-Inv (assigns i j) inv (here, there) = (_, copy_assign_lem inv i j here there)
call-Inv (takes i j) inv (here, there) = (_, move_assign_lem inv i j here there)
