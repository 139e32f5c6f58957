-- ===== src/Observer/Notices.antt =====
-- Who is told what by notify, and what attach and detach change of it.
use cpp_backend.Prelude.{
  ℕ, ◌+◌, ◌-◌, ◌≡◌, refl, sym, ap, ◌∙◌, ◌≢◌, subst, Bool, true, some, List, [], ◌∷◌, ◌++◌, ◌==◌,
  if◌then◌else◌, arith, Bool-cases, inl, inr,
}
use native.Mathlib.Decide.{ℕ_discrete}
use cpp_backend.Observer.{Observers, attach, detach, notify}

-- How often an observer stands in a list.
abbrev pub times : ℕ → List ℕ → ℕ
times a [] = 0
times a (b ∷ bs) = (if b == a then 1 else 0) + times a bs

-- Those of a list that are alive, in its order.
abbrev pub living : (ℕ → Bool) → List ℕ → List ℕ
living alive [] = []
living alive (o ∷ os) = if alive o then o ∷ living alive os else living alive os

times-snoc :
    (a b : ℕ) (bs : List ℕ) → times a (bs ++ b ∷ []) ≡ times a bs + (if b == a then 1 else 0)
times-snoc a b [] = omega arith
times-snoc a b (x ∷ bs) = omega (arith, times-snoc a b bs)

module _ (os : Observers) where
  -- `update` ends no observer's life and begins none.
  abbrev pub IsSteady : Type 0
  IsSteady = (o i : ℕ) (m : os.Message) (w : os.World) → os.alive (os.update o m w) i ≡ os.alive w i

  living-steady :
      IsSteady
      → (o : ℕ) (m : os.Message) (w : os.World) (list : List ℕ)
      → living (os.alive (os.update o m w)) list ≡ living (os.alive w) list
  living-steady steady o m w [] = refl
  living-steady steady o m w (x ∷ list) =
      ground (arith, steady o x m w, living-steady steady o m w list)

  -- If an update changes nobody's life, notify calls the observers that are alive, each as often as it is
  -- attached and in the order of attachment, and only these are left attached.
  pub notify_lem :
      IsSteady
      → (m : os.Message) (list : List ℕ) (w : os.World)
      → ((notify os m list w).called ≡ living (os.alive w) list)
        × ((notify os m list w).observers ≡ living (os.alive w) list)
  unfolding notify
  notify_lem steady m [] w = (refl, refl)
  notify_lem steady m (o ∷ list) w = elim (Bool-cases (os.alive w o)) [
    | inl lives ↦
        let (a, b) = notify_lem steady m list (os.update o m w) in
        let same = living-steady steady o m w list in (ground arith, ground arith)
    | inr dead ↦ let (a, b) = notify_lem steady m list w in (ground arith, ground arith)
  ]

  detach_found :
      (w : os.World) (obs : ℕ) (list : List ℕ)
      → os.alive w obs ≡ true
      → detach os w (some obs) (obs ∷ list) ≡ list
  unfolding detach
  detach_found w obs list lives = ground arith

  detach_next :
      (w : os.World) (obs o : ℕ) (list : List ℕ)
      → o ≢ obs
      → detach os w (some obs) (o ∷ list) ≡ o ∷ detach os w (some obs) list
  unfolding detach
  detach_next w obs o list other = ground arith

  detached :
      (w : os.World) (obs a : ℕ) (list : List ℕ)
      → os.alive w obs ≡ true
      → times a (detach os w (some obs) list) ≡ times a list - (if obs == a then 1 else 0)
  unfolding detach
  detached w obs a [] lives = omega arith
  detached w obs a (o ∷ list) lives = elim (ℕ_discrete o obs) [
    | yes same ↦
        subst
          (λ k.
            times a (detach os w (some obs) (k ∷ list))
            ≡ times a (k ∷ list) - (if obs == a then 1 else 0))
          (sym same) (ap (times a) (detach_found w obs list lives) ∙ omega arith)
    | no other ↦
        ap (times a) (detach_next w obs o list other)
        ∙ next_times (times a (detach os w (some obs) list)) (times a list) other
            (detached w obs a list lives)
  ]
    where
      next_times :
          (m n : ℕ)
          → o ≢ obs
          → m ≡ n - (if obs == a then 1 else 0)
          → (if o == a then 1 else 0) + m
            ≡ (if o == a then 1 else 0) + n - (if obs == a then 1 else 0)
      next_times m n other e = elim (ℕ_discrete obs a) [
        | yes same ↦ ground arith
        | no differ ↦ ground arith
      ]

  -- detach of a living observer takes one of its attachments away, if it has any, and those of others stay; attach
  -- adds one.
  pub detach-times :
      (w : os.World) (obs a : ℕ) (list : List ℕ)
      → os.alive w obs ≡ true
      → (times a (detach os w (some obs) list) ≡ times a list - (if obs == a then 1 else 0))
        × (times a (attach (some obs) list) ≡ times a list + (if obs == a then 1 else 0))
  unfolding attach
  detach-times w obs a list lives = (detached w obs a list lives, times-snoc a obs list)
