-- ===== src/Observer.antt =====
-- The class Subject of Cpp_Design_Mode/ObserverMode.cpp. An observer is named by the control block of its shared_ptr.
pub mod Notices
mod Tests
use cpp_backend.Prelude.{
  ℕ, Bool, true, false, Option, none, some, List, [], ◌∷◌, ◌++◌, ◌&&◌, ◌==◌, if◌then◌else◌,
}

-- The observers themselves, which are not code of Subject: which of them are alive, and their virtual `update`.
pub record Observers : Type 1 where
  pub World : Type 0
  pub Message : Type 0
  pub alive : World → ℕ → Bool
  pub update : ℕ → Message → World → World

-- attach(obs): `none` is a null pointer.
unfoldable pub attach : Option ℕ → List ℕ → List ℕ
attach none observers = observers
attach (some obs) observers = observers ++ obs ∷ []

module _ (os : Observers) where
  -- detach(obs)
  unfoldable pub detach : os.World → Option ℕ → List ℕ → List ℕ
  detach w none observers = observers
  detach w (some obs) [] = []
  detach w (some obs) (o ∷ observers) =
      let rest = detach w (some obs) observers in
      if os.alive w o && (o == obs) then observers else o ∷ rest

  -- After notify: the observers that are left, those whose `update` was called, in this order, and the world.
  pub record Notified : Type 0 where
    pub observers : List ℕ
    pub called : List ℕ
    pub world : os.World

  -- notify(message)
  unfoldable pub notify : os.Message → List ℕ → os.World → Notified
  notify message [] w = record { observers = []; called = []; world = w }
  notify message (o ∷ observers) w = elim (os.alive w o) [
    | true ↦
        let r = notify message observers (os.update o message w) in
        record { observers = o ∷ r.observers; called = o ∷ r.called; world = r.world }
    | false ↦ notify message observers w
  ]
