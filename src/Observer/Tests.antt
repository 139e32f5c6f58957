-- ===== src/Observer/Tests.antt =====
-- Observers whose lives are given by a function, and whose updates are counted.
use cpp_backend.Prelude.{ℕ, ◌+◌, ◌≡◌, refl, Bool, [], ◌∷◌, ltb}
use cpp_backend.Observer.{Observers, notify}
use cpp_backend.Observer.Notices.{notify_lem}

record World : Type 0 where
  lives : ℕ → Bool
  updates : ℕ

abbrev users : Observers
users = record {
  World = World;
  Message = ℕ;
  alive = λ w. w.lives;
  update = λ o m w. record { lives = w.lives; updates = w.updates + 1 };
}

-- Observers below 3 are alive.
abbrev world : World
world = record { lives = λ i. ltb i 3; updates = 0 }

notify_lem_example :
    ((notify users 7 (1 ∷ 5 ∷ 2 ∷ []) world).called ≡ 1 ∷ 2 ∷ [])
    × ((notify users 7 (1 ∷ 5 ∷ 2 ∷ []) world).observers ≡ 1 ∷ 2 ∷ [])
notify_lem_example = notify_lem users (λ o i m w. refl) 7 (1 ∷ 5 ∷ 2 ∷ []) world
