-- ===== src/Pool/Highest.antt =====
-- PriThreadPool starts the tasks that wait in the order of their priorities.
use cpp_backend.Prelude.{
  ℕ, ◌+◌, ◌≤◌, ◌≡◌, Bool, true, false, some, List, [], ◌∷◌, ◌++◌, get_elem?, remove, total, ◌⊎◌,
  All,
}
use cpp_backend.Pool.Machine.{Task, State, Move, push}

-- Does a move put a task into the queue?
abbrev pub is_push : Move → Bool
is_push (push c) = true
is_push _ = false

abbrev pub Below : ℕ → List Task → Type 0
Below n = All (λ w. w.pri ≤ n)

-- No task has a higher priority than one before it.
abbrev pub Descending : List Task → Type 0
Descending [] = Unit
Descending (u ∷ us) = Below u.pri us × Descending us

-- The tasks `us` were started between two states.
record Started (s t : State) (us : List Task) : Type 0 where
  log : t.started ≡ s.started ++ us
  descending : Descending us
  above : All (λ u. Below u.pri t.queue) us
  same : (w : Task → ℕ) → total w us + total w t.queue ≡ total w s.queue
  below : (n : ℕ) → Below n s.queue → Below n us × Below n t.queue

-- What a move does to the queue: nothing, or it takes a highest task.
abbrev Takes : State → State → Type 0
Takes s t =
    ((t.started ≡ s.started) × (t.queue ≡ s.queue))
    ⊎ ((k : ℕ) × (u : Task) × (get_elem? s.queue k ≡ some u)
        × Below u.pri s.queue
        × (t.started ≡ s.started ++ u ∷ [])
        × (t.queue ≡ remove s.queue k))
