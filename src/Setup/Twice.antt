-- ===== src/Setup/Twice.antt =====
-- What `error` leaves to the destructor, which runs when `main` has caught the exception of `init`.
use cpp_backend.Prelude.{ℕ, ◌≡◌, false, none, some}
use cpp_backend.Setup.Os.{Os, Documented}
use cpp_backend.Setup.Init.{Outcome, returned, thrown}

module _ (os : Os) (doc : Documented os) where
  -- Nothing is open under the number of the epoll instance that is left, if there is one, and no number of a socket.
  abbrev Stale : Outcome os → Type 0
  Stale (returned s) = Unit
  Stale (thrown t) =
      (t.server_fd ≡ none) × ((e : ℕ) → t.epfd ≡ some e → os.is_open t.world e ≡ false)
