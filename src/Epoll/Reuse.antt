-- ===== src/Epoll/Reuse.antt =====
-- epollthread.cpp: epoll reports a client again while a thread that was started for it has not read yet, so that
-- several threads may close the same descriptor.
use cpp_backend.Prelude.{ℕ, ◌≡◌, refl, true, false, none, some, List, [], ◌∷◌, update, arith}
use cpp_backend.Epoll.Os.{Event, Os, Documented}
use cpp_backend.Epoll.Servers.{thread_per_event}
use cpp_backend.Epoll.Machine.{Job, closing, State, handle, add, job, run}

module _ (os : Os) (doc : Documented os) (server : ℕ) where
  -- If two threads are about to close the same client, and between their steps the main thread accepts the next
  -- client, which gets the descriptor, then the second thread removes that client from epoll and closes it.
  pub closes_next_client :
      (fd : ℕ) (js : List Job) (es : List Event) (s : State os) (w w' : os.World)
      → s.jobs ≡ closing fd ∷ closing fd ∷ js
      → s.adding ≡ none
      → s.batch ≡ record { fd = server; readable = true } ∷ es
      → os.accept server (os.close fd s.world) ≡ (some fd, w)
      → os.add fd w ≡ (true, w')
      → (u : State os) × (t : State os) × (thread_per_event os server
            (job 0 ∷ handle 0 ∷ add ∷ [])
            s
          ≡ some u)
        × (u.watched fd ≡ true)
        × (thread_per_event os server (job 0 ∷ []) u ≡ some t)
        × (t.watched fd ≡ false)
        × (os.is_open t.world fd ≡ false)
  unfolding run
  closes_next_client fd js es s w w' two idle next came added =
      let u : State os = record {
        watched = update (update s.watched fd false) fd true;
        jobs = closing fd ∷ js;
        batch = es;
        adding = none;
        looping = s.looping;
        errno_again = s.errno_again;
        world = w';
      } in
      let t : State os = record u {
        watched = update u.watched fd false;
        jobs = js;
        world = os.close fd w';
      } in
      (u, t, ground arith, ground arith, refl, ground arith, doc.close_gone fd w')
