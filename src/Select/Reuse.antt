-- ===== src/Select/Reuse.antt =====
-- selectthread.cpp: select reports a client again while a thread that was started for it has not read yet. The second close
-- can hit the next client before it is added.
use cpp_backend.Prelude.{
  ℕ, ◌≡◌, Bool, true, false, none, some, List, [], ◌∷◌, leb, ◌+◌, ◌≤◌, ◌||◌, update, arith,
}
use cpp_backend.DescendingSet.{insert, erase}
use cpp_backend.Select.Os.{Os, Documented}
use cpp_backend.Select.Servers.{thread_per_event}
use cpp_backend.Select.Machine.{Job, closing, State, scan, add, job, run, highest}

module _ (os : Os) (doc : Documented os) (server : ℕ) where
  -- If two threads are about to close the same client, the first does, the server is the next descriptor of the scan, accept gives the
  -- same descriptor to the next client, and the second thread closes it before the main thread adds it, then the fd_set
  -- has a descriptor that is closed.
  pub selects_closed :
      (fd cur_max_fd : ℕ) (ready : ℕ → Bool) (js : List Job) (s : State os) (w : os.World)
      → s.jobs ≡ closing fd ∷ closing fd ∷ js
      → s.adding ≡ none
      → s.scanning ≡ some (record { ready = ready; cur_max_fd = cur_max_fd; fd = server })
      → ready server ≡ true
      → server ≤ cur_max_fd
      → os.accept server (os.close fd s.world) ≡ (some fd, w)
      → (t : State os) × (thread_per_event os server (job 0 ∷ scan ∷ job 0 ∷ add ∷ []) s ≡ some t)
        × (t.read_fds fd ≡ true)
        × (os.is_open t.world fd ≡ false)
  unfolding run
  selects_closed fd cur_max_fd ready js s w two idle at asked inside came =
      let cs : List ℕ = insert fd (erase fd (erase fd s.client_fds)) in
      let t : State os = record s {
        max_fd = highest os server cs;
        read_fds = update (update (update s.read_fds fd false) fd false) fd true;
        client_fds = cs;
        jobs = js;
        scanning = some (record { ready = ready; cur_max_fd = cur_max_fd; fd = server + 1 });
        adding = none;
        overrun = s.overrun || leb 1024 fd;
        world = os.close fd w;
      } in
      (t, ground arith, ground arith, doc.close_gone fd w)
