-- ===== src/Reactor/Stale.antt =====
-- reactor_server.cpp: the replies go to descriptors, not to connections.
use cpp_backend.Prelude.{
  ℕ, ◌<◌, ◌≡◌, refl, true, none, some, List, [], ◌∷◌, ◌++◌, length, get_elem?-end, remove-end,
  arith,
}
use cpp_backend.Reactor.Os.{acceptor, connection, Event, Os}
use cpp_backend.Reactor.Server

-- A client can be read.
abbrev pub speaks : ℕ → List Event
speaks c = record { ch = connection c; readable = true } ∷ []

-- The end of a connection, and a client that waits at the listening socket.
abbrev pub hangs_up : ℕ → List Event
hangs_up c =
    record { ch = connection c; readable = true } ∷ record { ch = acceptor; readable = true } ∷ []

module _ (os : Os) where
  run_task-last :
      (s : Server.State os) (task : Server.SendTask) (tasks : List Server.SendTask)
      → s.submitted ≡ tasks ++ task ∷ []
      → Server.run_task os (length tasks) s
        ≡ some (record s { submitted = tasks; world = os.send task.fd task.msg s.world })
  unfolding Server.run_task
  run_task-last s task tasks is =
      ground (arith, is, get_elem?-end tasks task, remove-end tasks task)

  -- If a client sends a text and leaves, and the next client gets its descriptor from accept before the task for the
  -- text runs, then the first connection is gone, the descriptor is that of the new connection, and the task sends the
  -- text of the first client to it.
  pub stale_reply :
      (s : Server.State os) (c fd b : ℕ) (bs : List ℕ) (w w' w'' : os.World)
      → s.connections c ≡ some fd
      → c < s.next
      → os.recv fd 1024 s.world ≡ (b ∷ bs, w)
      → os.recv fd 1024 w ≡ ([], w')
      → os.accept s.listenfd (os.close fd w') ≡ (some fd, w'')
      → (r : Server.State os) × (t : Server.State os) × (u : Server.State os) × (Server.handle_all
            os 1
            (speaks c)
            s
          ≡ some r)
        × (Server.handle_all os 1 (hangs_up c) r ≡ some t)
        × (t.connections c ≡ none)
        × (t.connections s.next ≡ some fd)
        × (t.interest fd ≡ some (connection s.next))
        × (Server.run_task os (length s.submitted) t ≡ some u)
        × (u.submitted ≡ s.submitted)
        × (u.world ≡ os.send fd (b ∷ bs) w'')
  unfolding Server.handle_all Server.delete_connection Server.new_connection
  stale_reply s c fd b bs w w' w'' here older text left came =
      let task : Server.SendTask = record { fd = fd; msg = b ∷ bs } in
      let r : Server.State os = record s { world = w; submitted = s.submitted ++ task ∷ [] } in
      let v : Server.State os =
        Server.delete_connection os c fd (Server.remove_channel os fd (record r { world = w' })) in
      let t : Server.State os = Server.new_connection os fd (record v { world = w'' }) in
      (
        r,
        t,
        record t { submitted = s.submitted; world = os.send fd (b ∷ bs) w'' },
        ground arith,
        ground arith,
        ground arith,
        ground arith,
        ground arith,
        run_task-last t task s.submitted refl,
        refl,
        refl,
      )
