-- ===== src/Reactor/Tests.antt =====
-- reactor_server.cpp on a small operating system: the descriptors that are open, and a count of the calls of recv.
use cpp_backend.Prelude.{
  ◌≡◌, refl, true, false, Option, none, some, List, [], ◌∷◌, ltb, update, arith,
}
use cpp_backend.Reactor.Os.{acceptor, connection}
use cpp_backend.Reactor.Small.{World, small, small-Documented, booted}
use cpp_backend.Reactor.Server
use cpp_backend.Reactor.Safety.{Inv, loop-safe, start-Inv}
use cpp_backend.Reactor.Stale.{speaks, hangs_up, stale_reply}

abbrev listening : Server.State small
listening = Server.start small 3 booted

listening-Inv : Inv small small-Documented listening
listening-Inv = start-Inv small small-Documented 3 booted refl

loop-safe_example :
    (t : Server.State small) × (Server.loop small 1 4 listening ≡ some t)
    × Inv small small-Documented t
loop-safe_example = loop-safe small small-Documented 1 4 listening listening-Inv

-- A client that has sent two bytes and is gone.
abbrev greeted : Server.State small
greeted = record {
  listenfd = 3;
  connections = update (λ _. none) 0 (some 4);
  next = 1;
  interest = update (update (λ _. none) 3 (some acceptor)) 4 (some (connection 0));
  submitted = [];
  world = record { opened = λ i. ltb i 5; turn = 0 };
}

abbrev gone_and_come : World
gone_and_come = record { opened = update (update (λ i. ltb i 5) 4 false) 4 true; turn = 2 }

stale_reply_example :
    (r : Server.State small) × (t : Server.State small) × (u : Server.State small)
    × (Server.handle_all small 1 (speaks 0) greeted ≡ some r)
    × (Server.handle_all small 1 (hangs_up 0) r ≡ some t)
    × (t.connections 0 ≡ none)
    × (t.connections 1 ≡ some 4)
    × (t.interest 4 ≡ some (connection 1))
    × (Server.run_task small 0 t ≡ some u)
    × (u.submitted ≡ [])
    × (u.world ≡ gone_and_come)
stale_reply_example =
    stale_reply small greeted 0 4 104 (105 ∷ []) (record { opened = λ i. ltb i 5; turn = 1 })
      (record { opened = λ i. ltb i 5; turn = 2 }) gone_and_come refl (omega arith) refl refl refl

-- The first client is answered.
abbrev replies_of : Option (Server.State small) → List Server.SendTask
replies_of none = []
replies_of (some s) = s.submitted

one_reply :
    replies_of (Server.loop small 1 3 listening) ≡ record { fd = 4; msg = 104 ∷ 105 ∷ [] } ∷ []
unfolding Server.loop
one_reply = refl
