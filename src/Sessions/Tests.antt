-- ===== src/Sessions/Tests.antt =====
-- The conversation with a client whose texts are in a list.
use cpp_backend.Prelude.{
  ℕ, ◌<◌, ◌≡◌, ◌≢◌, refl, ap, Bool, true, false, none, some, List, [], ◌∷◌, ◌++◌, ltb, length,
  update, arith,
}
use cpp_backend.Texts.{message_received}
use cpp_backend.Sessions.Os.{Recv, bytes, failed, Os, Documented}
use cpp_backend.Sessions.Server.{End, Outcome, client_communicate, communicate_cpp, destroy}
use cpp_backend.Sessions.Answers.{Ends, client_communicate-answers}
use cpp_backend.Sessions.Single.{state_of, AllClosed, communicate_cpp-AllClosed}

record World : Type 0 where
  incoming : List (List ℕ)
  read : List (List ℕ)
  sent : List (List ℕ)
  opened : ℕ → Bool

abbrev take_text : List (List ℕ) → World → Recv × World
take_text [] w = (bytes [], w)
take_text ([] ∷ rest) w = (bytes [], w)
take_text ((b ∷ bs) ∷ rest) w =
    (bytes (b ∷ bs), record w { incoming = rest; read = w.read ++ (b ∷ bs) ∷ [] })

abbrev small : Os
small = record {
  World = World;
  accept = λ fd w. (none, w);
  recv = λ fd n w. take_text w.incoming w;
  send = λ fd msg w. (true, record w { sent = w.sent ++ msg ∷ [] });
  close = λ fd w. record w { opened = update w.opened fd false };
  is_open = λ w. w.opened;
  read = λ w. w.read;
  sent = λ w. w.sent;
  left = λ w. length w.incoming;
}

small-recv_read :
    (ts : List (List ℕ)) (w w' : World) (b : ℕ) (bs : List ℕ)
    → w.incoming ≡ ts
    → take_text ts w ≡ (bytes (b ∷ bs), w')
    → (w'.read ≡ w.read ++ (b ∷ bs) ∷ []) × (length w'.incoming < length w.incoming)
small-recv_read [] w w' b bs is e = absurd (cc)
small-recv_read ([] ∷ rest) w w' b bs is e = absurd (cc)
small-recv_read ((c ∷ cs) ∷ rest) w w' b bs is e = (ground arith, ground arith)

small-recv_end :
    (ts : List (List ℕ)) (w w' : World) → take_text ts w ≡ (bytes [], w') → w'.read ≡ w.read
small-recv_end [] w w' e = ground arith
small-recv_end ([] ∷ rest) w w' e = ground arith
small-recv_end ((c ∷ cs) ∷ rest) w w' e = absurd (cc)

small-recv_failed :
    (ts : List (List ℕ)) (w w' : World) → take_text ts w ≡ (failed, w') → w'.read ≡ w.read
small-recv_failed [] w w' e = absurd (cc)
small-recv_failed ([] ∷ rest) w w' e = absurd (cc)
small-recv_failed ((c ∷ cs) ∷ rest) w w' e = absurd (cc)

small-recv_sent : (ts : List (List ℕ)) (w : World) → (take_text ts w).1.sent ≡ w.sent
small-recv_sent [] w = refl
small-recv_sent ([] ∷ rest) w = refl
small-recv_sent ((c ∷ cs) ∷ rest) w = refl

small-recv_opened : (ts : List (List ℕ)) (w : World) → (take_text ts w).1.opened ≡ w.opened
small-recv_opened [] w = refl
small-recv_opened ([] ∷ rest) w = refl
small-recv_opened ((c ∷ cs) ∷ rest) w = refl

small-Documented : Documented small
small-Documented = record {
  recv_read = λ fd n b bs w w' e. small-recv_read w.incoming w w' b bs refl e;
  recv_end = λ fd n w w' e. small-recv_end w.incoming w w' e;
  recv_failed = λ fd n w w' e. small-recv_failed w.incoming w w' e;
  recv_keeps = λ fd n w. small-recv_sent w.incoming w;
  recv_opens = λ fd n i w. ap (λ f. f i) (small-recv_opened w.incoming w);
  send_sent = λ fd msg w w' e. ground arith;
  send_failed = λ fd msg w w' e. absurd (ground arith);
  send_keeps = λ fd msg w. refl;
  send_left = λ fd msg w. omega arith;
  send_opens = λ fd i msg w. refl;
  close_gone = λ fd w. ground arith;
  close_keeps = λ fd i w differ. ground arith;
  close_read = λ fd w. refl;
  close_sent = λ fd w. refl;
}

-- "a", and then "b"
abbrev talking : World
talking = record {
  incoming = (97 ∷ []) ∷ (98 ∷ []) ∷ [];
  read = [];
  sent = [];
  opened = λ i. ltb i 5;
}

client_communicate-answers_example :
    (e : End) × (v : World) × (client_communicate small 3 4 talking ≡ some (small.close 4 v))
    × Ends small small-Documented message_received 4 e v
    × ((small.close 4 v).opened 4 ≡ false)
    × ((i : ℕ) → i ≢ 4 → (small.close 4 v).opened i ≡ ltb i 5)
client_communicate-answers_example =
    client_communicate-answers small small-Documented 3 4 talking (omega arith) refl

communicate_cpp-AllClosed_example :
    (o : Outcome small) × (communicate_cpp small 3 4
        (record { server_fd = some 3; client_fd = some 4; world = talking })
      ≡ some o)
    × AllClosed small small-Documented 3 4 talking
        (destroy small (state_of small small-Documented o))
communicate_cpp-AllClosed_example =
    communicate_cpp-AllClosed small small-Documented 3 4 (λ same. absurd (omega (arith, same))) 3
      talking (omega arith) refl
