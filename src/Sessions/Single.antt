-- ===== src/Sessions/Single.antt =====
-- ServerRetype.cpp and TCP_ServerCommunicateCpp.cpp: one client, and the end of the server.
use cpp_backend.Prelude.{ℕ, ◌<◌, ◌≡◌, ◌≢◌, sym, ap, ◌∙◌, false, some, ◌>>=◌}
use cpp_backend.Texts.{message_received, message_received_cpp}
use cpp_backend.Sessions.Os.{Os, Documented}
use cpp_backend.Sessions.Server.{
  End, client_left, recv_failed, send_failed, State, Outcome, returned, thrown, error,
  finish_retype, communicate_retype, finish_cpp, communicate_cpp, destroy,
}
use cpp_backend.Sessions.Answers.{answers, converse-Ends}

module _ (os : Os) (doc : Documented os) where
  abbrev pub state_of : Outcome os → State os
  state_of (returned s) = s
  state_of (thrown s) = s

  -- The destructor has closed both descriptors, and nothing else.
  abbrev pub AllClosed : ℕ → ℕ → os.World → os.World → Type 0
  AllClosed server client w w' =
      (os.is_open w' server ≡ false)
      × (os.is_open w' client ≡ false)
      × ((i : ℕ) → i ≢ server → i ≢ client → os.is_open w' i ≡ os.is_open w i)

  close_both :
      (a b : ℕ) (w : os.World)
      → a ≢ b
      → (os.is_open (os.close b (os.close a w)) a ≡ false)
        × (os.is_open (os.close b (os.close a w)) b ≡ false)
        × ((i : ℕ) → i ≢ a → i ≢ b → os.is_open (os.close b (os.close a w)) i ≡ os.is_open w i)
  close_both a b w differ = (
    doc.close_keeps b a (os.close a w) differ ∙ doc.close_gone a w,
    doc.close_gone b (os.close a w),
    λ i x y. doc.close_keeps b i (os.close a w) y ∙ doc.close_keeps a i w x,
  )

  module _ (server client : ℕ) (apart : server ≢ client) where
    abbrev serving : os.World → State os
    serving w = record { server_fd = some server; client_fd = some client; world = w }

    client_first : (w : os.World) → AllClosed server client w (os.close server (os.close client w))
    client_first w =
        let (a, b, c) = close_both client server w (λ same. apart (sym same)) in
        (b, a, λ i x y. c i y x)

    finish_retype-AllClosed :
        (e : End) (w : os.World)
        → AllClosed server client w (destroy os (state_of (finish_retype os e (serving w))))
    unfolding finish_retype error destroy
    finish_retype-AllClosed client_left w = close_both server client w apart
    finish_retype-AllClosed recv_failed w = client_first w
    finish_retype-AllClosed send_failed w = close_both server client w apart

    finish_cpp-AllClosed :
        (e : End) (w : os.World)
        → AllClosed server client w (destroy os (state_of (finish_cpp os e (serving w))))
    unfolding finish_cpp error destroy
    finish_cpp-AllClosed client_left w = close_both server client w apart
    finish_cpp-AllClosed recv_failed w = client_first w
    finish_cpp-AllClosed send_failed w = close_both server client w apart

    moved :
        (w v u : os.World)
        → ((i : ℕ) → os.is_open v i ≡ os.is_open w i)
        → AllClosed server client v u
        → AllClosed server client w u
    moved w v u same (a, b, c) = (a, b, λ i x y. c i x y ∙ same i)

    -- If the client sends finitely much, then communicate of TCP_ServerCommunicateCpp.cpp returns or throws, in one round more
    -- than there are texts, and with the destructor after it both descriptors of the server are closed, whether it returns
    -- or throws, and no other is opened or closed.
    pub communicate_cpp-AllClosed :
        (rounds : ℕ) (w : os.World)
        → os.left w < rounds
        → answers os doc message_received_cpp (os.read w) ≡ os.sent w
        → (o : Outcome os) × (communicate_cpp os rounds client (serving w) ≡ some o)
          × AllClosed server client w (destroy os (state_of o))
    unfolding communicate_cpp
    communicate_cpp-AllClosed rounds w enough so =
        let (e, v, runs, ends, same) =
          converse-Ends os doc message_received_cpp rounds client w enough so in
        (
          finish_cpp os e (serving v),
          ap (λ o. o >>= λ r. some (finish_cpp os r.0 (serving r.1))) runs,
          moved w v (destroy os (state_of (finish_cpp os e (serving v)))) same
              (finish_cpp-AllClosed e v),
        )

    -- The same for communicate of ServerRetype.cpp, where error may have closed both.
    pub communicate_retype-AllClosed :
        (rounds : ℕ) (w : os.World)
        → os.left w < rounds
        → answers os doc message_received (os.read w) ≡ os.sent w
        → (o : Outcome os) × (communicate_retype os rounds client (serving w) ≡ some o)
          × AllClosed server client w (destroy os (state_of o))
    unfolding communicate_retype
    communicate_retype-AllClosed rounds w enough so =
        let (e, v, runs, ends, same) =
          converse-Ends os doc message_received rounds client w enough so in
        (
          finish_retype os e (serving v),
          ap (λ o. o >>= λ r. some (finish_retype os r.0 (serving r.1))) runs,
          moved w v (destroy os (state_of (finish_retype os e (serving v)))) same
              (finish_retype-AllClosed e v),
        )
