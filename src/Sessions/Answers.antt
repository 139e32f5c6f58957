-- ===== src/Sessions/Answers.antt =====
-- Each text of the client is answered, in its order, until the conversation ends.
use cpp_backend.Prelude.{
  ℕ, zero, suc, ◌<◌, ◌≡◌, ◌≢◌, refl, sym, ap, ◌∙◌, Bool, true, false, Option, some, List, [], ◌∷◌,
  ◌++◌, ◌>>=◌, map, arith,
}
use cpp_backend.Texts.{c_str, message_received}
use cpp_backend.Sessions.Os.{Recv, bytes, failed, Os, Documented}
use cpp_backend.Sessions.Server.{
  End, client_left, recv_failed, send_failed, converse, client_communicate,
}

module _ (os : Os) (doc : Documented os) (prefix : List ℕ) where
  -- The answers to the texts
  abbrev pub answers : List (List ℕ) → List (List ℕ)
  answers texts = map (λ bs. prefix ++ c_str bs) texts

  -- How a conversation ended in `v`: recv gave nothing, or failed, after an answer to each text; or an answer to each
  -- text but the last was sent, and the send of the last one failed.
  abbrev pub Ends : ℕ → End → os.World → Type 0
  Ends fd client_left v =
      (u : os.World) × (os.recv fd 1023 u ≡ (bytes [], v)) × (os.sent v ≡ answers (os.read v))
  Ends fd recv_failed v =
      (u : os.World) × (os.recv fd 1023 u ≡ (failed, v)) × (os.sent v ≡ answers (os.read v))
  Ends fd send_failed v =
      (u : os.World) × (front : List (List ℕ)) × (last : List ℕ) × (os.send fd
          (prefix ++ c_str last) u
        ≡ (false, v))
      × (os.read v ≡ front ++ last ∷ [])
      × (os.sent v ≡ answers front)

  answers-snoc :
      (texts : List (List ℕ)) (bs : List ℕ)
      → answers (texts ++ bs ∷ []) ≡ answers texts ++ (prefix ++ c_str bs) ∷ []
  answers-snoc [] bs = refl
  answers-snoc (t ∷ texts) bs = ap (◌∷◌ (prefix ++ c_str t)) (answers-snoc texts bs)

  -- The conversation ended, and opened and closed nothing.
  abbrev pub Conversed : ℕ → Option (End × os.World) → os.World → Type 0
  Conversed fd o w =
      (e : End) × (w' : os.World) × (o ≡ some (e, w'))
      × Ends fd e w'
      × ((i : ℕ) → os.is_open w' i ≡ os.is_open w i)

  -- Neither recv nor send opens or closes, and recv sends nothing.
  recv_sent :
      (fd : ℕ) (w w' : os.World) (r : Recv) → os.recv fd 1023 w ≡ (r, w') → os.sent w' ≡ os.sent w
  recv_sent fd w w' r got = ap (λ p. os.sent p.1) (sym got) ∙ doc.recv_keeps fd 1023 w

  recv_same :
      (fd : ℕ) (w w' : os.World) (r : Recv)
      → os.recv fd 1023 w ≡ (r, w')
      → (i : ℕ) → os.is_open w' i ≡ os.is_open w i
  recv_same fd w w' r got i = ap (λ p. os.is_open p.1 i) (sym got) ∙ doc.recv_opens fd 1023 i w

  send_same :
      (fd : ℕ) (msg : List ℕ) (w u : os.World) (ok : Bool)
      → os.send fd msg w ≡ (ok, u)
      → (i : ℕ) → os.is_open u i ≡ os.is_open w i
  send_same fd msg w u ok put i = ap (λ p. os.is_open p.1 i) (sym put) ∙ doc.send_opens fd i msg w

  -- After a text was read, it alone is not answered.
  read_next :
      (fd b : ℕ) (bs : List ℕ) (w w' : os.World)
      → os.recv fd 1023 w ≡ (bytes (b ∷ bs), w')
      → answers (os.read w) ≡ os.sent w
      → answers (os.read w') ≡ os.sent w' ++ (prefix ++ c_str (b ∷ bs)) ∷ []
  read_next fd b bs w w' got so =
      ap answers (doc.recv_read fd 1023 b bs w w' got).0
      ∙ answers-snoc (os.read w) (b ∷ bs)
      ∙ ap (◌++ (prefix ++ c_str (b ∷ bs)) ∷ []) (so ∙ sym (recv_sent fd w w' (bytes (b ∷ bs)) got))

  read_same :
      (fd : ℕ) (msg : List ℕ) (w u : os.World) (ok : Bool)
      → os.send fd msg w ≡ (ok, u)
      → os.read u ≡ os.read w
  read_same fd msg w u ok put = ap (λ p. os.read p.1) (sym put) ∙ doc.send_keeps fd msg w

  sent_by :
      (rounds fd b : ℕ) (bs : List ℕ) (w w' : os.World) (q : Bool × os.World)
      → os.recv fd 1023 w ≡ (bytes (b ∷ bs), w')
      → os.send fd (prefix ++ c_str (b ∷ bs)) w' ≡ q
      → answers (os.read w) ≡ os.sent w
      → (answers (os.read q.1) ≡ os.sent q.1 → Conversed fd (converse os prefix rounds fd q.1) q.1)
      → Conversed fd (converse os prefix (suc rounds) fd w) w
  unfolding converse
  sent_by rounds fd b bs w w' (false, u) got put so rest =
      let msg : List ℕ = prefix ++ c_str (b ∷ bs) in
      (
        send_failed,
        u,
        ground (arith, got, put),
        (
          w',
          os.read w,
          b ∷ bs,
          put,
          read_same fd msg w' u false put ∙ (doc.recv_read fd 1023 b bs w w' got).0,
          doc.send_failed fd msg w' u put ∙ recv_sent fd w w' (bytes (b ∷ bs)) got ∙ sym so,
        ),
        λ i. send_same fd msg w' u false put i ∙ recv_same fd w w' (bytes (b ∷ bs)) got i,
      )
  sent_by rounds fd b bs w w' (true, u) got put so rest =
      let msg : List ℕ = prefix ++ c_str (b ∷ bs) in
      let so' : answers (os.read u) ≡ os.sent u =
        ap answers (read_same fd msg w' u true put)
        ∙ read_next fd b bs w w' got so
        ∙ sym (doc.send_sent fd msg w' u put) in
      let (e, v, runs, answered, same) = rest so' in
      (
        e,
        v,
        ground (arith, got, put, runs),
        answered,
        λ i. same i ∙ send_same fd msg w' u true put i ∙ recv_same fd w w' (bytes (b ∷ bs)) got i,
      )

  converse_by :
      (rounds fd : ℕ) (w : os.World) (p : Recv × os.World)
      → os.recv fd 1023 w ≡ p
      → answers (os.read w) ≡ os.sent w
      → ((u : os.World)
          → os.left u < os.left w
          → answers (os.read u) ≡ os.sent u
          → Conversed fd (converse os prefix rounds fd u) u)
      → Conversed fd (converse os prefix (suc rounds) fd w) w
  unfolding converse
  converse_by rounds fd w (failed, w') got so rest = (
    recv_failed,
    w',
    ground (arith, got),
    (
      w,
      got,
      recv_sent fd w w' failed got ∙ sym so ∙ sym (ap answers (doc.recv_failed fd 1023 w w' got)),
    ),
    recv_same fd w w' failed got,
  )
  converse_by rounds fd w (bytes [], w') got so rest = (
    client_left,
    w',
    ground (arith, got),
    (
      w,
      got,
      recv_sent fd w w' (bytes []) got ∙ sym so ∙ sym (ap answers (doc.recv_end fd 1023 w w' got)),
    ),
    recv_same fd w w' (bytes []) got,
  )
  converse_by rounds fd w (bytes (b ∷ bs), w') got so rest =
      let msg : List ℕ = prefix ++ c_str (b ∷ bs) in
      let fewer : os.left (os.send fd msg w').1 < os.left w =
        omega (arith, doc.send_left fd msg w', (doc.recv_read fd 1023 b bs w w' got).1) in
      sent_by rounds fd b bs w w' (os.send fd msg w') got refl so
        (λ so'. rest (os.send fd msg w').1 fewer so')

  pub converse-Ends :
      (rounds fd : ℕ) (w : os.World)
      → os.left w < rounds
      → answers (os.read w) ≡ os.sent w
      → Conversed fd (converse os prefix rounds fd w) w
  converse-Ends zero fd w enough so = elim enough [ ]
  converse-Ends (suc rounds) fd w enough so =
      converse_by rounds fd w (os.recv fd 1023 w) refl so
        (λ u fewer so'. converse-Ends rounds fd u (omega arith) so')

-- If the client sends finitely much, then client_communicate of TCP_MultiThreadServer.cpp ends, in one round more than
-- there are texts, and for one of three reasons: recv found that the client has left, or failed, after an answer to
-- each text that was read, in the order of the texts; or the send of the answer to the last text failed, after those to
-- all texts before it. It then closes the client's descriptor, and no other is opened or closed.
pub client_communicate-answers :
    (os : Os) (doc : Documented os) (rounds fd : ℕ) (w : os.World)
    → os.left w < rounds
    → answers os doc message_received (os.read w) ≡ os.sent w
    → (e : End) × (v : os.World) × (client_communicate os rounds fd w ≡ some (os.close fd v))
      × Ends os doc message_received fd e v
      × (os.is_open (os.close fd v) fd ≡ false)
      × ((i : ℕ) → i ≢ fd → os.is_open (os.close fd v) i ≡ os.is_open w i)
unfolding client_communicate
client_communicate-answers os doc rounds fd w enough so =
    let (e, v, runs, ends, same) = converse-Ends os doc message_received rounds fd w enough so in
    (
      e,
      v,
      ap (λ o. o >>= λ r. some (os.close fd r.1)) runs,
      ends,
      doc.close_gone fd v,
      λ i differ. doc.close_keeps fd i v differ ∙ same i,
    )
