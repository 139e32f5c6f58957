-- ===== src/SubReactors/Safety.antt =====
-- No sub-reactor uses a Connection that was deleted, however the threads interleave.
use cpp_backend.Prelude.{
  ℕ, ◌≡◌, ◌≢◌, refl, sym, ap, subst, ◌∙◌, Bool, true, false, Option, none, some, some_inj,
  get_elem?, remove, List, [], ◌∷◌, update, ltb, if◌then◌else◌, arith, Bool-cases, inl, inr,
}
use native.Mathlib.Decide.{ℕ_discrete}
use cpp_backend.Reactor.Os.{
  Channel, acceptor, connection, Event, Os, mentions, Distinct, Documented,
}
use cpp_backend.Reactor.Server.{SendTask}
use cpp_backend.SubReactors.Invariant.{Inv, Inv-world}
use cpp_backend.SubReactors.Moves.{accept_by, read_by, taken-Inv}
use cpp_backend.SubReactors.Machine.{
  Connection, State, Step, accept, wait, handle, task, Result, goes, disabled, freed, handle_read,
  handle_event, step, run, start,
}

module _ (os : Os) (doc : Documented os) (listenfd : ℕ) where
  -- A step that was made keeps the invariant, and none is a use of a deleted Connection.
  abbrev Safe : Result os → Type 0
  Safe (goes t) = Inv os doc listenfd t
  Safe disabled = Unit {0}
  Safe freed = ⊥

  no_more :
      (k c : ℕ) (b : Bool) (es : List Event) (s : State os) (fd : ℕ)
      → Inv os doc listenfd s
      → s.batch k ≡ record { ch = connection c; readable = b } ∷ es
      → s.connections c ≡ some (record { fd = fd; epoll = k })
      → (i : ℕ) → mentions c (update s.batch k es i) ≡ false
  no_more k c b es s fd v has here i = elim (ℕ_discrete k i) [
    | yes same ↦
        let all : Distinct (record { ch = connection c; readable = b } ∷ es) =
          subst Distinct has (v.once k) in
        let is : update s.batch k es i ≡ es = ground arith in
        ap (mentions c) is ∙ all.0 c (ground arith)
    | no differ ↦ elim (Bool-cases (mentions c (s.batch i))) [
      | inr quiet ↦
          let is : update s.batch k es i ≡ s.batch i = ground arith in ap (mentions c) is ∙ quiet
      | inl more ↦
          let (j, there) = v.waiting i c more in
          let own : record { fd = fd; epoll = k } ≡ record { fd = j; epoll = i } =
            some_inj (sym here ∙ there) in
          absurd (differ (ap (λ a. a.epoll) own))
    ]
  ]

  event-Safe :
      (k : ℕ) (ch : Channel) (readable : Bool) (es : List Event) (s : State os)
      → Inv os doc listenfd s
      → s.batch k ≡ record { ch = ch; readable = readable } ∷ es
      → Safe (
          handle_event os listenfd
            (record { ch = ch; readable = readable })
            (record s { batch = update s.batch k es }))
  unfolding handle_event
  event-Safe k acceptor b es s v has =
      taken-Inv os doc listenfd k (record { ch = acceptor; readable = b }) es s v has
  event-Safe k (connection c) b es s v has =
      let t : State os = record s { batch = update s.batch k es } in
      let v' : Inv os doc listenfd t =
        taken-Inv os doc listenfd k (record { ch = connection c; readable = b }) es s v has in
      let (fd, here) = v.waiting k c (ap (mentions c) has ∙ ground arith) in
      let conn : Connection = record { fd = fd; epoll = k } in
      let e : handle_event os listenfd (record { ch = connection c; readable = b }) t
          ≡ goes (if b then handle_read os listenfd c conn t else t) =
        ground arith in
      subst Safe (sym e) (either b c conn t v' here (no_more k c b es s fd v has here))
    where
      either :
          (b : Bool) (c : ℕ) (conn : Connection) (t : State os)
          → Inv os doc listenfd t
          → t.connections c ≡ some conn
          → ((i : ℕ) → mentions c (t.batch i) ≡ false)
          → Inv os doc listenfd (if b then handle_read os listenfd c conn t else t)
      either true c conn t v' here last =
          read_by os doc listenfd c conn t (os.recv conn.fd 1024 t.world) refl v' here last
      either false c conn t v' here last = v'

  handle-Safe :
      (k : ℕ) (s : State os) (b : List Event)
      → s.batch k ≡ b
      → Inv os doc listenfd s
      → Safe (step os listenfd (handle k) s)
  unfolding step
  handle-Safe k s [] has v =
      let e : step os listenfd (handle k) s ≡ disabled = ground arith in subst Safe (sym e) tt
  handle-Safe k s (x ∷ es) has v =
      let e : step os listenfd (handle k) s
          ≡ handle_event os listenfd x (record s { batch = update s.batch k es }) =
        ground arith in
      subst Safe (sym e) (event-Safe k x.ch x.readable es s v has)

  waited-Inv :
      (k : ℕ) (s : State os) (es : List Event) (w : os.World)
      → os.epoll_wait (s.interest k) s.world ≡ (es, w)
      → Inv os doc listenfd s
      → Inv os doc listenfd (record s { batch = update s.batch k es; world = w })
  waited-Inv k s es w got v =
      let u : State os = record s { world = w } in
      let v' : Inv os doc listenfd u =
        Inv-world os doc listenfd s w v (λ i o.
          ap (λ p. os.is_open p.1 i) (sym got) ∙ doc.wait_keeps (s.interest k) i s.world o) in
      record {
        told = v'.told;
        alive = v.alive;
        alone = v.alone;
        waiting = λ i c h. elim (ℕ_discrete k i) [
          | yes same ↦
              let (fd, asked) = doc.wait_added (s.interest k) es s.world w got c (ground arith) in
              (fd, v.alive i fd c (ap (λ j. s.interest j fd) (sym same) ∙ asked))
          | no differ ↦ v.waiting i c (ground arith)
        ];
        once = λ i. elim (ℕ_discrete k i) [
          | yes same ↦
              let is : es ≡ update s.batch k es i = ground arith in
              subst Distinct is (doc.wait_once (s.interest k) es s.world w got)
          | no differ ↦
              let is : s.batch i ≡ update s.batch k es i = ground arith in
              subst Distinct is (v.once i)
        ];
      }

  wait-Safe :
      (k : ℕ) (s : State os) (b : List Event)
      → s.batch k ≡ b
      → Inv os doc listenfd s
      → Safe (step os listenfd (wait k) s)
  unfolding step
  wait-Safe k s (x ∷ es) has v =
      let e : step os listenfd (wait k) s ≡ disabled = ground arith in subst Safe (sym e) tt
  wait-Safe k s [] has v =
      let p = os.epoll_wait (s.interest k) s.world in
      elim (Bool-cases (ltb k s.pool.size)) [
        | inr outside ↦
            let e : step os listenfd (wait k) s ≡ disabled = ground arith in subst Safe (sym e) tt
        | inl there ↦
            let e : step os listenfd (wait k) s
                ≡ goes (record s { batch = update s.batch k p.0; world = p.1 }) =
              ground arith in
            subst Safe (sym e) (waited-Inv k s p.0 p.1 refl v)
      ]

  task-Safe :
      (k : ℕ) (s : State os) (o : Option SendTask)
      → get_elem? s.submitted k ≡ o
      → Inv os doc listenfd s
      → Safe (step os listenfd (task k) s)
  unfolding step
  task-Safe k s none at v =
      let e : step os listenfd (task k) s ≡ disabled = ground arith in subst Safe (sym e) tt
  task-Safe k s (some t) at v =
      let w : os.World = os.send t.fd t.msg s.world in
      let e : step os listenfd (task k) s
          ≡ goes (record s { submitted = remove s.submitted k; world = w }) =
        ground arith in
      let v' : Inv os doc listenfd (record s { world = w }) =
        Inv-world os doc listenfd s w v (λ i o. doc.send_keeps t.fd i t.msg s.world o) in
      subst Safe (sym e) (record {
        told = v'.told;
        alive = v.alive;
        alone = v.alone;
        waiting = v.waiting;
        once = v.once;
      })

  step-Safe : (m : Step) (s : State os) → Inv os doc listenfd s → Safe (step os listenfd m s)
  unfolding step
  step-Safe accept s v = accept_by os doc listenfd s (os.accept listenfd s.world) refl v
  step-Safe (wait k) s v = wait-Safe k s (s.batch k) refl v
  step-Safe (handle k) s v = handle-Safe k s (s.batch k) refl v
  step-Safe (task k) s v = task-Safe k s (get_elem? s.submitted k) refl v

  run-Safe : (ms : List Step) (s : State os) → Inv os doc listenfd s → Safe (run os listenfd ms s)
  unfolding run
  run-Safe [] s v = v
  run-Safe (m ∷ ms) s v =
      continues m ms s (step os listenfd m s) refl (step-Safe m s v) (λ t. run-Safe ms t)
    where
      continues :
          (m : Step) (ms : List Step) (s : State os) (r : Result os)
          → step os listenfd m s ≡ r
          → Safe (step os listenfd m s)
          → ((t : State os) → Inv os doc listenfd t → Safe (run os listenfd ms t))
          → Safe (run os listenfd (m ∷ ms) s)
      continues m ms s (goes t) is safe rest =
          let e : run os listenfd (m ∷ ms) s ≡ run os listenfd ms t = ground (arith, is) in
          subst Safe (sym e) (rest t (subst Safe is safe))
      continues m ms s disabled is safe rest =
          let e : run os listenfd (m ∷ ms) s ≡ disabled = ground (arith, is) in
          subst Safe (sym e) tt
      continues m ms s freed is safe rest = absurd (subst Safe is safe)

-- If the operating system behaves as documented, then in no interleaving of the main reactor, which accepts clients and hands them
-- out, with any number of sub-reactors, which wait for events and handle them, and with the tasks of the pool, a Connection is used after it was
-- deleted, though descriptors are used again.
pub run-never_freed :
    (os : Os) (doc : Documented os) (listenfd sub_reactor_num : ℕ) (ms : List Step) (w : os.World)
    → run os listenfd ms (start os listenfd sub_reactor_num w) ≢ freed
run-never_freed os doc listenfd sub_reactor_num ms w is =
    let v : Inv os doc listenfd (start os listenfd sub_reactor_num w) = record {
      told = λ c conn h. absurd (cc);
      alive = λ k fd c h. absurd (cc);
      alone = λ c d a b h. absurd (cc);
      waiting = λ k c h. absurd (cc);
      once = λ k. tt;
    } in
    subst (Safe os doc listenfd) is
      (run-Safe os doc listenfd ms (start os listenfd sub_reactor_num w) v)
