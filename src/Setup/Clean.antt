-- ===== src/Setup/Clean.antt =====
-- `init` leaks no descriptor, whichever of its calls fails.
use cpp_backend.Prelude.{
  ℕ, suc, ◌+◌, ◌≤◌, ◌≡◌, refl, sym, ap, subst, ◌∙◌, Bool, true, false, ◌||◌, Option, none, some,
  List, [], ◌∷◌, ◌==◌, if◌then◌else◌, arith,
}
use cpp_backend.Setup.Os.{Call, shutdown, epoll_mod, Os, Documented}
use cpp_backend.Setup.Init.{
  Stage, checked, ignored, create_epoll, State, Outcome, returned, thrown, close_if, error,
  run_stages, init, destroy, stop, stop_and_destroy,
}

-- How many epoll instances the calls create.
abbrev pub epolls : List Stage → ℕ
epolls [] = 0
epolls (create_epoll ∷ stages) = suc (epolls stages)
epolls (checked c ∷ stages) = epolls stages
epolls (ignored c ∷ stages) = epolls stages

abbrev owns : Option ℕ → ℕ → Bool
owns none i = false
owns (some fd) i = i == fd

abbrev one_if : Option ℕ → ℕ
one_if none = 0
one_if (some fd) = 1

none_if : (o : Option ℕ) → one_if o ≤ 0 → o ≡ none
none_if none h = refl
none_if (some fd) h = absurd (omega (arith, h))

module _ (os : Os) (doc : Documented os) (w : os.World) where
  -- After `init`, from the descriptor table of `w`: either the server's socket is open, and the destructor, with
  -- or without stop(), closes what was opened and nothing else; or `error` has already done so, and the number of the socket is forgotten.
  abbrev pub IsClean : Outcome os → Type 0
  IsClean (returned s) =
      ((fd : ℕ) × (s.server_fd ≡ some fd) × (os.is_open s.world fd ≡ true))
      × ((i : ℕ) → os.is_open (destroy os s) i ≡ os.is_open w i)
      × ((i : ℕ) → os.is_open (stop_and_destroy os s) i ≡ os.is_open w i)
  IsClean (thrown s) = (s.server_fd ≡ none) × ((i : ℕ) → os.is_open s.world i ≡ os.is_open w i)

  -- What is open is what was, with the two descriptors of the server.
  record Held (s : State os) : Type 0 where
    server : (fd : ℕ) × (s.server_fd ≡ some fd)
    opened :
        (i : ℕ)
        → os.is_open s.world i
          ≡ (if owns s.server_fd i || owns s.epfd i then true else os.is_open w i)
    new : (i : ℕ) → (owns s.server_fd i || owns s.epfd i) ≡ true → os.is_open w i ≡ false

  closed_if :
      (fd : Option ℕ) (v : os.World) (i : ℕ)
      → os.is_open (close_if os fd v) i ≡ (if owns fd i then false else os.is_open v i)
  closed_if none v i = refl
  closed_if (some fd) v i = ground (arith, doc.close_lem fd i v)

  all_closed :
      (s : State os)
      → Held s
      → (i : ℕ)
      → os.is_open (close_if os s.epfd (close_if os s.server_fd s.world)) i ≡ os.is_open w i
  all_closed s h i =
      closed_if s.epfd (close_if os s.server_fd s.world) i
      ∙ ap (λ b. if owns s.epfd i then false else b) (closed_if s.server_fd s.world i)
      ∙ ground (arith, h.opened i, h.new i)

  error-IsClean : (s : State os) → Held s → IsClean (error os s)
  unfolding error
  error-IsClean s h = (refl, all_closed s h)

  stop_keeps :
      (fd epfd : Option ℕ) (v : os.World) (i : ℕ)
      → os.is_open (stop os (record { server_fd = fd; epfd = epfd; world = v })) i ≡ os.is_open v i
  unfolding stop
  stop_keeps none none v i = refl
  stop_keeps none (some e) v i = doc.call_keeps (epoll_mod e) none v i
  stop_keeps (some fd) none v i = doc.call_keeps shutdown (some fd) v i
  stop_keeps (some fd) (some e) v i =
      doc.call_keeps (epoll_mod e) (some fd) (os.call shutdown (some fd) v).1 i
      ∙ doc.call_keeps shutdown (some fd) v i

  Held-stop : (s : State os) → Held s → Held (record s { world = stop os s })
  Held-stop s h = record {
    server = h.server;
    opened = λ i. stop_keeps s.server_fd s.epfd s.world i ∙ h.opened i;
    new = h.new;
  }

  returned-IsClean : (s : State os) → Held s → IsClean (returned s)
  unfolding destroy stop_and_destroy
  returned-IsClean s h =
      let (fd, e) = h.server in
      (
        (fd, e, ground (arith, h.opened fd)),
        all_closed s h,
        all_closed (record s { world = stop os s }) (Held-stop s h),
      )

  Held-call :
      (c : Call) (s : State os)
      → Held s
      → Held (record s { world = (os.call c s.server_fd s.world).1 })
  Held-call c s h = record {
    server = h.server;
    opened = λ i. doc.call_keeps c s.server_fd s.world i ∙ h.opened i;
    new = h.new;
  }

  Held-epoll :
      (s : State os) (o : Option ℕ)
      → (os.epoll_create s.world).0 ≡ o
      → s.epfd ≡ none
      → Held s
      → Held (record s { epfd = o; world = (os.epoll_create s.world).1 })
  Held-epoll s none made first h = record {
    server = h.server;
    opened = λ i. (doc.epoll_opens s.world i).1 ∙ ground (arith, h.opened i);
    new = λ i own. ground (arith, h.new i);
  }
  Held-epoll s (some e) made first h =
      let fresh : os.is_open s.world e ≡ false = (doc.epoll_opens s.world e).0 e made in
      record {
        server = h.server;
        opened = λ i. (doc.epoll_opens s.world i).1 ∙ ground (arith, h.opened i);
        new = λ i own. ground (arith, h.new i, h.opened i);
      }

  either-IsClean :
      (ok : Bool) (go stop : Outcome os)
      → IsClean go
      → IsClean stop
      → IsClean (elim ok [ true ↦ go | false ↦ stop ])
  either-IsClean true go stop a b = a
  either-IsClean false go stop a b = b

  epoll-IsClean :
      (stages : List Stage) (s : State os)
      → Held s
      → s.epfd ≡ none
      → epolls stages ≡ 0
      → (o : Option ℕ) → (os.epoll_create s.world).0 ≡ o
      → ((t : State os)
          → Held t
          → epolls stages + one_if t.epfd ≤ 1
          → IsClean (run_stages os stages t))
      → IsClean (run_stages os (create_epoll ∷ stages) s)
  unfolding run_stages
  epoll-IsClean stages s h first no_more none made rest =
      let t : State os = record s { world = (os.epoll_create s.world).1 } in
      let h' : Held t = ground (arith, Held-epoll s none made first h) in
      let e : run_stages os (create_epoll ∷ stages) s ≡ error os t = ground arith in
      subst IsClean (sym e) (error-IsClean t h')
  epoll-IsClean stages s h first no_more (some e) made rest =
      let t : State os = record s { epfd = some e; world = (os.epoll_create s.world).1 } in
      let is : run_stages os (create_epoll ∷ stages) s ≡ run_stages os stages t = ground arith in
      subst IsClean (sym is) (rest t (Held-epoll s (some e) made first h) (omega (arith, no_more)))

  run_stages-IsClean :
      (stages : List Stage) (s : State os)
      → Held s
      → epolls stages + one_if s.epfd ≤ 1
      → IsClean (run_stages os stages s)
  unfolding run_stages
  run_stages-IsClean [] s h few = returned-IsClean s h
  run_stages-IsClean (checked c ∷ stages) s h few =
      let t : State os = record s { world = (os.call c s.server_fd s.world).1 } in
      let h' : Held t = Held-call c s h in
      either-IsClean (os.call c s.server_fd s.world).0 (run_stages os stages t) (error os t)
        (run_stages-IsClean stages t h' few) (error-IsClean t h')
  run_stages-IsClean (ignored c ∷ stages) s h few =
      run_stages-IsClean stages (record s { world = (os.call c s.server_fd s.world).1 })
        (Held-call c s h) few
  run_stages-IsClean (create_epoll ∷ stages) s h few =
      epoll-IsClean stages s h (none_if s.epfd (omega (arith, few))) (omega (arith, few))
        (os.epoll_create s.world).0 refl (run_stages-IsClean stages)

  Held-socket :
      (fd : ℕ)
      → (os.socket w).0 ≡ some fd
      → Held (record { server_fd = some fd; epfd = none; world = (os.socket w).1 })
  Held-socket fd made =
      let new : os.is_open w fd ≡ false = (doc.socket_opens w fd).0 fd made in
      record {
        server = (fd, refl);
        opened = λ i. (doc.socket_opens w i).1 ∙ ground arith;
        new = λ i own. ground arith;
      }

  by_socket :
      (stages : List Stage)
      → epolls stages ≤ 1
      → (o : Option ℕ) → (os.socket w).0 ≡ o
      → IsClean (init os stages w)
  unfolding init error
  by_socket stages few none made =
      let t : State os = record { server_fd = none; epfd = none; world = (os.socket w).1 } in
      let e : init os stages w ≡ thrown t = ground arith in
      subst IsClean (sym e) (refl, λ i. (doc.socket_opens w i).1 ∙ ground arith)
  by_socket stages few (some fd) made =
      let t : State os = record { server_fd = some fd; epfd = none; world = (os.socket w).1 } in
      let e : init os stages w ≡ run_stages os stages t = ground arith in
      subst IsClean (sym e) (run_stages-IsClean stages t (Held-socket fd made) (omega (arith, few)))

  -- If the operating system behaves as documented, and the calls after `socket` create at most one epoll instance,
  -- then whichever of them fail: if `init` returns, the server has an open socket, and the destructor, with or without stop(), then leaves
  -- the descriptors open that were open before `init`; if it throws, those are already open again and no others, and
  -- the number of the socket is forgotten.
  pub init-IsClean : (stages : List Stage) → epolls stages ≤ 1 → IsClean (init os stages w)
  init-IsClean stages few = by_socket stages few (os.socket w).0 refl
