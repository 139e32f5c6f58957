-- ===== src/Epoll/Tests.antt =====
-- The epoll servers on a small operating system: a list of what is open, and what a client has sent.
use cpp_backend.Prelude.{
  ℕ, ◌<◌, ◌≡◌, refl, sym, ap, subst, ◌∙◌, Bool, true, false, ◌||◌, Option, none, some, List, [],
  ◌∷◌, ◌++◌, ltb, ◌==◌, length, take, drop, take-append-drop, if◌then◌else◌, update, arith,
  Bool-cases, inl, inr,
}
use cpp_backend.Texts.{c_str, greeting}
use cpp_backend.Epoll.Os.{Recv, bytes, failed, Event, Os, AllAdded, Documented}
use cpp_backend.Epoll.Servers.{thread_per_event}
use cpp_backend.Epoll.Machine.{
  Job, closing, locked_reply, State, Step, wait, handle, add, job, step, run, start, epollthread,
  epollthread_tp, epollthread_tpet, drain_client,
}
use cpp_backend.Epoll.Reach.{run-watched}
use cpp_backend.Epoll.Reuse.{closes_next_client}
use cpp_backend.Epoll.Edge.{DeliversAll, drain_client-replies, half_closed_kept}

record World : Type 0 where
  opened : ℕ → Bool
  text : List ℕ
  gone : Bool

-- recv gives two bytes at most, and then EAGAIN or the end of the stream.
abbrev receive : List ℕ → Bool → Recv
receive [] true = bytes []
receive [] false = failed true
receive (b ∷ bs) gone = bytes (take 2 (b ∷ bs))

abbrev event_if : Bool → ℕ → List Event → List Event
event_if true fd es = record { fd = fd; readable = true } ∷ es
event_if false fd es = es

-- accept gives 4 whenever it is free; 4 and 3 are ready when they were added.
abbrev small : Os
small = record {
  World = World;
  accept = λ l w.
      if w.opened 4
      then (none, w)
      else (some 4, record { opened = update w.opened 4 true; text = w.text; gone = w.gone });
  add = λ fd w. (w.opened fd, w);
  recv = λ fd n w.
      (receive w.text w.gone, record { opened = w.opened; text = drop 2 w.text; gone = w.gone });
  send = λ fd bs w. (true, w);
  close = λ fd w. record { opened = update w.opened fd false; text = w.text; gone = w.gone };
  epoll_wait = λ f w. (some (event_if (f 4) 4 (event_if (f 3) 3 [])), w);
  eintr = λ w. true;
  interrupted = λ w. false;
  is_open = λ w. w.opened;
}

small-accept :
    (l fd : ℕ) (w w' : World)
    → small.accept l w ≡ (some fd, w')
    → (w.opened fd ≡ false) × ((i : ℕ) → w'.opened i ≡ (i == fd || w.opened i))
small-accept l fd w w' e = elim (Bool-cases (w.opened 4)) [
  | inl taken ↦ absurd (ground arith)
  | inr free ↦ (ground arith, λ i. ground arith)
]

small-accept_none :
    (l i : ℕ) (w w' : World) → small.accept l w ≡ (none, w') → w'.opened i ≡ w.opened i
small-accept_none l i w w' e = elim (Bool-cases (w.opened 4)) [
  | inl taken ↦ ground arith
  | inr free ↦ absurd (ground arith)
]

event_if-AllAdded :
    (f : ℕ → Bool) (b : Bool) (fd : ℕ) (es : List Event)
    → f fd ≡ b
    → AllAdded f es
    → AllAdded f (event_if b fd es)
event_if-AllAdded f true fd es is all = (is, all)
event_if-AllAdded f false fd es is all = all

abbrev events_of : Option (List Event) → List Event
events_of none = []
events_of (some es) = es

small-Documented : Documented small
small-Documented = record {
  accept_fresh = small-accept;
  accept_none = small-accept_none;
  add_keeps = λ fd i w. refl;
  add_open = λ fd w ok. ok;
  recv_keeps = λ fd n i w. refl;
  send_keeps = λ fd i bs w. refl;
  wait_keeps = λ f i w. refl;
  close_gone = λ fd w. ground arith;
  close_keeps = λ fd i w differ. ground arith;
  wait_added = λ f es w w' e.
      subst (AllAdded f) (ap (λ p. events_of p.0) e)
        (event_if-AllAdded f (f 4) 4 _ refl (event_if-AllAdded f (f 3) 3 [] refl tt));
}

abbrev booted : World
booted = record { opened = λ i. ltb i 4; text = []; gone = true }

abbrev jobs_of : Option (State small) → List Job
jobs_of none = []
jobs_of (some s) = s.jobs

-- A client comes, is reported twice, and leaves before either thread reads.
abbrev reported_twice : List Step
reported_twice =
    wait ∷ handle 0 ∷ add ∷ wait ∷ handle 0 ∷ handle 0 ∷ wait ∷ handle 0 ∷ job 0 ∷ job 1 ∷ []

two_closing :
    jobs_of (run small 3 epollthread reported_twice (start small booted))
    ≡ closing 4 ∷ closing 4 ∷ []
unfolding run
two_closing = refl

abbrev both_closing : State small
both_closing = record {
  watched = λ i. i == 4;
  jobs = closing 4 ∷ closing 4 ∷ [];
  batch = record { fd = 3; readable = true } ∷ [];
  adding = none;
  looping = true;
  errno_again = false;
  world = record { opened = λ i. ltb i 5; text = []; gone = true };
}

abbrev next_came : World
next_came = record {
  opened = update (update (λ i. ltb i 5) 4 false) 4 true;
  text = [];
  gone = true;
}

closes_next_client_example :
    (u : State small) × (t : State small) × (thread_per_event small 3
        (job 0 ∷ handle 0 ∷ add ∷ [])
        both_closing
      ≡ some u)
    × (u.watched 4 ≡ true)
    × (thread_per_event small 3 (job 0 ∷ []) u ≡ some t)
    × (t.watched 4 ≡ false)
    × (small.is_open t.world 4 ≡ false)
closes_next_client_example =
    closes_next_client small small-Documented 3 4 [] [] both_closing next_came next_came refl refl
      refl refl refl

abbrev accepted : State small
accepted = record {
  watched = update (λ _. false) 4 true;
  jobs = [];
  batch = [];
  adding = none;
  looping = true;
  errno_again = false;
  world = record { opened = update (λ i. ltb i 4) 4 true; text = []; gone = true };
}

one_came :
    run small 3 epollthread_tp (wait ∷ handle 0 ∷ add ∷ []) (start small booted) ≡ some accepted
unfolding run
one_came = refl

run-watched_example :
    small.is_open accepted.world 4 ≡ (small.is_open booted 4 || accepted.watched 4)
run-watched_example =
    run-watched small small-Documented 3 epollthread_tp (wait ∷ handle 0 ∷ add ∷ []) booted accepted
      one_came 4 refl

abbrev quiet : Os
quiet = record small {
  recv = λ fd n w.
      (receive w.text false, record { opened = w.opened; text = drop 2 w.text; gone = w.gone });
}

-- Five bytes have come.
abbrev written : State quiet
written = record {
  watched = λ i. i == 4;
  jobs = [];
  batch = [];
  adding = none;
  looping = true;
  errno_again = false;
  world = record { opened = λ i. ltb i 5; text = 104 ∷ 101 ∷ 108 ∷ 108 ∷ 111 ∷ []; gone = false };
}

quiet-DeliversAll : DeliversAll quiet 4 (λ w. w.text)
quiet-DeliversAll w = delivers w.text w refl
  where
    delivers :
        (bs : List ℕ) (w : World)
        → w.text ≡ bs
        → (0 < length w.text
            → (b : ℕ) × (cs : List ℕ) × (w' : World) × (quiet.recv 4 1023 w ≡ (bytes (b ∷ cs), w'))
              × (w.text ≡ (b ∷ cs) ++ w'.text))
          × (w.text ≡ []
              → (w' : World) × (quiet.recv 4 1023 w ≡ (failed true, w')) × (w'.text ≡ []))
    delivers [] w e = (
      λ more. absurd (ground (arith, e)),
      λ none. (
        record { opened = w.opened; text = drop 2 w.text; gone = w.gone },
        ap
            (λ t.
              (receive t false, record { opened = w.opened; text = drop 2 w.text; gone = w.gone }))
            none,
        ap (drop 2) none,
      ),
    )
    delivers (b ∷ bs) w e = (
      λ more. (
        b,
        take 1 bs,
        record { opened = w.opened; text = drop 2 w.text; gone = w.gone },
        ap
            (λ t.
              (receive t false, record { opened = w.opened; text = drop 2 w.text; gone = w.gone }))
            e,
        e ∙ ap (b ∷◌) (sym (take-append-drop 1 bs)) ∙ ap (λ t. (b ∷ take 1 bs) ++ drop 2 t) (sym e),
      ),
      λ none. absurd (ground (arith, e)),
    )

drain_client-replies_example :
    (t : State quiet) × (drain_client quiet 6 4 written ≡ some t)
    × (t.jobs ≡ [] ++ locked_reply 4 (greeting ++ 104 ∷ 101 ∷ 108 ∷ 108 ∷ 111 ∷ []) ∷ [])
    × (t.watched ≡ written.watched)
    × (t.world.text ≡ [])
drain_client-replies_example =
    drain_client-replies quiet 4 (λ w. w.text) quiet-DeliversAll 6 written 104
      (101 ∷ 108 ∷ 108 ∷ 111 ∷ []) refl (omega arith)
      (omega arith, (omega arith, (omega arith, (omega arith, (omega arith, tt))))) refl

abbrev left_early : State small
left_early = record {
  watched = λ i. i == 4;
  jobs = [];
  batch = [];
  adding = none;
  looping = true;
  errno_again = true;
  world = record { opened = λ i. ltb i 5; text = 104 ∷ 105 ∷ []; gone = true };
}

abbrev read_out : World
read_out = record { opened = λ i. ltb i 5; text = []; gone = true }

half_closed_kept_example :
    (t : State small) × (u : State small) × (drain_client small 3 4 left_early ≡ some t)
    × (step small 3 epollthread_tpet (job 0) t ≡ some u)
    × (u.jobs ≡ [])
    × (u.watched 4 ≡ true)
    × (small.is_open u.world 4 ≡ true)
unfolding c_str
half_closed_kept_example =
    half_closed_kept small small-Documented 3 4 1 left_early 104 104 (105 ∷ []) (105 ∷ []) read_out
      read_out read_out refl refl refl refl refl refl refl refl refl
