-- ===== src/Reactor/Small.antt =====
-- A small operating system for the tests: the descriptors that are open, and a count of the calls of recv.
use cpp_backend.Prelude.{
  ℕ, ◌+◌, ◌≡◌, refl, ap, subst, ◌∙◌, Bool, true, false, Option, none, some, List, [], ◌∷◌, ltb,
  ◌==◌, if◌then◌else◌, update, arith, Bool-cases, inl, inr,
}
use cpp_backend.Reactor.Os.{
  Channel, acceptor, connection, Event, Os, Documented, mentions, Distinct,
}

pub record World : Type 0 where
  pub opened : ℕ → Bool
  pub turn : ℕ

-- epoll_wait reports one event: of descriptor 4 if it was added, else of 3.
abbrev pub event_of : Option Channel → List Event
event_of none = []
event_of (some ch) = record { ch = ch; readable = true } ∷ []

abbrev pub pick : Option Channel → Option Channel → List Event
pick none three = event_of three
pick (some ch) three = event_of (some ch)

-- accept gives descriptor 4 whenever it is free.
abbrev pub small : Os
small = record {
  World = World;
  accept = λ l w.
      if w.opened 4
      then (none, w)
      else (some 4, record { opened = update w.opened 4 true; turn = w.turn });
  recv = λ fd n w.
      (if w.turn == 0 then 104 ∷ 105 ∷ [] else [], record { opened = w.opened; turn = w.turn + 1 });
  send = λ fd msg w. record { opened = w.opened; turn = w.turn };
  close = λ fd w. record { opened = update w.opened fd false; turn = w.turn };
  epoll_wait = λ f w. (pick (f 4) (f 3), w);
  is_open = λ w. w.opened;
}

small-accept :
    (l fd : ℕ) (w w' : World)
    → small.accept l w ≡ (some fd, w')
    → (w.opened fd ≡ false) × (w'.opened fd ≡ true)
small-accept l fd w w' e = elim (Bool-cases (w.opened 4)) [
  | inl taken ↦ absurd (ground arith)
  | inr free ↦ (ground arith, ground arith)
]

pick-Distinct : (four three : Option Channel) → Distinct (pick four three)
pick-Distinct none none = tt
pick-Distinct none (some ch) = (λ c h. refl, tt)
pick-Distinct (some ch) three = (λ c h. refl, tt)

pick-added :
    (f : ℕ → Option Channel) (four three : Option Channel)
    → f 4 ≡ four
    → f 3 ≡ three
    → (c : ℕ) → mentions c (pick four three) ≡ true
    → (fd : ℕ) × (f fd ≡ some (connection c))
pick-added f none none a b c h = absurd (cc)
pick-added f none (some acceptor) a b c h = absurd (cc)
pick-added f none (some (connection d)) a b c h = (3, ground arith)
pick-added f (some acceptor) three a b c h = absurd (cc)
pick-added f (some (connection d)) three a b c h = (4, ground arith)

pub small-Documented : Documented small
small-Documented = record {
  accept_fresh = small-accept;
  accept_keeps = λ l i w o. ground arith;
  recv_keeps = λ fd n i w o. o;
  wait_keeps = λ f i w o. o;
  send_keeps = λ fd i bs w o. o;
  close_keeps = λ fd i w o. ground arith;
  wait_once = λ f es w w' e. subst Distinct (ap (λ p. p.0) e) (pick-Distinct (f 4) (f 3));
  wait_added =
      λ f es w w' e c h. pick-added f (f 4) (f 3) refl refl c (ap (λ p. mentions c p.0) e ∙ h);
}

abbrev pub booted : World
booted = record { opened = λ i. ltb i 4; turn = 0 }
