-- ===== src/Pool/Invariant/Others.antt =====
-- Each step of a client, of the waiter and of the destructor keeps the invariant of the pool.
use cpp_backend.Prelude.{
  ℕ, ◌≡◌, refl, false, some, List, [], ◌∷◌, total, arith, get_elem?, total-set, length-snoc,
}
use cpp_backend.Pool.Machine.{
  Design, Task, Worker, top, asleep, Client, idle, accepted, pushed, Waiter, away, entering, looked,
  blocked, released, Destructor, waiting, stopped, joining, State, submit_step, push_step,
  signal_step, signal_none_step, look_step, block_step, rouse_step, enter_step, set_stop_step,
  notify_all_step, join_step, any, is_asleep, wake_all,
}
use cpp_backend.Pool.Invariant.Workers.{moved}
use cpp_backend.Pool.Invariant.{busy, sleeping, telling, left, pending, Inv}

nobody_sleeps : (ws : List Worker) → any is_asleep ws ≡ false → total sleeping ws ≡ 0
unfolding total
nobody_sleeps [] h = refl
nobody_sleeps (w ∷ ws) h = ground (arith, nobody_sleeps ws)

module _ {s t : State} (inv : Inv s) (d : Design) (c : ℕ) where
  pub submit_step-Inv :
      (u : Task) (w : Client)
      → get_elem? s.clients c ≡ some w
      → submit_step d c u w s ≡ some t
      → Inv t
  unfolding submit_step
  submit_step-Inv u idle at e = ground (arith, total-set pending s.clients c (accepted u) at)
  submit_step-Inv u _ at e = absurd (cc)

  pub push_step-Inv :
      (w : Client) → get_elem? s.clients c ≡ some w → push_step c w s ≡ some t → Inv t
  unfolding push_step
  push_step-Inv (accepted u) at e =
      ground (arith, total-set pending s.clients c pushed at, length-snoc s.queue u)
  push_step-Inv _ at e = absurd (cc)

  pub signal_step-Inv :
      (i : ℕ) (w : Client) (v : Worker)
      → get_elem? s.clients c ≡ some w
      → get_elem? s.workers i ≡ some v
      → signal_step c i w v s ≡ some t
      → Inv t
  unfolding signal_step
  signal_step-Inv i pushed asleep at at' e =
      ground (arith, total-set pending s.clients c idle at, moved s i asleep top at')
  signal_step-Inv i _ _ at at' e = absurd (cc)

  pub signal_none_step-Inv :
      (w : Client) → get_elem? s.clients c ≡ some w → signal_none_step c w s ≡ some t → Inv t
  unfolding signal_none_step
  signal_none_step-Inv pushed at e =
      ground (arith, total-set pending s.clients c idle at, nobody_sleeps s.workers)
  signal_none_step-Inv _ at e = absurd (cc)

-- cv.notify_all leaves nobody asleep, and moves nobody else.
pub wake_all-keeps :
    (w : Worker → ℕ) → w asleep ≡ w top → (ws : List Worker) → total w (wake_all ws) ≡ total w ws
unfolding total wake_all
wake_all-keeps w same [] = refl
wake_all-keeps w same (asleep ∷ ws) = omega (arith, wake_all-keeps w same ws)
wake_all-keeps w same (v ∷ ws) = omega (arith, wake_all-keeps w same ws)

pub wake_all-rouses : (ws : List Worker) → total sleeping (wake_all ws) ≡ 0
unfolding total wake_all
wake_all-rouses [] = refl
wake_all-rouses (asleep ∷ ws) = omega (arith, wake_all-rouses ws)
wake_all-rouses (v ∷ ws) = omega (arith, wake_all-rouses ws)

module _ {s t : State} (inv : Inv s) where
  pub enter_step-Inv : (w : Waiter) → s.waiter ≡ w → enter_step w s ≡ some t → Inv t
  unfolding enter_step
  enter_step-Inv away at e = ground arith
  enter_step-Inv released at e = ground arith
  enter_step-Inv _ at e = absurd (cc)

  pub look_step-Inv : (w : Waiter) → s.waiter ≡ w → look_step w s ≡ some t → Inv t
  unfolding look_step
  look_step-Inv entering at e = ground arith
  look_step-Inv _ at e = absurd (cc)

  pub block_step-Inv : (w : Waiter) → s.waiter ≡ w → block_step w s ≡ some t → Inv t
  unfolding block_step
  block_step-Inv looked at e = ground arith
  block_step-Inv _ at e = absurd (cc)

  pub rouse_step-Inv : (w : Waiter) → s.waiter ≡ w → rouse_step w s ≡ some t → Inv t
  unfolding rouse_step
  rouse_step-Inv blocked at e = ground arith
  rouse_step-Inv _ at e = absurd (cc)

  pub set_stop_step-Inv : (w : Destructor) → s.dtor ≡ w → set_stop_step w s ≡ some t → Inv t
  unfolding set_stop_step
  set_stop_step-Inv waiting at e = ground arith
  set_stop_step-Inv _ at e = absurd (cc)

  pub notify_all_step-Inv : (w : Destructor) → s.dtor ≡ w → notify_all_step w s ≡ some t → Inv t
  unfolding notify_all_step
  notify_all_step-Inv stopped at e = ground (
    arith,
    wake_all-rouses s.workers,
    wake_all-keeps busy refl s.workers,
    wake_all-keeps telling refl s.workers,
    wake_all-keeps left refl s.workers,
  )
  notify_all_step-Inv _ at e = absurd (cc)

  pub join_step-Inv : (w : Destructor) → s.dtor ≡ w → join_step w s ≡ some t → Inv t
  unfolding join_step
  join_step-Inv joining at e = ground arith
  join_step-Inv _ at e = absurd (cc)
