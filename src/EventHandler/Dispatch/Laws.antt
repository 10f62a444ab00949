-- ===== src/EventHandler/Dispatch/Laws.antt =====
-- `dispatchEvents` ends, and keeps inside its lists, when callbacks enter boundedly many clients
-- and shorten no list that is marked by position.
use operations_procedure_sup.Common.{
  ℕ, zero, suc, ◌+◌, ◌≤◌, ◌<◌, Bool, true, false, ◌≡◌, refl, inl, inr, arith, length, get_elem?,
  Option-cases, eqb_ℤ, ℤ, if◌then◌else◌,
}
use operations_procedure_sup.EventHandler.{remove_trashed_clients}
use operations_procedure_sup.EventHandler.Dispatch.{
  State, Outside, done, io_loop, timer_loop, tick_loop, chd_loop, dispatch_events, dispatch,
  dispatch_signal_event, is_expired, delayed, trash_timer, trash_chd,
}
use operations_procedure_sup.EventHandler.Dispatch.Sizes.{
  Fits, IsCalm, NoneTrashed, Ends, Ends->>, Ends-if, get_elem?-none, get_elem?-some, mark_at_inside,
  removed-Fits, removed-NoneTrashed,
}

module _ {W : Type 0} (o : Outside W) (n : ℕ) (calm : (f i : ℕ) → IsCalm n (o.fires f i))
    (calm_signal : (f i : ℕ) (pid stat : ℤ) → IsCalm n (o.fires_signal f i pid stat)) where
  if_calm :
      (f i : ℕ) (s : State W) (b : Bool) → Fits n s.1 → Fits n (if b then s else o.fires f i s).1
  if_calm f i s true fits = fits
  if_calm f i s false fits = (calm f i s fits).0

  io_loop-Ends : (f i : ℕ) (s : State W) → Fits n s.1 → n ≤ i + f → Ends n (io_loop o (suc f) i s)
  unfolding io_loop
  io_loop-Ends zero i s fits enough =
      rw (io_loop, get_elem?-none s.1.io_clients i (omega arith)) (s, refl, fits)
  io_loop-Ends (suc f) i s fits enough = elim (Option-cases (get_elem? s.1.io_clients i)) [
    | inl end ↦ rw (io_loop, end) (s, refl, fits)
    | inr (c, here) ↦
        rw (io_loop, here)
          (Ends-if s.1.get_out (s, refl, fits)
            (io_loop-Ends f (suc i) (if c.trashed then s else dispatch o c s)
              (if_calm c.func c.instance_ptr s c.trashed fits) (omega arith)))
  ]

  delayed-Fits : (delay : Bool) (s : State W) → Fits n s.1 → Fits n (delayed o delay s).1
  delayed-Fits true s fits = fits
  delayed-Fits false s fits = fits

  trash_timer-Ends :
      (i j k : ℕ) (s : State W)
      → Fits n s.1
      → i < length s.1.timer_clients
      → Ends n (trash_timer o i (o.fires j k s))
  trash_timer-Ends i j k s fits inside =
      let (fits1, longer, _) = calm j k s fits in
      let s1 = o.fires j k s in
      let (cs, e, same) = mark_at_inside i s1.1.timer_clients (omega arith) in
      rw (trash_timer, e)
        ((s1.0, record s1.1 { timer_clients = cs }), refl, (fits1.0, omega arith, fits1.2, fits1.3))

  timer_loop-Ends :
      (f i : ℕ) (delay : Bool) (s : State W)
      → Fits n s.1
      → n ≤ i + f
      → Ends n (timer_loop o (suc f) i delay s)
  unfolding timer_loop
  timer_loop-Ends zero i delay s fits enough =
      rw (timer_loop, get_elem?-none s.1.timer_clients i (omega arith))
        (delayed o delay s, refl, delayed-Fits delay s fits)
  timer_loop-Ends (suc f) i delay s fits enough =
      elim (Option-cases (get_elem? s.1.timer_clients i)) [
        | inl end ↦ rw (timer_loop, end) (delayed o delay s, refl, delayed-Fits delay s fits)
        | inr (c, here) ↦
            let inside = get_elem?-some s.1.timer_clients i c here in
            rw (timer_loop, here)
              (Ends-if s.1.get_out (s, refl, fits)
                (Ends-if c.trashed (timer_loop-Ends f (suc i) delay s fits (omega arith)) (
                  Ends-if (is_expired o c s.0)
                    (Ends->> n (trash_timer o i (dispatch o c s))
                      (λ s1. timer_loop o (suc f) (suc i) delay s1)
                      (trash_timer-Ends i c.func c.instance_ptr s fits inside)
                      (λ s1 fits1. timer_loop-Ends f (suc i) delay s1 fits1 (omega arith)))
                    (timer_loop-Ends f (suc i) true s fits (omega arith)))))
      ]

  tick_loop-Ends :
      (f i : ℕ) (delay : Bool) (s : State W)
      → Fits n s.1
      → n ≤ i + f
      → Ends n (tick_loop o (suc f) i delay s)
  unfolding tick_loop
  tick_loop-Ends zero i delay s fits enough =
      rw (tick_loop, get_elem?-none s.1.tick_clients i (omega arith))
        (delayed o delay s, refl, delayed-Fits delay s fits)
  tick_loop-Ends (suc f) i delay s fits enough =
      elim (Option-cases (get_elem? s.1.tick_clients i)) [
        | inl end ↦ rw (tick_loop, end) (delayed o delay s, refl, delayed-Fits delay s fits)
        | inr (c, here) ↦
            rw (tick_loop, here)
              (Ends-if s.1.get_out (s, refl, fits)
                (Ends-if c.trashed (tick_loop-Ends f (suc i) delay s fits (omega arith)) (
                  tick_loop-Ends f (suc i) true (dispatch o c s)
                    (calm c.func c.instance_ptr s fits).0 (omega arith))))
      ]

  trash_chd-Ends :
      (i j k : ℕ) (pid stat : ℤ) (s : State W)
      → Fits n s.1
      → i < length s.1.chd_clients
      → Ends n (trash_chd o i (o.fires_signal j k pid stat s))
  trash_chd-Ends i j k pid stat s fits inside =
      let (fits1, _, longer) = calm_signal j k pid stat s fits in
      let s1 = o.fires_signal j k pid stat s in
      let (cs, e, same) = mark_at_inside i s1.1.chd_clients (omega arith) in
      rw (trash_chd, e)
        ((s1.0, record s1.1 { chd_clients = cs }), refl, (fits1.0, fits1.1, fits1.2, omega arith))

  chd_loop-Ends : (f i : ℕ) (s : State W) → Fits n s.1 → n ≤ i + f → Ends n (chd_loop o (suc f) i s)
  unfolding chd_loop
  chd_loop-Ends zero i s fits enough =
      rw (chd_loop, get_elem?-none s.1.chd_clients i (omega arith)) (s, refl, fits)
  chd_loop-Ends (suc f) i s fits enough = elim (Option-cases (get_elem? s.1.chd_clients i)) [
    | inl end ↦ rw (chd_loop, end) (s, refl, fits)
    | inr (c, here) ↦
        let (w1, pid, stat) = o.waitpid c.extra s.0 in
        let inside = get_elem?-some s.1.chd_clients i c here in
        rw (chd_loop, here)
          (Ends-if s.1.get_out (s, refl, fits)
            (Ends-if c.trashed (chd_loop-Ends f (suc i) s fits (omega arith)) (
              Ends-if (eqb_ℤ pid c.extra)
                (Ends->> n (trash_chd o i (dispatch_signal_event o c stat (w1, s.1)))
                  (λ s1. chd_loop o (suc f) (suc i) s1)
                  (trash_chd-Ends i c.func c.instance_ptr c.extra stat (w1, s.1) fits inside)
                  (λ s1 fits1. chd_loop-Ends f (suc i) s1 fits1 (omega arith)))
                (chd_loop-Ends f (suc i) (w1, s.1) fits (omega arith)))))
  ]

  -- One round of `dispatchEvents` ends, on fuel n + 1, without asking a list for a position that
  -- it does not have; it leaves no trashed client, and lists of at most n clients. Conditions:
  -- the lists have at most n clients, and each callback leaves them so and shortens neither the
  -- timers nor the children.
  pub dispatch_events_ends :
      (s : State W)
      → Fits n s.1
      → (s1 : State W) × (dispatch_events o (suc n) s ≡ done s1) × NoneTrashed s1.1 × Fits n s1.1
  unfolding dispatch_events
  dispatch_events_ends s fits =
      let s0 : State W = (s.0, record s.1 { get_out = false }) in
      let (s1, e1, fits1) = io_loop-Ends n 0 s0 fits (omega arith) in
      let (s2, e2, fits2) = timer_loop-Ends n 0 false s1 fits1 (omega arith) in
      let (s3, e3, fits3) = tick_loop-Ends n 0 false s2 fits2 (omega arith) in
      let (s4, e4, fits4) = chd_loop-Ends n 0 s3 fits3 (omega arith) in
      (
        (s4.0, remove_trashed_clients s4.1),
        rw (e1, e2, e3, e4) refl,
        removed-NoneTrashed s4.1,
        removed-Fits n s4.1 fits4,
      )
