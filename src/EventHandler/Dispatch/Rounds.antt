-- ===== src/EventHandler/Dispatch/Rounds.antt =====
-- A flag that a callback has set ends the round and the dispatching: the other clients of the
-- round are left alone.
use operations_procedure_sup.Common.{
  ℕ, suc, true, false, ◌≡◌, refl, ap, ◌∙◌, inl, inr, List, ◌∷◌, get_elem?, Option-cases, some,
  if◌then◌else◌,
}
use operations_procedure_sup.ErrHandling.{OztResult}
use operations_procedure_sup.EventHandler.{
  EventHandler, IoClient, set_result, remove_trashed_clients,
}
use operations_procedure_sup.EventHandler.Dispatch.{
  State, Outside, done, dispatch, io_loop, timer_loop, tick_loop, chd_loop, dispatch_events, rounds,
  wait_result,
}

module _ {W : Type 0} (o : Outside W) where
  io_loop-get_out : (f i : ℕ) (s : State W) → s.1.get_out ≡ true → io_loop o (suc f) i s ≡ done s
  unfolding io_loop
  io_loop-get_out f i s out = elim (Option-cases (get_elem? s.1.io_clients i)) [
    | inl e ↦ rw (e, io_loop) refl
    | inr (c, e) ↦ rw (e, out, io_loop) refl
  ]

  timer_loop-get_out :
      (f i : ℕ) (s : State W) → s.1.get_out ≡ true → timer_loop o (suc f) i false s ≡ done s
  unfolding timer_loop
  timer_loop-get_out f i s out = elim (Option-cases (get_elem? s.1.timer_clients i)) [
    | inl e ↦ rw (e, timer_loop) refl
    | inr (c, e) ↦ rw (e, out, timer_loop) refl
  ]

  tick_loop-get_out :
      (f i : ℕ) (s : State W) → s.1.get_out ≡ true → tick_loop o (suc f) i false s ≡ done s
  unfolding tick_loop
  tick_loop-get_out f i s out = elim (Option-cases (get_elem? s.1.tick_clients i)) [
    | inl e ↦ rw (e, tick_loop) refl
    | inr (c, e) ↦ rw (e, out, tick_loop) refl
  ]

  chd_loop-get_out : (f i : ℕ) (s : State W) → s.1.get_out ≡ true → chd_loop o (suc f) i s ≡ done s
  unfolding chd_loop
  chd_loop-get_out f i s out = elim (Option-cases (get_elem? s.1.chd_clients i)) [
    | inl e ↦ rw (e, chd_loop) refl
    | inr (c, e) ↦ rw (e, out, chd_loop) refl
  ]

  io_loop-dispatch :
      (f i : ℕ) (s : State W) (c : IoClient)
      → get_elem? s.1.io_clients i ≡ some c
      → s.1.get_out ≡ false
      → c.trashed ≡ false
      → io_loop o (suc f) i s ≡ io_loop o f (suc i) (dispatch o c s)
  unfolding io_loop
  io_loop-dispatch f i s c here out valid =
      let step : io_loop o (suc f) i s
          ≡ io_loop o f (suc i) (if c.trashed then s else dispatch o c s) =
        rw (io_loop, here, out) refl in
      step ∙ ap (λ b. io_loop o f (suc i) (if b then s else dispatch o c s)) valid

  -- The first client of the io list stops the round.
  dispatch_events-get_out :
      (f : ℕ) (w : W) (h : EventHandler) (c : IoClient) (cs : List IoClient) (s : State W)
      → c.trashed ≡ false
      → dispatch o c (w, record h { io_clients = c ∷ cs; get_out = false }) ≡ s
      → s.1.get_out ≡ true
      → dispatch_events o (suc (suc f)) (w, record h { io_clients = c ∷ cs })
        ≡ done (s.0, remove_trashed_clients s.1)
  unfolding dispatch_events
  dispatch_events-get_out f w h c cs s valid call out =
      let s0 : State W = (w, record h { io_clients = c ∷ cs; get_out = false }) in
      let first : io_loop o (suc (suc f)) 0 s0 ≡ done s =
        io_loop-dispatch (suc f) 0 s0 c refl refl valid
        ∙ ap (io_loop o (suc f) 1) call
        ∙ io_loop-get_out f 1 s out in
      rw
        (
          first,
          timer_loop-get_out (suc f) 0 s out,
          tick_loop-get_out (suc f) 0 s out,
          chd_loop-get_out (suc f) 0 s out,
        )
        refl

  -- When the first io client is valid and its callback ends by setting a result, `waitResult`
  -- ends in its first round and answers that result: the state is what the callback left, less
  -- the trashed clients, so that no other client was called.
  pub wait_result-set_result :
      (f g : ℕ) (w w1 : W) (h h1 : EventHandler) (c : IoClient) (cs : List IoClient) (r : OztResult)
      → c.trashed ≡ false
      → dispatch o c (o.select_sleep w, record h { io_clients = c ∷ cs; get_out = false })
        ≡ (w1, set_result r h1)
      → wait_result o (suc (suc g)) (suc (suc f)) (w, record h { io_clients = c ∷ cs })
        ≡ done ((w1, remove_trashed_clients (set_result r h1)), r)
  unfolding wait_result rounds remove_trashed_clients set_result
  wait_result-set_result f g w w1 h h1 c cs r valid call =
      rw
        (dispatch_events-get_out f (o.select_sleep w) (record h { get_out = false }) c cs
          (w1, set_result r h1) valid call refl)
        refl
