-- ===== src/EventHandler/Dispatch/Timers.antt =====
-- `dispatchTimerEvents`, whose loop goes by positions, is one pass over the list when callbacks
-- leave the handler alone.
use operations_procedure_sup.Common.{
  ℕ, suc, Bool, true, false, ◌≡◌, refl, sym, ap, ◌∙◌, List, [], ◌∷◌, ◌++◌, some, length, get_elem?,
  if◌then◌else◌, none,
}
use operations_procedure_sup.EventHandler.{Client, EventHandler, TimerClient, mark_to_trash}
use operations_procedure_sup.EventHandler.Dispatch.{
  State, Outside, Outcome, done, ◌>>◌, mark_at, dispatch, timer_loop, is_expired, delayed,
  trash_timer,
}

get_elem?-append :
    {X : Type 0} (p : List X) (c : X) (cs : List X) → get_elem? (p ++ c ∷ cs) (length p) ≡ some c
get_elem?-append [] c cs = refl
get_elem?-append (d ∷ p) c cs = get_elem?-append p c cs

get_elem?_end : {X : Type 0} (p : List X) → get_elem? (p ++ []) (length p) ≡ none
get_elem?_end [] = refl
get_elem?_end (d ∷ p) = get_elem?_end p

mark_at-append :
    {X : Type 0} (p : List (Client X)) (c : Client X) (cs : List (Client X))
    → mark_at (length p) (p ++ c ∷ cs) ≡ some (p ++ mark_to_trash c ∷ cs)
mark_at-append [] c cs = refl
mark_at-append (d ∷ p) c cs = rw (mark_at, mark_at-append p c cs) refl

append_one : {X : Type 0} (p : List X) (c : X) (cs : List X) → (p ++ c ∷ []) ++ cs ≡ p ++ c ∷ cs
append_one [] c cs = refl
append_one (d ∷ p) c cs = ap (λ r. d ∷ r) (append_one p c cs)

length_one : {X : Type 0} (p : List X) (c : X) → length (p ++ c ∷ []) ≡ suc (length p)
length_one [] c = refl
length_one (d ∷ p) c = ap suc (length_one p c)

module _ {W : Type 0} (o : Outside W) (run : ℕ → ℕ → W → W)
    (quiet : (f i : ℕ) (s : State W) → o.fires f i s ≡ (run f i s.0, s.1)) where
  -- One pass: what became of the world, whether to sleep, and the list behind the pass. A timer
  -- that is valid and expired when its turn comes is called and trashed, and no other one.
  abbrev pub timer_pass : List TimerClient → Bool → W → W × Bool × List TimerClient
  timer_pass [] delay w = (w, delay, [])
  timer_pass (c ∷ cs) delay w =
      let (w1, delay1, cs1) = timer_pass cs delay w in
      let (w2, delay2, cs2) = timer_pass cs true w in
      let (w3, delay3, cs3) = timer_pass cs delay (run c.func c.instance_ptr w) in
      if c.trashed
      then (w1, delay1, c ∷ cs1)
      else if is_expired o c w
      then (w3, delay3, mark_to_trash c ∷ cs3)
      else (w2, delay2, c ∷ cs2)

  -- The state with a list of timers.
  abbrev timers : W → EventHandler → List TimerClient → State W
  timers w h cs = (w, record h { timer_clients = cs; get_out = false })

  -- What the loop answers behind the clients p.
  abbrev passed : EventHandler → List TimerClient → W × Bool × List TimerClient → State W
  passed h p (w, delay, cs) = delayed o delay (timers w h (p ++ cs))

  -- The next position, behind a client that the pass has left or trashed.
  next :
      (f : ℕ) (w : W) (h : EventHandler) (p : List TimerClient) (c : TimerClient)
      (cs : List TimerClient) (delay : Bool)
      → timer_loop o f (suc (length p)) delay (timers w h (p ++ c ∷ cs))
        ≡ timer_loop o f (length (p ++ c ∷ [])) delay (timers w h ((p ++ c ∷ []) ++ cs))
  next f w h p c cs delay =
      ap (λ i. timer_loop o f i delay (timers w h (p ++ c ∷ cs))) (sym (length_one p c))
      ∙ ap (λ l. timer_loop o f (length (p ++ c ∷ [])) delay (timers w h l))
          (sym (append_one p c cs))

  behind :
      (h : EventHandler) (p : List TimerClient) (c : TimerClient) (r : W × Bool × List TimerClient)
      → passed h (p ++ c ∷ []) r ≡ passed h p (r.0, r.1, c ∷ r.2)
  behind h p c (w, delay, cs) = ap (λ l. delayed o delay (timers w h l)) (append_one p c cs)

  fired :
      (f : ℕ) (w : W) (h : EventHandler) (p : List TimerClient) (c : TimerClient)
      (cs : List TimerClient) (delay : Bool)
      → trash_timer o (length p) (dispatch o c (timers w h (p ++ c ∷ cs)))
          >> timer_loop o f (suc (length p)) delay
        ≡ timer_loop o f
            (suc (length p))
            delay
            (timers (run c.func c.instance_ptr w) h (p ++ mark_to_trash c ∷ cs))
  fired f w h p c cs delay =
      let s = timers w h (p ++ c ∷ cs) in
      ap (λ s1. trash_timer o (length p) s1 >> timer_loop o f (suc (length p)) delay)
        (quiet c.func c.instance_ptr s)
      ∙ rw (trash_timer, mark_at-append p c cs) refl

  choose :
      (h : EventHandler) (p : List TimerClient) (a b : Bool) (x y z : Outcome (State W))
      (r1 r2 r3 : W × Bool × List TimerClient)
      → x ≡ done (passed h p r1)
      → y ≡ done (passed h p r2)
      → z ≡ done (passed h p r3)
      → (if a then x else if b then y else z)
        ≡ done (passed h p (if a then r1 else if b then r2 else r3))
  choose h p true b x y z r1 r2 r3 e1 e2 e3 = e1
  choose h p false true x y z r1 r2 r3 e1 e2 e3 = e2
  choose h p false false x y z r1 r2 r3 e1 e2 e3 = e3

  timer_loop_pass :
      (w : W) (h : EventHandler) (p cs : List TimerClient) (delay : Bool)
      → timer_loop o (suc (length cs)) (length p) delay (timers w h (p ++ cs))
        ≡ done (passed h p (timer_pass cs delay w))
  unfolding timer_loop
  timer_loop_pass w h p [] delay = rw (timer_loop, get_elem?_end p) refl
  timer_loop_pass w h p (c ∷ cs) delay =
      let f = suc (length cs) in
      let later : (w1 : W) (c1 : TimerClient) (d : Bool)
          → timer_loop o f (suc (length p)) d (timers w1 h (p ++ c1 ∷ cs))
            ≡ done (
                passed h p
                  ((timer_pass cs d w1).0, (timer_pass cs d w1).1, c1 ∷ (timer_pass cs d w1).2)) =
        λ w1 c1 d.
          next f w1 h p c1 cs d
          ∙ timer_loop_pass w1 h (p ++ c1 ∷ []) cs d
          ∙ ap done (behind h p c1 (timer_pass cs d w1)) in
      let w1 = run c.func c.instance_ptr w in
      rw (timer_loop, get_elem?-append p c cs)
        (choose h p c.trashed (is_expired o c w) _ _ _ _ _ _ (later w c delay)
          (fired f w h p c cs delay ∙ later w1 (mark_to_trash c) delay) (later w c true))

  -- When callbacks leave the handler alone, the loop of `dispatchTimerEvents` on fuel for the
  -- length of the list and one more ends with what one pass over the list gives: each timer that
  -- is valid and expired at its turn is called once and trashed, the others stay as they are, and
  -- the program sleeps once when a valid timer has not expired.
  pub timer_loop-timer_pass :
      (w : W) (h : EventHandler) (cs : List TimerClient)
      → let (w1, delay, cs1) = timer_pass cs false w in
        timer_loop o (suc (length cs)) 0 false (w, record h { timer_clients = cs; get_out = false })
        ≡ done (
          (if delay then o.usleep 125000 w1 else w1),
          record h { timer_clients = cs1; get_out = false },
        )
  timer_loop-timer_pass w h cs =
      timer_loop_pass w h [] cs false ∙ ap done (slept (timer_pass cs false w))
    where
      slept :
          (r : W × Bool × List TimerClient)
          → passed h [] r ≡ (
            (if r.1 then o.usleep 125000 r.0 else r.0),
            record h { timer_clients = r.2; get_out = false },
          )
      slept (w1, true, cs1) = refl
      slept (w1, false, cs1) = refl
