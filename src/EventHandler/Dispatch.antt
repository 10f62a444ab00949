-- ===== src/EventHandler/Dispatch.antt =====
-- OZT_EventHandler::dispatchEvents and its loops, startDispatch and waitResult. What a callback,
-- the clock and the system calls do is a parameter.
pub mod Sizes
pub mod Laws
pub mod Timers
pub mod Rounds
use operations_procedure_sup.Common.{
  ℕ, zero, suc, Bool, true, false, not, ◌&&◌, List, [], ◌∷◌, Option, none, some, if◌then◌else◌,
  get_elem?, ltb, length, ℤ, eqb_ℤ,
}
use operations_procedure_sup.ErrHandling.{OztResult}
use operations_procedure_sup.OzTime.{OzTime, in_history}
use operations_procedure_sup.EventHandler.{
  Client, TimerClient, ChdClient, EventHandler, mark_to_trash, remove_trashed_clients,
}

-- The world, with the handler, that callbacks work on.
abbrev pub State : Type 0 → Type 0
State W = W × EventHandler

-- What lies outside of the handler.
pub record Outside (W : Type 0) : Type 0 where
  -- `func(instance)`
  pub fires : ℕ → ℕ → State W → State W
  -- `function(instance, pid, stat)`
  pub fires_signal : ℕ → ℕ → ℤ → ℤ → State W → State W
  -- `time(0)`
  pub now : W → ℤ
  -- `waitpid(pid, stat, WNOHANG)`: the process that has ended, and its status.
  pub waitpid : ℤ → W → W × ℤ × ℤ
  -- `select` without files, and `usleep`.
  pub select_sleep : W → W
  pub usleep : ℕ → W → W

-- How a loop ends: as it should, with a position outside of the list, or not with this fuel.
pub data Outcome (A : Type 0) : Type 0 where
  done : A → Outcome A
  bounds_error : Outcome A
  unfinished : Outcome A

-- One loop after the other.
infixl 40 ◌>>◌
abbrev pub ◌>>◌ : {A B : Type 0} → Outcome A → (A → Outcome B) → Outcome B
done a >> k = k a
bounds_error >> k = bounds_error
unfinished >> k = unfinished

-- `clients[i]->markToTrash()`, behind a callback that may have changed the list.
abbrev pub mark_at : {X : Type 0} → ℕ → List (Client X) → Option (List (Client X))
mark_at i [] = none
mark_at zero (c ∷ cs) = some (mark_to_trash c ∷ cs)
mark_at (suc i) (c ∷ cs) = elim (mark_at i cs) [ none ↦ none | some cs1 ↦ some (c ∷ cs1) ]

module _ {W : Type 0} (o : Outside W) where
  -- `OZT_Client::dispatch`
  abbrev pub dispatch : {X : Type 0} → Client X → State W → State W
  dispatch c s = o.fires c.func c.instance_ptr s

  -- The loop of `dispatchIOEvents`, from position i.
  unfoldable pub io_loop : ℕ → ℕ → State W → Outcome (State W)
  io_loop zero i s = unfinished
  io_loop (suc f) i s = elim (get_elem? s.1.io_clients i) [
    | none ↦ done s
    | some c ↦
        let rest = io_loop f (suc i) (if c.trashed then s else dispatch c s) in
        if s.1.get_out then done s else rest
  ]

  -- `isExpired`
  unfoldable pub is_expired : TimerClient → W → Bool
  is_expired c w = in_history (o.now w) c.extra

  -- `if (delay == 1) usleep(125000)`
  abbrev pub delayed : Bool → State W → State W
  delayed delay s = if delay then (o.usleep 125000 s.0, s.1) else s

  -- `markToTrash` of the timer client at a position.
  abbrev pub trash_timer : ℕ → State W → Outcome (State W)
  trash_timer i s = elim (mark_at i s.1.timer_clients) [
    | none ↦ bounds_error
    | some cs ↦ done (s.0, record s.1 { timer_clients = cs })
  ]

  -- The loop of `dispatchTimerEvents`; `delay` is its local variable.
  unfoldable pub timer_loop : ℕ → ℕ → Bool → State W → Outcome (State W)
  timer_loop zero i delay s = unfinished
  timer_loop (suc f) i delay s = elim (get_elem? s.1.timer_clients i) [
    | none ↦ done (delayed delay s)
    | some c ↦
        let passed = timer_loop f (suc i) delay s in
        let waiting = timer_loop f (suc i) true s in
        let fired = trash_timer i (dispatch c s) >> (λ s1. timer_loop f (suc i) delay s1) in
        if s.1.get_out
        then done s
        else if c.trashed
        then passed
        else if is_expired c s.0
        then fired
        else waiting
  ]

  -- The loop of `dispatchTickEvents`.
  unfoldable pub tick_loop : ℕ → ℕ → Bool → State W → Outcome (State W)
  tick_loop zero i delay s = unfinished
  tick_loop (suc f) i delay s = elim (get_elem? s.1.tick_clients i) [
    | none ↦ done (delayed delay s)
    | some c ↦
        let passed = tick_loop f (suc i) delay s in
        let fired = tick_loop f (suc i) true (dispatch c s) in
        if s.1.get_out then done s else if c.trashed then passed else fired
  ]

  -- `markToTrash` of the child client at a position.
  abbrev pub trash_chd : ℕ → State W → Outcome (State W)
  trash_chd i s = elim (mark_at i s.1.chd_clients) [
    | none ↦ bounds_error
    | some cs ↦ done (s.0, record s.1 { chd_clients = cs })
  ]

  -- `dispatchSignalEvent`
  abbrev pub dispatch_signal_event : ChdClient → ℤ → State W → State W
  dispatch_signal_event c stat s = o.fires_signal c.func c.instance_ptr c.extra stat s

  -- The loop of `dispatchChdEvents`.
  unfoldable pub chd_loop : ℕ → ℕ → State W → Outcome (State W)
  chd_loop zero i s = unfinished
  chd_loop (suc f) i s = elim (get_elem? s.1.chd_clients i) [
    | none ↦ done s
    | some c ↦
        let (w1, pid, stat) = o.waitpid c.extra s.0 in
        let passed = chd_loop f (suc i) s in
        let alive = chd_loop f (suc i) (w1, s.1) in
        let fired =
          trash_chd i (dispatch_signal_event c stat (w1, s.1)) >> (λ s1. chd_loop f (suc i) s1) in
        if s.1.get_out
        then done s
        else if c.trashed
        then passed
        else if eqb_ℤ pid c.extra
        then fired
        else alive
  ]

  -- `dispatchEvents`, with the same fuel for each of its loops.
  unfoldable pub dispatch_events : ℕ → State W → Outcome (State W)
  dispatch_events f s =
      io_loop f 0 (s.0, record s.1 { get_out = false })
      >> timer_loop f 0 false
      >> tick_loop f 0 false
      >> chd_loop f 0
      >> (λ s1. done (s1.0, remove_trashed_clients s1.1))

  -- The loop of `startDispatch`: g rounds at most.
  unfoldable pub rounds : ℕ → ℕ → State W → Outcome (State W)
  rounds zero f s = unfinished
  rounds (suc g) f s =
      if s.1.get_out then done s else dispatch_events f (o.select_sleep s.0, s.1) >> rounds g f

  -- `startDispatch`
  unfoldable pub start_dispatch : ℕ → ℕ → State W → Outcome (State W)
  unfolding rounds
  start_dispatch g f s = rounds g f (s.0, record s.1 { get_out = false })

  -- `waitResult`
  unfoldable pub wait_result : ℕ → ℕ → State W → Outcome (State W × OztResult)
  unfolding start_dispatch
  wait_result g f s = start_dispatch g f s >> (λ s1. done (s1, s1.1.result))
