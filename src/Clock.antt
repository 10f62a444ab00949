-- ===== src/Clock.antt =====
-- ops-enm-parser/src/main/cpp/parse/OZT_Clock.C: the delays of a script. What happens during a second
-- of sleep is a parameter; so is the time of the day where the clock reads it.
pub mod Delays
use operations_procedure_sup.Common.{
  ℕ, zero, suc, ◌%◌, Bool, true, false, not, ◌&&◌, List, ◌∷◌, Option, none, some, ◌==◌,
  if◌then◌else◌, ℤ, pos, minus_one, pos_part, ◌-ℤ◌, ◌*ℤ◌, ltb_ℤ,
}
use operations_procedure_sup.Tools.{Tools}
use operations_procedure_sup.ErrHandling.{
  OztResult, fresh, of_code, is_ok, no_problem, invalid_value, interrupted,
}
use operations_procedure_sup.Value.Words.{wrap64}
use operations_procedure_sup.Value.Convert.{Value, to_long}
use operations_procedure_sup.EventHandler.{EventHandler, set_result, unset_tick_trigger}
use operations_procedure_sup.OzTime.{OzTime, difference, other_time}

-- `OZT_Clock`: `busy` is the state BUSY, `has_listener` that the pointer is not null, `is_gui` the
-- type of client, and `last_tick` the static variable of `aTick`.
pub record Clock : Type 0 where
  pub busy : Bool
  pub delay_interrupted : Bool
  pub inform_client : Bool
  pub has_listener : Bool
  pub is_gui : Bool
  pub original_start_time : OzTime
  pub secs_for_delay : ℤ
  pub last_tick : OzTime

-- The clock with the event handler, the numbers given to `showTimeInfo`, the latest first, and the
-- rest of the world.
pub record Scene (W : Type 0) : Type 0 where
  pub clock : Clock
  pub handler : EventHandler
  pub shown : List ℤ
  pub rest : W

abbrev pub with_clock : {W : Type 0} → Clock → Scene W → Scene W
with_clock c s = record s { clock = c }

-- `listener->showTimeInfo(v)`
abbrev pub show_time_info : {W : Type 0} → ℤ → Scene W → Scene W
show_time_info v s = record s { shown = v ∷ s.shown }

-- The seconds that are shown: each fifth one above 60, each second one above 30, and all below.
unfoldable pub is_shown : ℤ → Bool
is_shown v =
    if ltb_ℤ (pos 60) v
    then pos_part v % 5 == 0
    else if ltb_ℤ (pos 30) v
    then pos_part v % 2 == 0
    else true

-- The seconds that are left, for a listener that is there.
unfoldable pub show_left : {W : Type 0} → ℤ → Scene W → Scene W
unfolding is_shown
show_left v s = if is_shown v && s.clock.has_listener then show_time_info v s else s

-- `setDelayInterrupt`
unfoldable pub set_delay_interrupt : Bool → Clock → Clock
set_delay_interrupt state c = record c { delay_interrupted = state }

-- `shutdown`, with the address of the clock.
unfoldable pub shutdown : {W : Type 0} → ℕ → Scene W → Scene W
unfolding set_result unset_tick_trigger
shutdown this s =
    if s.clock.busy
    then record s { handler = unset_tick_trigger this (set_result (of_code interrupted) s.handler) }
    else s

-- `interrupt`; a null listener of a graphical client is not looked for.
unfoldable pub interrupt : {W : Type 0} → ℕ → Scene W → Option (Scene W)
unfolding set_result unset_tick_trigger set_delay_interrupt
interrupt this s =
    let s1 = record s {
      clock = set_delay_interrupt true s.clock;
      handler = unset_tick_trigger this (set_result (of_code interrupted) s.handler);
    } in
    if not s.clock.busy
    then some s
    else if not s.clock.is_gui
    then some s1
    else if s.clock.has_listener
    then some (show_time_info minus_one s1)
    else none

-- What `startDelay` does before its loop, at a time of the day, and behind it.
abbrev pub started : {W : Type 0} → OzTime → ℤ → Scene W → Scene W
started now secs s =
    with_clock
      (record s.clock {
        original_start_time = now;
        secs_for_delay = secs;
        inform_client = ltb_ℤ (pos 5) secs;
        busy = true;
      })
      s

abbrev pub ended : {W : Type 0} → Scene W → Scene W
ended s = with_clock (record s.clock { busy = false }) s

module _ {W : Type 0} (sleep : Scene W → Scene W) where
  -- The loop of `startDelay`, on fuel.
  unfoldable pub delay_loop : ℕ → ℤ → Scene W → Option (Scene W)
  unfolding show_left set_delay_interrupt
  delay_loop zero secs s = none
  delay_loop (suc f) secs s =
      let left = secs -ℤ pos 1 in
      let more = delay_loop f left (sleep (show_left left s)) in
      if not (ltb_ℤ (pos 0) secs)
      then some s
      else if s.clock.delay_interrupted
      then some (with_clock (set_delay_interrupt false s.clock) s)
      else more

  -- `startDelay`
  unfoldable pub start_delay : ℕ → OzTime → ℤ → Scene W → Option (Scene W)
  unfolding delay_loop
  start_delay f now secs s = elim (delay_loop f secs (started now secs s)) [
    | none ↦ none
    | some s1 ↦ some (ended s1)
  ]

  -- The end of `delay` and `delaySec`, with the seconds and whether there is a delay.
  abbrev pub delays : ℕ → OzTime → Bool → ℤ → Scene W → Option (OztResult × Scene W)
  delays f now positive secs s =
      if positive
      then elim (start_delay f now secs s) [ none ↦ none | some s1 ↦ some (of_code no_problem, s1) ]
      else some (of_code no_problem, s)

  -- `delay`
  unfoldable pub delay : Tools → ℕ → OzTime → Value → Scene W → Option (OztResult × Scene W)
  unfolding to_long is_ok start_delay
  delay t f now mins s =
      let (mins_v, result) = to_long t mins fresh in
      if not (is_ok result.code)
      then some (of_code invalid_value, s)
      else delays f now (ltb_ℤ (pos 0) mins_v) (wrap64 (mins_v *ℤ pos 60)) s

  -- `delaySec`
  unfoldable pub delay_sec : Tools → ℕ → OzTime → Value → Scene W → Option (OztResult × Scene W)
  unfolding to_long is_ok start_delay
  delay_sec t f now secs s =
      let (secs_v, result) = to_long t secs fresh in
      if not (is_ok result.code)
      then some (of_code invalid_value, s)
      else delays f now (ltb_ℤ (pos 0) secs_v) secs_v s

-- What `aTick` shows, with the seconds that are left; a null listener is not looked for.
abbrev pub tick_shows : {W : Type 0} → OzTime → ℤ → Scene W → Option (Scene W)
tick_shows {W} now left s =
    let c = s.clock in
    let done = record s { handler = set_result (of_code no_problem) s.handler } in
    let told : ℤ → Scene W → Option (Scene W) =
      λ v s1. if c.has_listener then some (show_time_info v s1) else none in
    if not (ltb_ℤ (pos 0) left)
    then (if c.inform_client && c.is_gui then told minus_one done else some done)
    else if c.inform_client && other_time now c.last_tick && c.is_gui && is_shown left
    then told left s
    else some s

-- `aTick`, at a time of the day.
unfoldable pub a_tick : {W : Type 0} → OzTime → Scene W → Option (Scene W)
unfolding set_result other_time difference is_shown
a_tick now s =
    let c = s.clock in
    let left = wrap64 (c.secs_for_delay -ℤ difference now c.original_start_time) in
    if not c.busy then some s else elim (tick_shows now left s) [
      | none ↦ none
      | some s1 ↦ some (with_clock (record s1.clock { last_tick = now }) s1)
    ]
