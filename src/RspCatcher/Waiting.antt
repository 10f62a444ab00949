-- ===== src/RspCatcher/Waiting.antt =====
-- When a wait with a number of seconds ends, and with what.
use operations_procedure_sup.Common.{
  ℕ, zero, suc, ◌<◌, Bool, true, false, ◌&&◌, ◌≡◌, refl, ◌∙◌, inl, inr, arith, some, ◌==◌,
  if◌then◌else◌, Bool-cases, pos, minus_one, ltb_ℤ, -ℤ_one,
}
use operations_procedure_sup.Tools.{Tools}
use operations_procedure_sup.ErrHandling.{OztResult, of_code, no_problem, interrupted, fresh}
use operations_procedure_sup.Value.Convert.{Value, of_long}
use operations_procedure_sup.Value.Convert.Laws.{ReadsNumerals, to_long-of_long}
use operations_procedure_sup.CmdRspBuf.{find}
use operations_procedure_sup.RspCatcher.{
  Scene, Outside, waitfor, is_null, is_interrupted, show_time_info, show_left, expired, forgets,
  first_number, change_state, wait_loop, both_found, wait_for,
}

seconds_left : (n : ℕ) → ltb_ℤ (pos 0) (pos (suc n)) ≡ true
seconds_left n = ground arith

module _ {W : Type 0} (before : Bool → Scene W → Scene W) (sleep : Scene W → Scene W)
    (ready : Scene W → Bool) where
  -- The scene behind the sleep of a round, and behind the round, with n seconds left.
  abbrev pub slept : Bool → Scene W → Scene W
  slept flag s = sleep (before flag s)

  abbrev pub round : ℕ → Bool → Scene W → Scene W
  round n flag s = show_left (pos n) (slept flag s)

  -- How a wait goes on from a scene with n seconds left, in at most n rounds more.
  pub data Waits : ℕ → Bool → Scene W → OztResult × Scene W → Type 0 where
    -- The user interrupts, and the time is taken off the display.
    stopped :
        (n : ℕ) (flag : Bool) (s : Scene W)
        → is_interrupted s.handler.result.code ≡ true
        → Waits (suc n) flag s (of_code interrupted, show_time_info minus_one s)
    -- It has come during the sleep.
    arrived :
        (n : ℕ) (flag : Bool) (s : Scene W)
        → is_interrupted s.handler.result.code ≡ false
        → ready (slept flag s) ≡ true
        → Waits (suc n) flag s (of_code no_problem, slept flag s)
    -- It has not come, and a second is over.
    goes_on :
        (n : ℕ) (flag : Bool) (s : Scene W) (r : OztResult × Scene W)
        → is_interrupted s.handler.result.code ≡ false
        → ready (slept flag s) ≡ false
        → Waits n false (round n flag s) r
        → Waits (suc n) flag s r
    -- The time is over.
    late : (flag : Bool) (s : Scene W) → Waits 0 flag s (expired s)

  wait_loop-round :
      (f n : ℕ) (flag : Bool) (s : Scene W)
      → wait_loop before sleep ready (suc f) false (pos (suc n)) flag s ≡ (
          if is_interrupted s.handler.result.code
          then some (of_code interrupted, show_time_info minus_one s)
          else if ready (slept flag s)
          then some (of_code no_problem, slept flag s)
          else wait_loop before sleep ready f false (pos n) false (round n flag s))
  unfolding wait_loop
  wait_loop-round f n flag s = rw (seconds_left n, -ℤ_one n) refl

  pub wait_loop_ends :
      (f n : ℕ) (flag : Bool) (s : Scene W)
      → n < f
      → (r : OztResult × Scene W) × (wait_loop before sleep ready f false (pos n) flag s ≡ some r)
        × Waits n flag s r
  wait_loop_ends zero n flag s h = absurd (omega arith)
  wait_loop_ends (suc f) zero flag s h = (expired s, unfold wait_loop in refl, late flag s)
  wait_loop_ends (suc f) (suc n) flag s h =
      elim (Bool-cases (is_interrupted s.handler.result.code)) [
        | inl e ↦ (_, wait_loop-round f n flag s ∙ rw e refl, stopped n flag s e)
        | inr e ↦ elim (Bool-cases (ready (slept flag s))) [
          | inl a ↦ (_, wait_loop-round f n flag s ∙ rw (e, a) refl, arrived n flag s e a)
          | inr a ↦
              let (r, found, waits) = wait_loop_ends f n false (round n flag s) (omega arith) in
              (r, wait_loop-round f n flag s ∙ rw (e, a) found, goes_on n flag s r e a waits)
        ]
      ]

-- A second is the least time.
abbrev pub seconds : ℕ → ℕ
seconds n = if n == 0 then 1 else n

first_seconds : (n : ℕ) → first_number false (pos n) ≡ pos (seconds n)
first_seconds n = ground arith

not_negative : (n : ℕ) → ltb_ℤ (pos n) (pos 0) ≡ false
not_negative n = ground arith

seconds_below : (n f : ℕ) → suc n < f → seconds n < f
seconds_below n f h = ground arith

module _ {W : Type 0} (t : Tools) (reads : ReadsNumerals t) (out : Outside W) where
  -- `waitFor` with a number of seconds that a `long` holds, for two texts that are not both empty
  -- and have not both come yet, ends within as many rounds: with INTERRUPTED, and -1 on the display,
  -- when the handler has that result at the start of a round; with NO_PROBLEM when both texts
  -- are found behind a second of sleep; and else, when the time is over, with what
  -- `timeOut` and the filter of TIME_EXPIRED make of it. A wait for 0 seconds is one for a second.
  pub wait_for_ends :
      (str1 str2 : Value) (n f : ℕ) (s : Scene W)
      → n < 9223372036854775808
      → suc n < f
      → (is_null str1.chars && is_null str2.chars) ≡ false
      → (find str1.chars minus_one s.buffer && find str2.chars minus_one s.buffer) ≡ false
      → (r : OztResult × Scene W) × (wait_for t out f str1 str2 false (of_long (pos n)) s ≡ some r)
        × Waits out.send_logoff out.sleep
            (both_found t out str1 str2)
            (seconds n)
            true
            (record (forgets s) { catcher = change_state waitfor s.catcher })
            r
  unfolding wait_for
  wait_for_ends str1 str2 n f s long enough one_text not_yet =
      let value = to_long-of_long t reads (pos n) fresh long in
      let start = record (forgets s) { catcher = change_state waitfor s.catcher } in
      let (r, found, waits) =
        wait_loop_ends out.send_logoff out.sleep (both_found t out str1 str2) f (seconds n) true
          start (seconds_below n f enough) in
      (r, rw (value, not_negative n, one_text, not_yet, first_seconds n) found, waits)
