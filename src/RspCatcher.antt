-- ===== src/RspCatcher.antt =====
-- ops-enm-parser/src/main/cpp/parse/OZT_RspCatcher.C: the waiting for texts in a response and for
-- its end. What happens during a second of sleep, and what the command sender does when it logs
-- off, is a parameter.
pub mod Answers
pub mod Waiting
use operations_procedure_sup.Common.{
  ℕ, zero, suc, ◌+◌, ◌%◌, Bool, true, false, not, ◌&&◌, ◌||◌, List, [], ◌∷◌, Option, none, some,
  Text, codes, ◌==◌, if◌then◌else◌, ℤ, pos, minus_one, pos_part, ◌+ℤ◌, ◌-ℤ◌, ltb_ℤ, eqb_ℤ,
}
use operations_procedure_sup.Tools.{Tools}
use operations_procedure_sup.ErrHandling.{
  Code, OztResult, ErrHandler, fresh, of_code, is_ok, filtered, undefined, no_problem,
  invalid_value, interrupted, time_expired, reply_check_fail,
}
use operations_procedure_sup.Value.Words.{wrap64}
use operations_procedure_sup.Value.Convert.{Value, to_long}
use operations_procedure_sup.CmdRspBuf.{CmdRspBuf, find}
use operations_procedure_sup.EventHandler.{EventHandler, set_result}

-- `OZT_RspCatcher::State`
pub data State : Type 0 where
  idle waitfor waitreply : State

-- `OZT_RspCatcher`; `changes` counts the calls of `changed`.
pub record RspCatcher : Type 0 where
  pub ok_reply : Text
  pub fail_reply : Text
  pub expected_str1 : Text
  pub expected_str2 : Text
  pub state : State
  pub changes : ℕ

-- `OZT_RspCatcher()`
abbrev pub new_rsp_catcher : RspCatcher
new_rsp_catcher = record {
  ok_reply = [];
  fail_reply = [];
  expected_str1 = [];
  expected_str2 = [];
  state = idle;
  changes = 0;
}

-- The catcher with what it works on: the buffer, the event handler, the error handler, the numbers
-- given to `showTimeInfo`, the latest first, and the rest of the world.
pub record Scene (W : Type 0) : Type 0 where
  pub catcher : RspCatcher
  pub buffer : CmdRspBuf
  pub handler : EventHandler
  pub errors : ErrHandler
  pub shown : List ℤ
  pub rest : W

-- What lies outside.
pub record Outside (W : Type 0) : Type 0 where
  -- `cmdSender.sendLogoff(flag)`
  pub send_logoff : Bool → Scene W → Scene W
  -- `sleep(RESPONSE_CHECK_INTERVAL)`
  pub sleep : Scene W → Scene W

-- `setOKReply` and `setFailReply`
unfoldable pub set_ok_reply : Text → RspCatcher → RspCatcher
set_ok_reply str c = record c { ok_reply = str }

unfoldable pub set_fail_reply : Text → RspCatcher → RspCatcher
set_fail_reply str c = record c { fail_reply = str }

-- `changeState`
abbrev pub change_state : State → RspCatcher → RspCatcher
change_state new_state c = record c { state = new_state }

-- `printState`
unfoldable pub print_state : State → Text
print_state idle = codes "IDLE"
print_state waitfor = codes "WAITFOR"
print_state waitreply = codes "WAITREPLY"

-- `isNull`
abbrev pub is_null : Text → Bool
is_null [] = true
is_null (c ∷ cs) = false

-- `code == INTERRUPTED` and `code == UNDEFINED`
unfoldable pub is_interrupted : Code → Bool
is_interrupted interrupted = true
is_interrupted _ = false

unfoldable pub is_undefined : Code → Bool
is_undefined undefined = true
is_undefined _ = false

-- `waitReplyCheck`
unfoldable pub wait_reply_check : RspCatcher → CmdRspBuf → OztResult
wait_reply_check c b =
    let failed = not (is_null c.fail_reply) && find c.fail_reply minus_one b in
    if b.rsp_ended
    then (if failed then of_code reply_check_fail else of_code no_problem)
    else if failed
    then of_code reply_check_fail
    else if not (is_null c.ok_reply) && find c.ok_reply minus_one b
    then of_code no_problem
    else of_code undefined

-- `changeState(IDLE)`, `changed()` and `setResult(result)`.
abbrev pub settled : {W : Type 0} → OztResult → Scene W → Scene W
settled result s = record s {
  catcher = record s.catcher { state = idle; changes = suc s.catcher.changes };
  handler = set_result result s.handler;
}

-- `updateFrom`
unfoldable pub update_from : {W : Type 0} → Scene W → Scene W
unfolding set_result wait_reply_check is_undefined
update_from s = elim s.catcher.state [
  | idle ↦ s
  | waitfor ↦
      if find s.catcher.expected_str1 minus_one s.buffer
        && find s.catcher.expected_str2 minus_one s.buffer
      then settled (of_code no_problem) s
      else s
  | waitreply ↦
      let result = wait_reply_check s.catcher s.buffer in
      if is_undefined result.code then s else settled result s
]

-- `timeOut`
unfoldable pub time_out : {W : Type 0} → Scene W → Scene W
unfolding set_result
time_out s = elim s.catcher.state [
  | idle ↦ s
  | waitfor ↦ settled (of_code time_expired) s
  | waitreply ↦ settled (of_code time_expired) s
]

-- `interrupt`
unfoldable pub interrupt : {W : Type 0} → Scene W → Scene W
unfolding set_result
interrupt s = elim s.catcher.state [
  | idle ↦ s
  | waitfor ↦ settled (of_code interrupted) s
  | waitreply ↦ settled (of_code interrupted) s
]

-- `listener->showTimeInfo(v)`
abbrev pub show_time_info : {W : Type 0} → ℤ → Scene W → Scene W
show_time_info v s = record s { shown = v ∷ s.shown }

-- The seconds that are left: each fifth one above 60, each second one above 30, and all below.
unfoldable pub show_left : {W : Type 0} → ℤ → Scene W → Scene W
show_left v s =
    if ltb_ℤ (pos 60) v
    then (if pos_part v % 5 == 0 then show_time_info v s else s)
    else if ltb_ℤ (pos 30) v
    then (if pos_part v % 2 == 0 then show_time_info v s else s)
    else show_time_info v s

-- `timeOut` with the result behind the loop.
unfoldable pub expired : {W : Type 0} → Scene W → OztResult × Scene W
unfolding filtered time_out
expired s =
    let s1 = time_out s in
    let (r, errors) = filtered (of_code time_expired) s1.errors in
    (r, record s1 { errors = errors })

-- The event handler forgets an interrupt of earlier.
abbrev pub forgets : {W : Type 0} → Scene W → Scene W
forgets s = record s { handler = set_result (of_code undefined) s.handler }

-- The first number of the loop.
abbrev pub first_number : Bool → ℤ → ℤ
first_number indefinite v = if indefinite then pos 1 else if eqb_ℤ v (pos 0) then pos 1 else v

module _ {W : Type 0} (before : Bool → Scene W → Scene W) (sleep : Scene W → Scene W)
    (ready : Scene W → Bool) where
  -- The loop `while (v > 0)`, on fuel. `before` is what it does before it sleeps, and `ready` the
  -- test behind that.
  unfoldable pub wait_loop : ℕ → Bool → ℤ → Bool → Scene W → Option (OztResult × Scene W)
  unfolding is_interrupted show_left expired
  wait_loop zero indefinite v flag s = none
  wait_loop (suc f) indefinite v flag s =
      let s1 = sleep (before flag s) in
      let next = if indefinite then wrap64 (v +ℤ pos 1) else v -ℤ pos 1 in
      let s2 = if indefinite then show_time_info v s1 else show_left next s1 in
      let more = wait_loop f indefinite next false s2 in
      if not (ltb_ℤ (pos 0) v)
      then some (expired s)
      else if is_interrupted s.handler.result.code
      then some (of_code interrupted, show_time_info minus_one s)
      else if ready s1
      then some (of_code no_problem, s1)
      else more

module _ {W : Type 0} (t : Tools) (out : Outside W) where
  -- `find(str1, 0) && find(str2, 0)`
  abbrev pub both_found : Value → Value → Scene W → Bool
  both_found str1 str2 s = find str1.chars (pos 0) s.buffer && find str2.chars (pos 0) s.buffer

  -- `waitFor`
  unfoldable pub wait_for :
      ℕ → Value → Value → Bool → Value → Scene W → Option (OztResult × Scene W)
  unfolding wait_loop is_ok set_result
  wait_for f str1 str2 indefinite secs s =
      let (v, result) = to_long t secs fresh in
      let s0 = forgets s in
      let waiting = record s0 { catcher = change_state waitfor s0.catcher } in
      if not (is_ok result.code) || ltb_ℤ v (pos 0)
      then some (of_code invalid_value, s0)
      else if is_null str1.chars && is_null str2.chars
      then some (of_code invalid_value, s0)
      else if find str1.chars minus_one s0.buffer && find str2.chars minus_one s0.buffer
      then some (of_code no_problem, s0)
      else wait_loop out.send_logoff out.sleep (both_found str1 str2) f indefinite
          (first_number indefinite v) true waiting

  -- `waitReply`
  unfoldable pub wait_reply : ℕ → Bool → Value → Scene W → Option (OztResult × Scene W)
  unfolding wait_loop is_ok set_result wait_reply_check is_undefined filtered
  wait_reply f indefinite secs s =
      let (v, result) = to_long t secs fresh in
      let s0 = forgets s in
      let checked = wait_reply_check s0.catcher s0.buffer in
      let (answer, errors) = filtered checked s0.errors in
      let waiting = record s0 { catcher = change_state waitreply s0.catcher } in
      if not (is_ok result.code) || ltb_ℤ v (pos 0)
      then some (of_code invalid_value, s0)
      else if not (is_undefined checked.code)
      then some (answer, record s0 { errors = errors })
      else wait_loop (λ flag s. s) out.sleep (λ s. s.buffer.rsp_ended) f indefinite
          (first_number indefinite v) true waiting
