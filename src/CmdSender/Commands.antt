-- ===== src/CmdSender/Commands.antt =====
-- OZT_CmdSender.C: the sending of a command, its confirmation, and the check of the reply.
use operations_procedure_sup.Common.{
  Bool, true, false, not, ◌&&◌, [], ◌∷◌, ◌++◌, Option, none, some, Text, codes, text_eq, ◌==◌,
  if◌then◌else◌, pos, eqb_ℤ,
}
use operations_procedure_sup.ErrHandling.{
  Code, OztResult, of_code, of_info, is_ok, filtered, no_problem, no_connection, inhibit,
  confirm_fail, internal_err, not_accepted, not_authorized, partly_executed, incomplete_command,
  funbusy, reply_check_fail,
}
use operations_procedure_sup.CmdRspBuf.{
  append, scan, scan_for_fail_strings, mark_begin_of_rsp, mark_end_of_rsp, mark_search_back_point,
  update_store, CmdRspBuf,
}
use operations_procedure_sup.EventHandler.{set_result}
use operations_procedure_sup.RspCatcher.{is_null}
use operations_procedure_sup.RspReceiver.{log_on}
use operations_procedure_sup.CmdSender.{
  idle, confirm_pending, logging_on, wait_imm_rsp, wait_imm_rsp_confirmed, CmdResult, cmd_executed,
  cmd_not_accepted, cmd_partly_executed, cmd_incomplete, cmd_function_busy, CmdSender, Station,
  Library, state_of, with_sender, change_state, flush_stored_responses, clear_scan_str,
  reset_fun_busy_counter, dec_fun_busy_counter,
}
use operations_procedure_sup.CmdSender.Keys.{m_scan}
use operations_procedure_sup.CmdSender.Events.{answers, actual_send, is_okay}

-- The result for the presence of the OK or the FAIL string.
abbrev pub toggled : CmdSender → CmdRspBuf → OztResult → OztResult
toggled c b result =
    if is_ok result.code
    then (if not (is_null c.fail_reply) && not ((scan c.fail_reply b).0 == 0)
        then of_info reply_check_fail c.fail_reply
        else result)
    else if not (is_null c.ok_reply) && not ((scan c.ok_reply b).0 == 0)
    then of_code no_problem
    else result

-- What is appended where the response test fails.
abbrev pub test_failed : Text → Text
test_failed fail_str = codes "*** RESPONSE TEST FAILED WITH STRING: " ++ fail_str ++ codes " ***\n"

-- The two searches for the additional fail strings.
abbrev pub fail_strings_checked : CmdSender → OztResult → CmdRspBuf → OztResult × CmdRspBuf
fail_strings_checked c result b =
    let (result1, b1) = scan_for_fail_strings c.extra_fail_strings result c.fun_busy_counter b in
    scan_for_fail_strings c.extra_fail_strings result1 c.fun_busy_counter b1

-- The checking of the strings set up by `@/w1,...,wn/`.
abbrev pub keys_checked : {W : Type 0} → OztResult → Station W → OztResult × Station W
keys_checked result s =
    let (fail_str, c) = m_scan s.buffer s.rest.sender in
    let s1 = with_sender c s in
    elim fail_str [
      | none ↦ (result, s1)
      | some key ↦ (
        if c.r_flag then result else of_info reply_check_fail key,
        record s1 { buffer = append (test_failed key) false s1.buffer },
      )
    ]

-- `checkReply`
unfoldable pub check_reply : {W : Type 0} → OztResult → Station W → OztResult × Station W
unfolding scan_for_fail_strings is_ok scan m_scan append
check_reply result s =
    let (result1, b) = fail_strings_checked s.rest.sender result s.buffer in
    let s1 = record s { buffer = b } in
    let result2 = toggled s.rest.sender b result1 in
    if is_ok result2.code then keys_checked result2 s1 else (result2, s1)

-- `result.filtered()`
abbrev pub is_filtered : {W : Type 0} → OztResult → Station W → OztResult × Station W
is_filtered result s =
    let (r, errors) = filtered result s.rest.errors in
    (r, record s { rest = record s.rest { errors = errors } })

-- `changeState(IDLE)` and `clearScanStr()`.
abbrev pub gives_up : {W : Type 0} → Station W → Station W
gives_up s = let s1 = change_state idle s in with_sender (clear_scan_str s1.rest.sender) s1

-- `code == NO_CONNECTION`
unfoldable pub is_no_connection : Code → Bool
is_no_connection no_connection = true
is_no_connection _ = false

-- The result that `sendCmd` sets for what the command sender of the library has last.
unfoldable pub last_result : CmdResult → OztResult
last_result cmd_executed = of_code no_problem
last_result cmd_not_accepted = of_code not_accepted
last_result cmd_partly_executed = of_code partly_executed
last_result cmd_incomplete = of_code incomplete_command
last_result cmd_function_busy = of_code funbusy
last_result _ = of_code not_authorized

-- `confirmStr`
abbrev pub confirm_str : Text
confirm_str = codes ";"

-- A change of the buffer.
abbrev pub with_buffer : {W : Type 0} → CmdRspBuf → Station W → Station W
with_buffer b s = record s { buffer = b }

-- The counter of the attempts starts again, one attempt less, and the sender waits.
abbrev pub starts_waiting : {W : Type 0} → Station W → Station W
starts_waiting s =
    change_state wait_imm_rsp
      (with_sender (dec_fun_busy_counter (reset_fun_busy_counter s.rest.sender)) s)

module _ {W : Type 0} (lib : Library W) where
  -- `storeZError`
  unfoldable pub store_z_error : Text → OztResult → Station W → Station W
  store_z_error cmd_text result s =
      let c = s.rest.sender in
      if lib.opens c.stored_file_name s
      then with_sender (record c { z_errors = (cmd_text, result) ∷ c.z_errors }) s
      else s

  -- `storeZError` where `@Z` is on.
  abbrev pub logs_error : Text → OztResult → Station W → Station W
  logs_error cmd_text result s =
      if s.rest.sender.z_flag && not (is_ok result.code) then store_z_error cmd_text result s else s

  -- The marks behind the check of a reply; `updateStore` is undefined on an empty store.
  abbrev pub marks_reply : Station W → Option (Station W)
  marks_reply s =
      let b = mark_search_back_point s.buffer in
      let b1 = if lib.resp_ended (with_buffer b s) then mark_end_of_rsp b else b in
      elim (update_store b1) [ none ↦ none | some b2 ↦ some (with_buffer b2 s) ]

  -- The part of `sendCmd` behind a command that is sent.
  unfoldable pub await_reply : Bool → Station W → Option (OztResult × Station W)
  unfolding check_reply change_state last_result set_result mark_search_back_point mark_end_of_rsp
      update_store
  await_reply mark_buf s =
      let s1 = lib.check_ipc (starts_waiting s) in
      let (result, s2) = lib.wait_result (answers (last_result (lib.last_cmd_result s1)) s1) in
      let (result1, s3) = check_reply result s2 in
      if mark_buf
      then elim (marks_reply s3) [ none ↦ none | some s4 ↦ some (result1, s4) ]
      else some (result1, s3)

  -- The end of `sendCmd`.
  abbrev pub ends_cmd : Text → Option (OztResult × Station W) → Option (OztResult × Station W)
  ends_cmd cmd_text none = none
  ends_cmd cmd_text (some r) = some (is_filtered r.0 (logs_error cmd_text r.0 r.1))

  -- The part of `sendCmd` behind `logOn`.
  unfoldable pub send_logged_on : Text → Bool → Station W → Option (OztResult × Station W)
  unfolding actual_send await_reply is_no_connection is_ok change_state filtered store_z_error
      mark_begin_of_rsp mark_search_back_point
  send_logged_on cmd_text mark_buf s =
      let b = if mark_buf then mark_begin_of_rsp s.buffer else mark_search_back_point s.buffer in
      let (result, s1) = actual_send lib cmd_text (with_buffer b s) in
      if is_no_connection result.code
      then some (is_filtered result (gives_up s1))
      else if not (is_ok result.code)
      then ends_cmd cmd_text (some (result, gives_up s1))
      else ends_cmd cmd_text (await_reply mark_buf s1)

  -- `maidenConfirm`
  unfoldable pub maiden_confirm : Text → Station W → OztResult × Station W
  unfolding change_state check_reply is_ok filtered store_z_error mark_search_back_point append
      text_eq
  maiden_confirm the_confirm_str s =
      let (code, s1) = lib.confirm_command true s in
      let s2 = change_state wait_imm_rsp_confirmed s1 in
      let s3 = with_buffer (append (codes ";") false s2.buffer) s2 in
      let (result, s4) = lib.wait_result s3 in
      let (result1, s5) = check_reply result s4 in
      let s6 = with_buffer (mark_search_back_point s5.buffer) s5 in
      if not (text_eq the_confirm_str confirm_str)
      then (of_code inhibit, gives_up (lib.confirm_command false s).1)
      else if not (is_okay code)
      then (of_code confirm_fail, gives_up s1)
      else is_filtered result1 (logs_error s6.rest.sender.last_sent_cmd result1 s6)

  -- `flushStoredResponses`, `changeState(LOGGING_ON)` and `logOn`.
  unfoldable pub logs_on : Station W → OztResult × Station W
  unfolding flush_stored_responses change_state log_on
  logs_on s = log_on lib.wait_result (change_state logging_on (flush_stored_responses s))

  -- `sendCmd` where the sender is idle.
  unfoldable pub send_idle : Text → Bool → Station W → Option (OztResult × Station W)
  unfolding logs_on send_logged_on is_ok filtered change_state
  send_idle cmd_text mark_buf s =
      let (result, s1) =
        logs_on (with_sender (record s.rest.sender { last_sent_cmd = cmd_text }) s) in
      if is_ok result.code
      then send_logged_on cmd_text mark_buf s1
      else some (is_filtered result (gives_up s1))

  -- `sendCmd` in any other state.
  abbrev pub wrong_state : Station W → Option (OztResult × Station W)
  wrong_state s = some (
    of_code internal_err,
    with_sender (clear_scan_str (record s.rest.sender { last_sent_cmd = [] })) s,
  )

  -- `sendCmd`, without the name of the file, which is not used.
  unfoldable pub send_cmd : Text → Bool → Station W → Option (OztResult × Station W)
  unfolding send_idle maiden_confirm
  send_cmd cmd_text mark_buf s0 =
      let s = with_sender (record s0.rest.sender { interrupt_pending = false }) s0 in
      if is_null cmd_text then some (of_code no_problem, s0) else elim (state_of s) [
        | idle ↦ send_idle cmd_text mark_buf s
        | confirm_pending ↦ some (maiden_confirm cmd_text s)
        | _ ↦ wrong_state s
      ]

  -- What `sendLogoff` and `sendCtrlChar` do behind `logOn`, which has gone well; `sends` is the
  -- call of the library.
  unfoldable pub control_logged_on : (Station W → Station W) → Bool → Station W → Station W
  unfolding change_state mark_begin_of_rsp mark_search_back_point mark_end_of_rsp
  control_logged_on sends mark_buf s =
      let s1 = if eqb_ℤ (lib.connection_status s) (pos 4) then sends s else s in
      let b = if mark_buf then mark_begin_of_rsp s1.buffer else mark_search_back_point s1.buffer in
      let s2 = with_buffer b s1 in
      let s3 = lib.check_ipc (starts_waiting s2) in
      let b3 = mark_search_back_point s3.buffer in
      let b4 = if lib.resp_ended (with_buffer b3 s3) then mark_end_of_rsp b3 else b3 in
      change_state idle (if mark_buf then with_buffer b4 s3 else s3)

  -- `sendLogoff` and `sendCtrlChar`
  unfoldable pub send_control : (Station W → Station W) → Bool → Station W → OztResult × Station W
  unfolding logs_on control_logged_on is_ok filtered change_state
  send_control sends mark_buf s =
      let (result, s1) = logs_on s in
      if is_ok result.code
      then is_filtered result (control_logged_on sends mark_buf s1)
      else is_filtered result (gives_up s1)

  abbrev pub send_logoff : Bool → Station W → OztResult × Station W
  send_logoff mark_buf s = send_control lib.send_logoff mark_buf s
