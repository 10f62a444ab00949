-- ===== src/CmdSender/Events.antt =====
-- OZT_CmdSender.C: the sending, a time that is over, and the answers to a command.
use operations_procedure_sup.Common.{
  Bool, true, false, not, ◌&&◌, ◌||◌, [], Option, none, some, Text, codes, text_eq, ◌==◌,
  if◌then◌else◌, eqb_ℤ, minus_one,
}
use operations_procedure_sup.ErrHandling.{
  OztResult, of_code, is_ok, no_problem, busy, failed, no_connection, es_failed_discon,
  confirm_fail, funbusy,
}
use operations_procedure_sup.EventHandler.{set_result}
use operations_procedure_sup.CmdRspBuf.{scan}
use operations_procedure_sup.RspReceiver.{log_off}
use operations_procedure_sup.CmdSender.{
  State, idle, confirm_pending, wait_imm_rsp, wait_del_rsp, funbusy_wait, wait_imm_rsp_confirmed,
  funbusy_wait_confirmed, ReturnCode, ret_okay, ret_busy, ret_failed, ret_noconnection,
  ret_discon_failed, Station, Library, state_of, with_sender, change_state, dec_fun_busy_counter,
  more_fun_busy_retry,
}

-- `ozt_evHandlerPtr->setResult`
abbrev pub answers : {W : Type 0} → OztResult → Station W → Station W
answers r s = record s { handler = set_result r s.handler }

-- `setResult` and `changeState(IDLE)`.
abbrev pub finishes : {W : Type 0} → OztResult → Station W → Station W
finishes r s = change_state idle (answers r s)

-- The result for what `sendCommand` returns.
unfoldable pub sent_result : ReturnCode → OztResult
sent_result ret_okay = of_code no_problem
sent_result ret_busy = of_code busy
sent_result ret_failed = of_code failed
sent_result ret_noconnection = of_code no_connection
sent_result ret_discon_failed = of_code es_failed_discon

-- The prompt that `actualSend` sends along.
unfoldable pub sent_prompt : Option Text → Text
unfolding text_eq
sent_prompt none = []
sent_prompt (some p) = if text_eq p (codes "<") || text_eq p (codes "cpt<") then p else []

abbrev pub is_okay : ReturnCode → Bool
is_okay ret_okay = true
is_okay _ = false

-- A delayed response that has come already, or the waiting for it.
abbrev pub waits_for_del : {W : Type 0} → Bool → Station W → Station W
waits_for_del here s = if here then finishes (of_code no_problem) s else change_state wait_del_rsp s

module _ {W : Type 0} (lib : Library W) where
  -- `actualSend`
  unfoldable pub actual_send : Text → Station W → OztResult × Station W
  unfolding sent_result sent_prompt
  actual_send cmd_text s =
      let (code, s1) = lib.send_command cmd_text (sent_prompt (lib.prompt s)) s in
      (sent_result code, s1)

  -- `timeOut`, which sends the last command again and goes to a state.
  abbrev pub resends : State → Station W → Station W
  resends new_state s =
      let (result, s1) = actual_send s.rest.sender.last_sent_cmd s in
      if is_ok result.code then change_state new_state s1 else finishes result s1

  -- `timeOut` in each state.
  abbrev pub time_out_at : State → Station W → Station W
  time_out_at funbusy_wait s = resends wait_imm_rsp s
  time_out_at funbusy_wait_confirmed s = resends wait_imm_rsp_confirmed s
  time_out_at _ s = s

  -- `timeOut`
  unfoldable pub time_out : Station W → Station W
  unfolding actual_send change_state set_result is_ok
  time_out s = time_out_at (state_of s) s

  -- `funBusyEvent` where a command is answered: the same in both states.
  unfoldable pub busy_answer : Station W → Station W
  unfolding time_out change_state set_result
  busy_answer s =
      let s1 =
        lib.sleep s.rest.sender.fun_busy_interval
          (with_sender (dec_fun_busy_counter s.rest.sender) s) in
      if not (more_fun_busy_retry s.rest.sender)
      then finishes (of_code funbusy) s
      else lib.check_ipc (time_out (change_state funbusy_wait s1))

  -- `funBusyEvent` in each state.
  abbrev pub fun_busy_event_at : State → Station W → Station W
  fun_busy_event_at wait_imm_rsp s = busy_answer s
  fun_busy_event_at wait_imm_rsp_confirmed s = busy_answer s
  fun_busy_event_at _ s = s

  -- `funBusyEvent`
  unfoldable pub fun_busy_event : Station W → Station W
  unfolding busy_answer
  fun_busy_event s = fun_busy_event_at (state_of s) s

  -- `confirmCmd`
  unfoldable pub confirm_cmd : Station W → Station W
  unfolding change_state set_result
  confirm_cmd s =
      let (code, s1) = lib.confirm_command true s in
      if is_okay code then s1 else finishes (of_code confirm_fail) s1

  -- `confirmReqEvent` in each state.
  abbrev pub confirm_req_event_at : State → Station W → Station W
  confirm_req_event_at wait_imm_rsp s =
      if s.rest.sender.auto_confirm
      then confirm_cmd s
      else change_state confirm_pending (answers (of_code no_problem) s)
  confirm_req_event_at wait_imm_rsp_confirmed s = confirm_cmd s
  confirm_req_event_at _ s = s

  -- `confirmReqEvent`
  unfoldable pub confirm_req_event : Station W → Station W
  unfolding confirm_cmd change_state set_result
  confirm_req_event s = confirm_req_event_at (state_of s) s

  -- `getEsType`
  abbrev pub get_es_type : Station W → Text
  get_es_type s = if eqb_ℤ (lib.connection_status s) minus_one then [] else lib.es_type s

  -- `orderedEvent` where a command is answered.
  unfoldable pub ordered_answer : Station W → Station W
  unfolding log_off scan change_state set_result
  ordered_answer s =
      let (flushed, s1) = log_off s in
      if text_eq (get_es_type s) (codes "S12")
      then (if not s.rest.sender.report_is_on
          then waits_for_del
              (s1.buffer.rsp_ended && not ((scan (codes "LAST REPORT") s1.buffer).0 == 0)) s1
          else finishes (of_code no_problem) s)
      else if s.rest.sender.ordered_on
      then waits_for_del (flushed && s1.buffer.rsp_ended) s1
      else finishes (of_code no_problem) s

  -- `orderedEvent` in each state.
  abbrev pub ordered_event_at : State → Station W → Station W
  ordered_event_at wait_imm_rsp s = ordered_answer s
  ordered_event_at wait_imm_rsp_confirmed s = ordered_answer s
  ordered_event_at _ s = s

  -- `orderedEvent`
  unfoldable pub ordered_event : Station W → Station W
  unfolding ordered_answer
  ordered_event s = ordered_event_at (state_of s) s
