-- ===== src/CmdSender/Calls.antt =====
-- OZT_CmdSender.C: what the sender does when the library calls it back and when the user interrupts.
use operations_procedure_sup.Common.{
  ℕ, Bool, true, false, not, ◌&&◌, ◌||◌, List, [], ◌∷◌, Text, codes, ◌==◌, ◌-◌, ◌+◌, ◌%◌,
  if◌then◌else◌,
}
use operations_procedure_sup.ErrHandling.{
  of_code, no_problem, send_failed, not_accepted, not_authorized, partly_executed,
  incomplete_command, connection_lost, interrupted, delay_response_not_received,
}
use operations_procedure_sup.EventHandler.{set_result, unset_timer}
use operations_procedure_sup.CmdRspBuf.{append, scan_from, store_size, CmdRspBuf}
use operations_procedure_sup.RspReceiver.{log_off}
use operations_procedure_sup.RspReceiver
use operations_procedure_sup.CmdRspBuf.Search.{word_size}
use operations_procedure_sup.CmdSender.{
  State, idle, confirm_pending, logging_on, wait_imm_rsp, wait_del_rsp, funbusy_wait,
  wait_imm_rsp_confirmed, funbusy_wait_confirmed, ChaState, cha_notcon, cha_idle, cha_waiting,
  cha_confirm, cha_receiving, CmdResult, cmd_executed, cmd_not_accepted, cmd_partly_executed,
  cmd_incomplete, cmd_function_busy, cmd_not_authorized, cmd_unknown, cmd_ordered, CmdSender,
  Station, Library, state_of, with_sender, change_state,
}
use operations_procedure_sup.CmdSender.Events.{
  answers, finishes, fun_busy_event, confirm_req_event, ordered_event,
}

-- `appendCslFuncBusyToBuffer`
unfoldable pub append_csl_func_busy_to_buffer : CmdRspBuf → CmdRspBuf
unfolding append
append_csl_func_busy_to_buffer b =
    append (codes "FUNCTION BUSY - SESSION LOCKED\n") false
      (append (codes "NOT ACCEPTED\n") false b)

-- `isClusterLockResponse`
unfoldable pub is_cluster_lock_response : CmdRspBuf → Bool
unfolding scan_from
is_cluster_lock_response b =
    let start = store_size b - 3 in
    let pos1 = (scan_from (codes "SESSION LOCKED DURING") start b).0 in
    let pos2 =
      (scan_from (codes "YOU MAY NOW ENTER: APLOC, PTCOI, PTCOE OR EXIT COMMAND") start b).0 in
    if pos1 == 0 || pos2 == 0
    then false
    else pos2 == (pos1 + 1) % word_size || pos2 == (pos1 + 2) % word_size

-- `loseConnectionEvent` where somebody waits for a result.
abbrev pub loses : {W : Type 0} → Station W → Station W
loses s = change_state State.connection_lost (answers (of_code connection_lost) s)

-- `unsetTimer`
abbrev pub timer_off : {W : Type 0} → ℕ → Station W → Station W
timer_off this s = record s { handler = unset_timer this s.handler }

-- `updateFromDelReceiver` in each state.
abbrev pub update_from_del_receiver_at : {W : Type 0} → State → Bool → Bool → Station W → Station W
update_from_del_receiver_at wait_del_rsp complete last s =
    if not complete
    then s
    else if not s.rest.sender.report_is_on && not last
    then s
    else finishes (of_code no_problem) s
update_from_del_receiver_at _ complete last s = s

-- `updateFromDelReceiver`, with `isCompleteResponse` and `isLastInSequence` of the receiver.
unfoldable pub update_from_del_receiver : {W : Type 0} → Bool → Bool → Station W → Station W
unfolding change_state set_result
update_from_del_receiver complete last s = update_from_del_receiver_at (state_of s) complete last s

module _ {W : Type 0} (lib : Library W) where
  -- `loseConnectionEvent` in each state.
  abbrev pub lose_connection_event_at : State → ℕ → Station W → Station W
  lose_connection_event_at idle this s = change_state State.connection_lost s
  lose_connection_event_at logging_on this s = s
  lose_connection_event_at confirm_pending this s = change_state State.connection_lost s
  lose_connection_event_at wait_del_rsp this s = loses s
  lose_connection_event_at wait_imm_rsp this s = loses s
  lose_connection_event_at wait_imm_rsp_confirmed this s = loses s
  lose_connection_event_at funbusy_wait this s = loses (timer_off this s)
  lose_connection_event_at funbusy_wait_confirmed this s = loses (timer_off this s)
  lose_connection_event_at State.connection_lost this s = s

  -- `loseConnectionEvent`, with the address of the sender.
  unfoldable pub lose_connection_event : ℕ → Station W → Station W
  unfolding change_state set_result unset_timer
  lose_connection_event this s = lose_connection_event_at (state_of s) this s

  -- `isCommandCslExemption`
  abbrev pub is_exempt : List Text → Text → Bool
  is_exempt [] cmd = false
  is_exempt (e ∷ es) cmd = lib.same_ignoring_case e cmd || is_exempt es cmd

  -- What `updateFromCmdSender` does with an answer to a command.
  unfoldable pub answered : CmdResult → Station W → Station W
  unfolding change_state set_result fun_busy_event ordered_event is_cluster_lock_response
      append_csl_func_busy_to_buffer
  answered cmd_executed s =
      if not (is_cluster_lock_response s.buffer)
      then finishes (of_code no_problem) s
      else if is_exempt s.rest.sender.csl_exemptions_strings s.rest.sender.last_sent_cmd
      then finishes (of_code no_problem) s
      else fun_busy_event lib (record s { buffer = append_csl_func_busy_to_buffer s.buffer })
  answered cmd_unknown s = finishes (of_code send_failed) s
  answered cmd_ordered s = ordered_event lib s
  answered cmd_not_accepted s = finishes (of_code not_accepted) s
  answered cmd_not_authorized s = finishes (of_code not_authorized) s
  answered cmd_partly_executed s = finishes (of_code partly_executed) s
  answered cmd_incomplete s = finishes (of_code incomplete_command) s
  answered cmd_function_busy s = fun_busy_event lib s

  -- `updateFromCmdSender` with a command sender that is idle, in each state.
  abbrev pub answered_at : State → Station W → Station W
  answered_at wait_imm_rsp s = answered (lib.last_cmd_result s) s
  answered_at wait_imm_rsp_confirmed s = answered (lib.last_cmd_result s) s
  answered_at _ s = s

  -- `updateFromCmdSender` in each state of the command sender of the library.
  abbrev pub update_from_cmd_sender_at : ChaState → ℕ → Station W → Station W
  update_from_cmd_sender_at cha_confirm this s = confirm_req_event lib s
  update_from_cmd_sender_at cha_idle this s = answered_at (state_of s) s
  update_from_cmd_sender_at cha_notcon this s = lose_connection_event this s
  update_from_cmd_sender_at cha_waiting this s = s
  update_from_cmd_sender_at cha_receiving this s = s

  -- `updateFromCmdSender`, with the address of the sender.
  unfoldable pub update_from_cmd_sender : ℕ → Station W → Station W
  unfolding answered confirm_req_event lose_connection_event
  update_from_cmd_sender this s = update_from_cmd_sender_at (lib.cha_state s) this s

  -- The second interrupt of a user who waits for an immediate response.
  abbrev pub breaks_off : Station W → Station W
  breaks_off s = finishes (of_code interrupted) (
      if s.rest.sender.client_quit_flag
      then s
      else lib.reconnect (lib.disconnect (lib.cancel_imm s)))

  -- The first one.
  abbrev pub asks_to_stop : Station W → Station W
  asks_to_stop s =
      let s1 = lib.cancel_imm s in
      with_sender (record s1.rest.sender { interrupt_pending = true }) s1

  -- `interrupt` in each state.
  abbrev pub interrupt_at : State → ℕ → Station W → Station W
  interrupt_at logging_on this s = RspReceiver.interrupt lib.cancel_del lib.cancel_spont s
  interrupt_at wait_imm_rsp this s =
      if s.rest.sender.interrupt_pending then breaks_off s else asks_to_stop s
  interrupt_at wait_imm_rsp_confirmed this s =
      if s.rest.sender.interrupt_pending then breaks_off s else asks_to_stop s
  interrupt_at wait_del_rsp this s = finishes (of_code no_problem) (lib.cancel_del s)
  interrupt_at funbusy_wait this s = finishes (of_code interrupted) (timer_off this s)
  interrupt_at funbusy_wait_confirmed this s = finishes (of_code interrupted) (timer_off this s)
  interrupt_at confirm_pending this s = change_state idle (lib.confirm_command false s).1
  interrupt_at _ this s = s

  -- `interrupt`, with the address of the sender.
  unfoldable pub interrupt : ℕ → Station W → Station W
  unfolding change_state set_result unset_timer RspReceiver.interrupt
  interrupt this s = interrupt_at (state_of s) this s

  -- `interruptAtDr`
  unfoldable pub interrupt_at_dr : Station W → Station W
  unfolding change_state set_result
  interrupt_at_dr s = finishes (of_code delay_response_not_received) (lib.cancel_del s)

-- `totalInterrupt`
unfoldable pub total_interrupt : CmdSender → CmdSender
total_interrupt c = record c { client_quit_flag = true }

-- `setIdle`
abbrev pub set_idle : {W : Type 0} → Station W → Station W
set_idle s = change_state idle s
