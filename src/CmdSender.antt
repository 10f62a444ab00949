-- ===== src/CmdSender.antt =====
-- ops-enm-parser/src/main/cpp/parse/OZT_CmdSender.C and OZT_CmdSender.H: the states of the command
-- sender and what it works on. The command sender and the connection of the parser library are
-- parameters, whose calls may change the whole station, since they may call the sender back.
pub mod Keys
pub mod Events
pub mod Calls
pub mod Commands
pub mod Connect
pub mod Awake
pub mod Retries
pub mod Shown
pub mod Attempts
pub mod Replies
use operations_procedure_sup.Common.{
  ℕ, Bool, true, false, not, List, [], Option, Text, codes, ◌||◌, if◌then◌else◌, ℤ, pos, ◌-ℤ◌,
  ltb_ℤ, eqb_ℤ,
}
use operations_procedure_sup.ErrHandling.{
  OztResult, ErrHandler, of_code, fresh, is_ok, no_problem, invalid_value,
}
use operations_procedure_sup.Tools.{Tools}
use operations_procedure_sup.Value.Convert.{Value, to_long}
use operations_procedure_sup.RspReceiver.{Desk, flush_stored_del_resp, flush_stored_spont_resp}

-- `OZT_CmdSender::State`
pub data State : Type 0 where
  idle connection_lost confirm_pending : State
  logging_on wait_imm_rsp wait_del_rsp : State
  funbusy_wait wait_imm_rsp_confirmed funbusy_wait_confirmed : State

-- `CHA_CommandSender::State`
pub data ChaState : Type 0 where
  cha_notcon cha_idle cha_waiting cha_confirm cha_receiving : ChaState

-- `CHA_CommandSender::ReturnCode`
pub data ReturnCode : Type 0 where
  ret_okay ret_busy ret_failed ret_noconnection ret_discon_failed : ReturnCode

-- `CHA_CommandSender::CmdResult`
pub data CmdResult : Type 0 where
  cmd_executed cmd_not_accepted cmd_partly_executed cmd_incomplete : CmdResult
  cmd_function_busy cmd_not_authorized cmd_unknown cmd_ordered : CmdResult

-- `OZT_CmdSender`, with the two defaults of the class, the flag that `updateOZTWaitDlRsp` sets, and
-- the commands and results written to the file of errors, the latest first.
pub record CmdSender : Type 0 where
  pub auto_confirm : Bool
  pub sender_state : State
  pub ordered_on : Bool
  pub report_is_on : Bool
  pub fun_busy_attempts : ℤ
  pub fun_busy_interval : ℤ
  pub fun_busy_counter : ℤ
  pub last_sent_cmd : Text
  pub ok_reply : Text
  pub fail_reply : Text
  pub interrupt_pending : Bool
  pub keys : List Text
  pub extra_fail_strings : List Text
  pub csl_exemptions_strings : List Text
  pub r_flag : Bool
  pub z_flag : Bool
  pub stored_file_name : Text
  pub cur_file : Text
  pub client_quit_flag : Bool
  pub default_fb_attempts : ℤ
  pub default_fb_interval : ℤ
  pub wait_dl_rsp : ℕ
  pub z_errors : List (Text × OztResult)

-- The rest of a desk: the sender, the error handler and the world.
pub record Post (W : Type 0) : Type 0 where
  pub sender : CmdSender
  pub errors : ErrHandler
  pub world : W

abbrev pub Station : Type 0 → Type 0
Station W = Desk (Post W)

-- What the sender calls outside of the repository's modelled files.
pub record Library (W : Type 0) : Type 0 where
  -- `pCmdSender->sendCommand(cmd, prompt)` and `confirmCommand(yes)`
  pub send_command : Text → Text → Station W → ReturnCode × Station W
  pub confirm_command : Bool → Station W → ReturnCode × Station W
  -- `pCmdSender->checkIPC()` and `sendLogoff()`
  pub check_ipc : Station W → Station W
  pub send_logoff : Station W → Station W
  -- `pCmdSender->getState()` and `getLastCmdResult()`
  pub cha_state : Station W → ChaState
  pub last_cmd_result : Station W → CmdResult
  -- `pPromptString->getPrompt()`, unless the pointer is null
  pub prompt : Station W → Option Text
  -- `sleep`
  pub sleep : ℤ → Station W → Station W
  -- `ozt_evHandlerPtr->waitResult()`
  pub wait_result : Station W → OztResult × Station W
  -- `cancelResponse()` of the three receivers
  pub cancel_imm : Station W → Station W
  pub cancel_del : Station W → Station W
  pub cancel_spont : Station W → Station W
  -- `pConnection`: `disconnect(FALSE)`, `reconnect(FALSE)`, `getConnectionStatus()`, `getEsType()`
  -- and `isRespEnded()`
  pub disconnect : Station W → Station W
  pub reconnect : Station W → Station W
  pub connection_status : Station W → ℤ
  pub es_type : Station W → Text
  pub resp_ended : Station W → Bool
  -- `!a.compareTo(b, RWCString::ignoreCase)`
  pub same_ignoring_case : Text → Text → Bool
  -- Whether the file of errors can be opened.
  pub opens : Text → Station W → Bool

abbrev pub state_of : {W : Type 0} → Station W → State
state_of s = s.rest.sender.sender_state

-- A change of the sender itself.
abbrev pub with_sender : {W : Type 0} → CmdSender → Station W → Station W
with_sender c s = record s { rest = record s.rest { sender = c } }

-- What `changeState` tells with `updateOZTWaitDlRsp`.
abbrev pub wait_flag : State → ℕ
wait_flag wait_del_rsp = 1
wait_flag _ = 0

-- `flushStoredResponses`
unfoldable pub flush_stored_responses : {W : Type 0} → Station W → Station W
unfolding flush_stored_spont_resp flush_stored_del_resp
flush_stored_responses s =
    let s1 = flush_stored_spont_resp s in
    if s.rest.sender.ordered_on then (flush_stored_del_resp s1).1 else s1

-- The end of `changeState`.
abbrev pub flushes_if_idle : {W : Type 0} → State → Station W → Station W
flushes_if_idle idle s = flush_stored_responses s
flushes_if_idle _ s = s

-- `changeState`
unfoldable pub change_state : {W : Type 0} → State → Station W → Station W
unfolding flush_stored_responses
change_state new_state s = flushes_if_idle new_state (
    with_sender
      (record s.rest.sender { sender_state = new_state; wait_dl_rsp = wait_flag new_state }) s)

-- `printState`
unfoldable pub print_state : State → Text
print_state idle = codes "IDLE"
print_state logging_on = codes "LOGGING_ON"
print_state wait_imm_rsp = codes "WAIT_IMM_RSP"
print_state wait_imm_rsp_confirmed = codes "WAIT_IMM_RSP_CONFIRMED"
print_state wait_del_rsp = codes "WAIT_DEL_RSP"
print_state funbusy_wait = codes "FUNBUSY_WAIT"
print_state funbusy_wait_confirmed = codes "FUNBUSY_WAIT_CONFIRMED"
print_state confirm_pending = codes "CONFIRM_PENDING"
print_state connection_lost = codes "CONNECTION_LOST"

-- `setOKReply` and `setFailReply`
unfoldable pub set_ok_reply : Text → CmdSender → CmdSender
set_ok_reply str c = record c { ok_reply = str }

unfoldable pub set_fail_reply : Text → CmdSender → CmdSender
set_fail_reply str c = record c { fail_reply = str }

-- `reportOn` and `reportOff`
unfoldable pub report_on : CmdSender → CmdSender
report_on c = record c { report_is_on = true }

unfoldable pub report_off : CmdSender → CmdSender
report_off c = record c { report_is_on = false }

-- `setR` and `clearR`
unfoldable pub set_r : CmdSender → CmdSender
set_r c = record c { r_flag = true }

unfoldable pub clear_r : CmdSender → CmdSender
clear_r c = record c { r_flag = false }

-- `clearZ`
unfoldable pub clear_z : CmdSender → CmdSender
clear_z c = record c { z_flag = false }

-- `clearScanStr`
abbrev pub clear_scan_str : CmdSender → CmdSender
clear_scan_str c = record c { keys = [] }

-- `resetFunBusyCounter`, `decFunBusyCounter` and `moreFunBusyRetry`
abbrev pub reset_fun_busy_counter : CmdSender → CmdSender
reset_fun_busy_counter c = record c { fun_busy_counter = c.fun_busy_attempts }

abbrev pub dec_fun_busy_counter : CmdSender → CmdSender
dec_fun_busy_counter c = record c { fun_busy_counter = c.fun_busy_counter -ℤ pos 1 }

abbrev pub more_fun_busy_retry : CmdSender → Bool
more_fun_busy_retry c = ltb_ℤ (pos 0) c.fun_busy_counter

-- The end of `setFunBusyParam`, with the two numbers.
abbrev pub set_attempts : ℤ → ℤ → CmdSender → CmdSender
set_attempts retry interval c =
    let attempts = if eqb_ℤ retry (pos 0) then c.default_fb_attempts else retry in
    record c {
      fun_busy_attempts = attempts;
      fun_busy_counter = attempts;
      fun_busy_interval = if eqb_ℤ interval (pos 0) then pos 1 else interval;
    }

-- `setFunBusyParam`. The default interval is set and overwritten at once.
unfoldable pub set_fun_busy_param : Tools → Value → Value → CmdSender → OztResult × CmdSender
unfolding to_long is_ok
set_fun_busy_param t retry interval c =
    let (retry_val, result) = to_long t retry fresh in
    let (interval_val, result1) = to_long t interval result in
    if not (is_ok result.code) || ltb_ℤ retry_val (pos 0)
    then (of_code invalid_value, c)
    else if not (is_ok result1.code) || ltb_ℤ interval_val (pos 0)
    then (of_code invalid_value, c)
    else (of_code no_problem, set_attempts retry_val interval_val c)
