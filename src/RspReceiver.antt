-- ===== src/RspReceiver.antt =====
-- ops-enm-parser/src/main/cpp/parse/OZT_RspReceiver.C: the receiver of immediate, delayed and
-- spontaneous responses, which holds back the last two while a command is answered.
pub mod Texts
pub mod Kept
use operations_procedure_sup.Common.{
  Bool, true, false, not, ◌&&◌, ◌||◌, [], ◌++◌, Text, codes, if◌then◌else◌,
}
use operations_procedure_sup.ErrHandling.{OztResult, of_code, is_ok, no_problem, interrupted}
use operations_procedure_sup.CmdRspBuf.{CmdRspBuf, append, mark_end_of_rsp}
use operations_procedure_sup.EventHandler.{EventHandler, set_result}
use operations_procedure_sup.RspCatcher.{is_null}

-- `OZT_RspReceiver`
pub record RspReceiver : Type 0 where
  pub receiving_del_rsp : Bool
  pub receiving_spont_rsp : Bool
  pub logging_on : Bool
  pub trying_to_log_on : Bool
  pub a_complete_rsp_stored : Bool
  pub stored_del_rsp : Text
  pub stored_spont_rsp : Text

-- `OZT_RspReceiver(buf, imm, del, spont)`
abbrev pub new_rsp_receiver : RspReceiver
new_rsp_receiver = record {
  receiving_del_rsp = false;
  receiving_spont_rsp = false;
  logging_on = true;
  trying_to_log_on = false;
  a_complete_rsp_stored = false;
  stored_del_rsp = [];
  stored_spont_rsp = [];
}

-- `OZT_RspReceiver(buf, imm, del, spont, loggingOn)`
abbrev pub rsp_receiver_with : Bool → RspReceiver
rsp_receiver_with logging_on = record {
  receiving_del_rsp = false;
  receiving_spont_rsp = false;
  logging_on = logging_on;
  trying_to_log_on = false;
  a_complete_rsp_stored = false;
  stored_del_rsp = codes "OKAY";
  stored_spont_rsp = [];
}

-- The receiver with what it works on: the buffer, the event handler and the rest of the world.
pub record Desk (W : Type 0) : Type 0 where
  pub receiver : RspReceiver
  pub buffer : CmdRspBuf
  pub handler : EventHandler
  pub rest : W

-- Neither a delayed nor a spontaneous response is half received.
abbrev pub is_between : RspReceiver → Bool
is_between r = not r.receiving_spont_rsp && not r.receiving_del_rsp

-- What `logOn` does before it waits, if it does.
unfoldable pub log_on_asked : {W : Type 0} → Desk W → Desk W
log_on_asked d =
    if d.receiver.logging_on
    then d
    else if is_between d.receiver
    then record d { receiver = record d.receiver { logging_on = true } }
    else record d { receiver = record d.receiver { trying_to_log_on = true } }

-- What `logOn` does with the result that it has waited for.
unfoldable pub log_on_answered : {W : Type 0} → OztResult → Desk W → Desk W
unfolding is_ok
log_on_answered result d = record d {
  receiver = record d.receiver {
    logging_on = is_ok result.code || d.receiver.logging_on;
    trying_to_log_on = false;
  };
}

-- `logOn`, with `waitResult` as a parameter.
unfoldable pub log_on : {W : Type 0} → (Desk W → OztResult × Desk W) → Desk W → OztResult × Desk W
unfolding log_on_asked log_on_answered
log_on wait d =
    let (result, d1) = wait (log_on_asked d) in
    if d.receiver.logging_on || is_between d.receiver
    then (of_code no_problem, log_on_asked d)
    else (result, log_on_answered result d1)

-- `flushStoredDelResp`
unfoldable pub flush_stored_del_resp : {W : Type 0} → Desk W → Bool × Desk W
unfolding append
flush_stored_del_resp d = if is_null d.receiver.stored_del_rsp then (false, d) else (
  true,
  record d {
    buffer = append d.receiver.stored_del_rsp false d.buffer;
    receiver = record d.receiver { stored_del_rsp = [] };
  },
)

-- `flushStoredSpontResp`
unfoldable pub flush_stored_spont_resp : {W : Type 0} → Desk W → Desk W
unfolding append
flush_stored_spont_resp d = if is_null d.receiver.stored_spont_rsp then d else record d {
  buffer = append d.receiver.stored_spont_rsp false d.buffer;
  receiver = record d.receiver { stored_spont_rsp = [] };
}

-- The end of `logOff`: a complete response that was held back is told, and held back no more.
unfoldable pub ends_stored : {W : Type 0} → Desk W → Desk W
unfolding mark_end_of_rsp
ends_stored d = record d {
  buffer = if d.receiver.a_complete_rsp_stored then mark_end_of_rsp d.buffer else d.buffer;
  receiver = record d.receiver { a_complete_rsp_stored = false; logging_on = false };
}

-- `logOff`
unfoldable pub log_off : {W : Type 0} → Desk W → Bool × Desk W
unfolding flush_stored_spont_resp flush_stored_del_resp ends_stored
log_off d =
    let (flushed, d1) = flush_stored_del_resp (flush_stored_spont_resp d) in
    if not d.receiver.logging_on then (false, d) else (flushed, ends_stored d1)

-- `updateFromImmReceiver`, with the text in the buffer of the receiver.
unfoldable pub update_from_imm_receiver : {W : Type 0} → Text → Desk W → Desk W
unfolding append
update_from_imm_receiver text d = record d { buffer = append text false d.buffer }

-- The end of a response that is not held back: `logOn` may have waited for it.
abbrev pub ends_rsp : {W : Type 0} → Bool → Desk W → Desk W
ends_rsp other d = record d {
  buffer = mark_end_of_rsp d.buffer;
  handler =
      if d.receiver.trying_to_log_on && not other
      then set_result (of_code no_problem) d.handler
      else d.handler;
}

-- `updateFromDelReceiver`, with the text in the buffer of the receiver, and whether it is complete.
unfoldable pub update_from_del_receiver : {W : Type 0} → Text → Bool → Desk W → Desk W
unfolding append mark_end_of_rsp set_result
update_from_del_receiver text complete d =
    let r = d.receiver in
    let shown = record d {
      buffer = append text false d.buffer;
      receiver = record r { receiving_del_rsp = not complete };
    } in
    if r.logging_on
    then record d {
      receiver = record r {
        stored_del_rsp = r.stored_del_rsp ++ text;
        a_complete_rsp_stored = complete || r.a_complete_rsp_stored;
        receiving_del_rsp = not complete;
      };
    }
    else if complete
    then ends_rsp r.receiving_spont_rsp shown
    else shown

-- `updateFromSpontReceiver`
unfoldable pub update_from_spont_receiver : {W : Type 0} → Text → Bool → Desk W → Desk W
unfolding append mark_end_of_rsp set_result
update_from_spont_receiver text complete d =
    let r = d.receiver in
    let shown = record d {
      buffer = append text false d.buffer;
      receiver = record r { receiving_spont_rsp = not complete };
    } in
    if r.logging_on
    then record d {
      receiver = record r {
        stored_spont_rsp = r.stored_spont_rsp ++ text;
        a_complete_rsp_stored = complete || r.a_complete_rsp_stored;
        receiving_spont_rsp = not complete;
      };
    }
    else if complete
    then ends_rsp r.receiving_del_rsp shown
    else shown

-- `interrupt`, with `cancelResponse` of the two receivers as parameters.
unfoldable pub interrupt : {W : Type 0} → (Desk W → Desk W) → (Desk W → Desk W) → Desk W → Desk W
unfolding set_result
interrupt cancel_del cancel_spont d =
    let d1 = if d.receiver.receiving_del_rsp then cancel_del d else d in
    let d2 = if d1.receiver.receiving_spont_rsp then cancel_spont d1 else d1 in
    if d.receiver.trying_to_log_on
    then record d2 { handler = set_result (of_code interrupted) d2.handler }
    else d
