-- ===== src/CmdSender/Awake/Events.antt =====
-- A sender that has stopped waiting has answered: no event loses the call that ends `waitResult`.
use operations_procedure_sup.Common.{
  ℕ, Bool, false, not, ◌≡◌, refl, ap, if◌then◌else◌, List, [], ◌∷◌, ◌&&◌,
}
use operations_procedure_sup.EventHandler.{set_result}
use operations_procedure_sup.RspReceiver
use operations_procedure_sup.CmdSender.{
  State, idle, connection_lost, confirm_pending, logging_on, wait_imm_rsp, wait_del_rsp,
  funbusy_wait, wait_imm_rsp_confirmed, funbusy_wait_confirmed, CmdResult, Station, Library,
  state_of,
}
use operations_procedure_sup.CmdSender.Events.{time_out}
use operations_procedure_sup.CmdSender.Calls.{
  lose_connection_event_at, answered_at, update_from_cmd_sender_at, update_from_del_receiver_at,
  interrupt_at, timer_off, lose_connection_event, answered, update_from_cmd_sender,
  update_from_del_receiver, interrupt, interrupt_at_dr, breaks_off, asks_to_stop,
  is_cluster_lock_response, is_exempt, append_csl_func_busy_to_buffer,
}
use operations_procedure_sup.CmdSender.{
  ChaState, cha_notcon, cha_idle, cha_waiting, cha_confirm, cha_receiving, cmd_executed,
  cmd_not_accepted, cmd_partly_executed, cmd_incomplete, cmd_function_busy, cmd_not_authorized,
  cmd_unknown, cmd_ordered,
}
use operations_procedure_sup.CmdSender.Awake.{
  is_waiting, IsAwake, IsGentle, by_rest, by_answer, either, IsAwake-refl, IsAwake-trans,
  answers-IsAwake, finishes-IsAwake, same_post, keeps_answer,
}
use operations_procedure_sup.CmdSender.Awake.Answers.{
  time_out-IsAwake, fun_busy_event-IsAwake, confirm_req_event-IsAwake, ordered_event-IsAwake,
}

module _ {W : Type 0} (lib : Library W) (gentle : IsGentle lib) where
  lose_connection_event_at-IsAwake :
      (x : State) (this : ℕ) (s : Station W)
      → state_of s ≡ x
      → IsAwake s (lose_connection_event_at lib x this s)
  lose_connection_event_at-IsAwake idle this s e =
      by_rest s _ (keeps_answer connection_lost s s (IsAwake-refl s)) (ap is_waiting e)
  lose_connection_event_at-IsAwake confirm_pending this s e =
      by_rest s _ (keeps_answer connection_lost s s (IsAwake-refl s)) (ap is_waiting e)
  lose_connection_event_at-IsAwake logging_on this s e = IsAwake-refl s
  lose_connection_event_at-IsAwake connection_lost this s e = IsAwake-refl s
  lose_connection_event_at-IsAwake wait_del_rsp this s e = answers-IsAwake _ _ s s
  lose_connection_event_at-IsAwake wait_imm_rsp this s e = answers-IsAwake _ _ s s
  lose_connection_event_at-IsAwake wait_imm_rsp_confirmed this s e = answers-IsAwake _ _ s s
  lose_connection_event_at-IsAwake funbusy_wait this s e = answers-IsAwake _ _ s (timer_off this s)
  lose_connection_event_at-IsAwake funbusy_wait_confirmed this s e =
      answers-IsAwake _ _ s (timer_off this s)

  lose_connection_event-IsAwake :
      (this : ℕ) (s : Station W) → IsAwake s (lose_connection_event lib this s)
  unfolding lose_connection_event
  lose_connection_event-IsAwake this s = lose_connection_event_at-IsAwake (state_of s) this s refl

  answered-IsAwake : (r : CmdResult) (s : Station W) → IsAwake s (answered lib r s)
  unfolding answered
  answered-IsAwake cmd_executed s =
      let s1 = record s { buffer = append_csl_func_busy_to_buffer s.buffer } in
      let c = s.rest.sender in
      either (IsAwake s) (not (is_cluster_lock_response s.buffer)) (λ e. finishes-IsAwake _ s s)
        (λ e.
          either (IsAwake s) (is_exempt lib c.csl_exemptions_strings c.last_sent_cmd)
            (λ e. finishes-IsAwake _ s s)
            (λ e.
              IsAwake-trans s s1 _ (same_post s s1 refl refl)
                (fun_busy_event-IsAwake lib gentle s1)))
  answered-IsAwake cmd_unknown s = finishes-IsAwake _ s s
  answered-IsAwake cmd_ordered s = ordered_event-IsAwake lib gentle s
  answered-IsAwake cmd_not_accepted s = finishes-IsAwake _ s s
  answered-IsAwake cmd_not_authorized s = finishes-IsAwake _ s s
  answered-IsAwake cmd_partly_executed s = finishes-IsAwake _ s s
  answered-IsAwake cmd_incomplete s = finishes-IsAwake _ s s
  answered-IsAwake cmd_function_busy s = fun_busy_event-IsAwake lib gentle s

  update_from_cmd_sender-IsAwake :
      (this : ℕ) (s : Station W) → IsAwake s (update_from_cmd_sender lib this s)
  unfolding update_from_cmd_sender
  update_from_cmd_sender-IsAwake this s = at (lib.cha_state s)
    where
      idle_at : (x : State) → IsAwake s (answered_at lib x s)
      idle_at wait_imm_rsp = answered-IsAwake (lib.last_cmd_result s) s
      idle_at wait_imm_rsp_confirmed = answered-IsAwake (lib.last_cmd_result s) s
      idle_at idle = IsAwake-refl s
      idle_at connection_lost = IsAwake-refl s
      idle_at confirm_pending = IsAwake-refl s
      idle_at logging_on = IsAwake-refl s
      idle_at wait_del_rsp = IsAwake-refl s
      idle_at funbusy_wait = IsAwake-refl s
      idle_at funbusy_wait_confirmed = IsAwake-refl s

      at : (x : ChaState) → IsAwake s (update_from_cmd_sender_at lib x this s)
      at cha_confirm = confirm_req_event-IsAwake lib gentle s
      at cha_idle = idle_at (state_of s)
      at cha_notcon = lose_connection_event-IsAwake this s
      at cha_waiting = IsAwake-refl s
      at cha_receiving = IsAwake-refl s

  update_from_del_receiver-IsAwake :
      (complete last : Bool) (s : Station W) → IsAwake s (update_from_del_receiver complete last s)
  unfolding update_from_del_receiver
  update_from_del_receiver-IsAwake complete last s = at (state_of s)
    where
      at : (x : State) → IsAwake s (update_from_del_receiver_at x complete last s)
      at wait_del_rsp =
          either (IsAwake s) (not complete) (λ e. IsAwake-refl s)
            (λ e.
              either (IsAwake s) (not s.rest.sender.report_is_on && not last) (λ e. IsAwake-refl s)
                (λ e. finishes-IsAwake _ s s))
      at idle = IsAwake-refl s
      at connection_lost = IsAwake-refl s
      at confirm_pending = IsAwake-refl s
      at logging_on = IsAwake-refl s
      at wait_imm_rsp = IsAwake-refl s
      at funbusy_wait = IsAwake-refl s
      at wait_imm_rsp_confirmed = IsAwake-refl s
      at funbusy_wait_confirmed = IsAwake-refl s

  -- The interrupt of the receiver that waits for its log on.
  receiver_interrupt-IsAwake :
      (s : Station W) → IsAwake s (RspReceiver.interrupt lib.cancel_del lib.cancel_spont s)
  unfolding RspReceiver.interrupt set_result
  receiver_interrupt-IsAwake s =
      either (IsAwake s) s.receiver.trying_to_log_on (λ e. by_answer s _ refl) (λ e. IsAwake-refl s)

  immediate_interrupt-IsAwake :
      (s : Station W)
      → IsAwake s (if s.rest.sender.interrupt_pending then breaks_off lib s else asks_to_stop lib s)
  immediate_interrupt-IsAwake s =
      let s1 = lib.cancel_imm s in
      either (IsAwake s) s.rest.sender.interrupt_pending (λ e. finishes-IsAwake _ s _)
        (λ e. IsAwake-trans s s1 _ (gentle.4 s) (same_post s1 _ refl refl))

  interrupt_at-IsAwake :
      (x : State) (this : ℕ) (s : Station W)
      → state_of s ≡ x
      → IsAwake s (interrupt_at lib x this s)
  interrupt_at-IsAwake logging_on this s e = receiver_interrupt-IsAwake s
  interrupt_at-IsAwake wait_imm_rsp this s e = immediate_interrupt-IsAwake s
  interrupt_at-IsAwake wait_imm_rsp_confirmed this s e = immediate_interrupt-IsAwake s
  interrupt_at-IsAwake wait_del_rsp this s e = finishes-IsAwake _ s (lib.cancel_del s)
  interrupt_at-IsAwake funbusy_wait this s e = finishes-IsAwake _ s (timer_off this s)
  interrupt_at-IsAwake funbusy_wait_confirmed this s e = finishes-IsAwake _ s (timer_off this s)
  interrupt_at-IsAwake confirm_pending this s e =
      by_rest s _ (keeps_answer idle s (lib.confirm_command false s).1 (gentle.1 false s))
        (ap is_waiting e)
  interrupt_at-IsAwake idle this s e = IsAwake-refl s
  interrupt_at-IsAwake connection_lost this s e = IsAwake-refl s

-- The library calls the sender back, the time is over, or the user interrupts.
pub data Event : Type 0 where
  of_cmd_sender time_over of_user at_dr : Event
  of_del_receiver : Bool → Bool → Event

abbrev pub happens : {W : Type 0} → Library W → ℕ → Event → Station W → Station W
happens lib this of_cmd_sender s = update_from_cmd_sender lib this s
happens lib this time_over s = time_out lib s
happens lib this of_user s = interrupt lib this s
happens lib this at_dr s = interrupt_at_dr lib s
happens lib this (of_del_receiver complete last) s = update_from_del_receiver complete last s

abbrev pub happen : {W : Type 0} → Library W → ℕ → List Event → Station W → Station W
happen lib this [] s = s
happen lib this (e ∷ es) s = happen lib this es (happens lib this e s)

happens-IsAwake :
    {W : Type 0} (lib : Library W) (this : ℕ) (e : Event) (s : Station W)
    → IsGentle lib
    → IsAwake s (happens lib this e s)
unfolding interrupt interrupt_at_dr
happens-IsAwake lib this of_cmd_sender s gentle = update_from_cmd_sender-IsAwake lib gentle this s
happens-IsAwake lib this time_over s gentle = time_out-IsAwake lib gentle s
happens-IsAwake lib this of_user s gentle = interrupt_at-IsAwake lib gentle (state_of s) this s refl
happens-IsAwake lib this at_dr s gentle = finishes-IsAwake _ s (lib.cancel_del s)
happens-IsAwake lib this (of_del_receiver complete last) s gentle =
    update_from_del_receiver-IsAwake lib gentle complete last s

-- No wake-up is lost: whatever the library calls back and the user interrupts, in any order, the
-- call that ends `waitResult` is not taken back, and a sender in a state in which it waits either
-- waits on, or has made that call; if the library's own calls, which may call the sender back,
-- behave so.
pub happen-IsAwake :
    {W : Type 0} (lib : Library W) (this : ℕ) (es : List Event) (s : Station W)
    → IsGentle lib
    → IsAwake s (happen lib this es s)
happen-IsAwake lib this [] s gentle = IsAwake-refl s
happen-IsAwake lib this (e ∷ es) s gentle =
    let s1 = happens lib this e s in
    IsAwake-trans s s1 _ (happens-IsAwake lib this e s gentle)
      (happen-IsAwake lib this es s1 gentle)
