-- ===== src/CmdSender/Awake/Answers.antt =====
-- The answers to a command keep the sender awake.
use operations_procedure_sup.Common.{Bool, true, not, ◌≡◌, refl, codes, text_eq}
use operations_procedure_sup.ErrHandling.{of_code, is_ok, confirm_fail, no_problem}
use operations_procedure_sup.RspReceiver.{log_off}
use operations_procedure_sup.CmdSender.{
  State, idle, connection_lost, confirm_pending, logging_on, wait_imm_rsp, wait_del_rsp,
  funbusy_wait, wait_imm_rsp_confirmed, funbusy_wait_confirmed, Station, Library, state_of,
  with_sender, change_state, more_fun_busy_retry, dec_fun_busy_counter,
}
use operations_procedure_sup.CmdSender.Events.{
  actual_send, resends, time_out, time_out_at, fun_busy_event_at, confirm_req_event_at,
  ordered_event_at, busy_answer, fun_busy_event, confirm_cmd, confirm_req_event, ordered_answer,
  ordered_event, is_okay, waits_for_del, get_es_type,
}
use operations_procedure_sup.CmdSender.Awake.{
  is_waiting, IsAwake, IsGentle, either, IsAwake-refl, IsAwake-trans, answers-IsAwake,
  finishes-IsAwake, change_state-IsAwake, same_post, log_off-IsAwake,
}

module _ {W : Type 0} (lib : Library W) (gentle : IsGentle lib) where
  resends-IsAwake : (x : State) (s : Station W) → is_waiting x ≡ true → IsAwake s (resends lib x s)
  unfolding actual_send
  resends-IsAwake x s e =
      let s1 = (actual_send lib s.rest.sender.last_sent_cmd s).1 in
      let sent = gentle.0 s.rest.sender.last_sent_cmd _ s in
      either (IsAwake s) (is_ok (actual_send lib s.rest.sender.last_sent_cmd s).0.code)
        (λ o. IsAwake-trans s s1 _ sent (change_state-IsAwake x s1 e))
        (λ o. finishes-IsAwake _ s s1)

  time_out_at-IsAwake : (x : State) (s : Station W) → IsAwake s (time_out_at lib x s)
  time_out_at-IsAwake funbusy_wait s = resends-IsAwake wait_imm_rsp s refl
  time_out_at-IsAwake funbusy_wait_confirmed s = resends-IsAwake wait_imm_rsp_confirmed s refl
  time_out_at-IsAwake idle s = IsAwake-refl s
  time_out_at-IsAwake connection_lost s = IsAwake-refl s
  time_out_at-IsAwake confirm_pending s = IsAwake-refl s
  time_out_at-IsAwake logging_on s = IsAwake-refl s
  time_out_at-IsAwake wait_imm_rsp s = IsAwake-refl s
  time_out_at-IsAwake wait_del_rsp s = IsAwake-refl s
  time_out_at-IsAwake wait_imm_rsp_confirmed s = IsAwake-refl s

  pub time_out-IsAwake : (s : Station W) → IsAwake s (time_out lib s)
  unfolding time_out
  time_out-IsAwake s = time_out_at-IsAwake (state_of s) s

  busy_answer-IsAwake : (s : Station W) → IsAwake s (busy_answer lib s)
  unfolding busy_answer
  busy_answer-IsAwake s =
      let s1 = with_sender (dec_fun_busy_counter s.rest.sender) s in
      let s2 = lib.sleep s.rest.sender.fun_busy_interval s1 in
      let s3 = change_state funbusy_wait s2 in
      let s4 = time_out lib s3 in
      either (IsAwake s) (not (more_fun_busy_retry s.rest.sender)) (λ e. finishes-IsAwake _ s s)
        (λ e. IsAwake-trans s s1 _ (same_post s s1 refl refl) (
          IsAwake-trans s1 s2 _ (gentle.3 s.rest.sender.fun_busy_interval s1) (
            IsAwake-trans s2 s3 _ (change_state-IsAwake funbusy_wait s2 refl)
              (IsAwake-trans s3 s4 _ (time_out-IsAwake s3) (gentle.2 s4)))))

  pub fun_busy_event-IsAwake : (s : Station W) → IsAwake s (fun_busy_event lib s)
  unfolding fun_busy_event
  fun_busy_event-IsAwake s = at (state_of s)
    where
      at : (x : State) → IsAwake s (fun_busy_event_at lib x s)
      at wait_imm_rsp = busy_answer-IsAwake s
      at wait_imm_rsp_confirmed = busy_answer-IsAwake s
      at idle = IsAwake-refl s
      at connection_lost = IsAwake-refl s
      at confirm_pending = IsAwake-refl s
      at logging_on = IsAwake-refl s
      at wait_del_rsp = IsAwake-refl s
      at funbusy_wait = IsAwake-refl s
      at funbusy_wait_confirmed = IsAwake-refl s

  confirm_cmd-IsAwake : (s : Station W) → IsAwake s (confirm_cmd lib s)
  unfolding confirm_cmd
  confirm_cmd-IsAwake s =
      either (IsAwake s) (is_okay (lib.confirm_command true s).0) (λ e. gentle.1 true s)
        (λ e. finishes-IsAwake (of_code confirm_fail) s (lib.confirm_command true s).1)

  pub confirm_req_event-IsAwake : (s : Station W) → IsAwake s (confirm_req_event lib s)
  unfolding confirm_req_event
  confirm_req_event-IsAwake s = at (state_of s)
    where
      at : (x : State) → IsAwake s (confirm_req_event_at lib x s)
      at wait_imm_rsp =
          either (IsAwake s) s.rest.sender.auto_confirm (λ e. confirm_cmd-IsAwake s)
            (λ e. answers-IsAwake (of_code no_problem) confirm_pending s s)
      at wait_imm_rsp_confirmed = confirm_cmd-IsAwake s
      at idle = IsAwake-refl s
      at connection_lost = IsAwake-refl s
      at confirm_pending = IsAwake-refl s
      at logging_on = IsAwake-refl s
      at wait_del_rsp = IsAwake-refl s
      at funbusy_wait = IsAwake-refl s
      at funbusy_wait_confirmed = IsAwake-refl s

  waits_for_del-IsAwake : (here : Bool) (s : Station W) → IsAwake s (waits_for_del here s)
  waits_for_del-IsAwake here s =
      either (IsAwake s) here (λ e. finishes-IsAwake _ s s)
        (λ e. change_state-IsAwake wait_del_rsp s refl)

  ordered_answer-IsAwake : (s : Station W) → IsAwake s (ordered_answer lib s)
  unfolding ordered_answer
  ordered_answer-IsAwake s =
      let s1 = (log_off s).1 in
      let off : (here : Bool) → IsAwake s (waits_for_del here s1) =
        λ here. IsAwake-trans s s1 _ (log_off-IsAwake s) (waits_for_del-IsAwake here s1) in
      either (IsAwake s) (text_eq (get_es_type lib s) (codes "S12"))
        (λ e.
          either (IsAwake s) (not s.rest.sender.report_is_on) (λ e. off _)
            (λ e. finishes-IsAwake _ s s))
        (λ e.
          either (IsAwake s) s.rest.sender.ordered_on (λ e. off _) (λ e. finishes-IsAwake _ s s))

  pub ordered_event-IsAwake : (s : Station W) → IsAwake s (ordered_event lib s)
  unfolding ordered_event
  ordered_event-IsAwake s = at (state_of s)
    where
      at : (x : State) → IsAwake s (ordered_event_at lib x s)
      at wait_imm_rsp = ordered_answer-IsAwake s
      at wait_imm_rsp_confirmed = ordered_answer-IsAwake s
      at idle = IsAwake-refl s
      at connection_lost = IsAwake-refl s
      at confirm_pending = IsAwake-refl s
      at logging_on = IsAwake-refl s
      at wait_del_rsp = IsAwake-refl s
      at funbusy_wait = IsAwake-refl s
      at funbusy_wait_confirmed = IsAwake-refl s
