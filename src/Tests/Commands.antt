-- ===== src/Tests/Commands.antt =====
-- The theorems on responses that are held back and on the sending of commands, at a station whose
-- world counts the commands that are sent.
use operations_procedure_sup.Common.{
  ℕ, suc, ◌<◌, true, false, ◌≡◌, refl, ap, ◌∙◌, inl, arith, List, [], ◌∷◌, ◌++◌, map, none, some,
  Text, codes, text_eq, is_space, pos, length,
}
use operations_procedure_sup.Misc.{trim, trim_leading, trim_trailing, trim_cons}
use operations_procedure_sup.ErrHandling.{fresh, of_code, funbusy, no_problem, is_ok}
use operations_procedure_sup.Tools.Engine.{engine}
use operations_procedure_sup.Value.Convert.{of_text, of_long}
use operations_procedure_sup.CmdRspBuf.{
  CmdRspBuf, empty_buffer, append, scan_from, scan_for_fail_strings, scan_fail_loop,
}
use operations_procedure_sup.CmdRspBuf.Search.{
  word_size, scan_lines, first_match, find_text, c_str, from_mark,
}
use operations_procedure_sup.CmdRspBuf.Split.{append_lines}
use operations_procedure_sup.CmdRspBuf.Split.Laws.{split_lines}
use operations_procedure_sup.EventHandler.{EventHandler, set_result}
use operations_procedure_sup.RspReceiver.{new_rsp_receiver}
use operations_procedure_sup.RspReceiver.Texts.{imm, del, spont, text_of, text_from, held}
use operations_procedure_sup.RspReceiver.Kept.{
  Event, comes, off, asked, happen, all_came, IsKept, happen-IsKept,
}
use operations_procedure_sup.CmdSender.{
  idle, wait_imm_rsp, CmdSender, Station, Library, ret_okay, cha_idle, cmd_function_busy, state_of,
  change_state, set_fun_busy_param,
}
use operations_procedure_sup.CmdSender.Events.{fun_busy_event}
use operations_procedure_sup.CmdSender.Commands.{starts_waiting, check_reply}
use operations_procedure_sup.CmdSender.Awake.{IsAwake, IsGentle, is_waiting}
use operations_procedure_sup.CmdSender.Awake.Events
use operations_procedure_sup.CmdSender.Retries.{
  with_world, rounds, busy_answers, busy_answers-starts_waiting,
}
use operations_procedure_sup.CmdSender.Shown.{HoldsNothing, change_state-IsKept}
use operations_procedure_sup.CmdSender.Attempts.{IsPatient, IsTaken, set_fun_busy_param-IsPatient}
use operations_procedure_sup.CmdSender.Keys.{m_scan, scan_keys, set_scan_str}
use operations_procedure_sup.CmdSender.Keys.Order.{ArePlain}
use operations_procedure_sup.CmdSender.Replies.{IsAccepted, check_reply-IsAccepted}
use operations_procedure_sup.CmdSender.Keys.Words.{with_commas, set_scan_str-with_commas}

abbrev handler : EventHandler
handler = record {
  io_clients = [];
  timer_clients = [];
  tick_clients = [];
  chd_clients = [];
  get_out = false;
  result = fresh;
}

abbrev sender : CmdSender
sender = record {
  auto_confirm = true;
  sender_state = wait_imm_rsp;
  ordered_on = true;
  report_is_on = false;
  fun_busy_attempts = pos 3;
  fun_busy_interval = pos 5;
  fun_busy_counter = pos 3;
  last_sent_cmd = codes "ALLIP;";
  ok_reply = [];
  fail_reply = [];
  interrupt_pending = false;
  keys = codes "A1" ∷ (codes "END" ∷ []);
  extra_fail_strings = [];
  csl_exemptions_strings = [];
  r_flag = false;
  z_flag = false;
  stored_file_name = [];
  cur_file = [];
  client_quit_flag = false;
  default_fb_attempts = pos 3;
  default_fb_interval = pos 5;
  wait_dl_rsp = 0;
  z_errors = [];
}

abbrev pub station : Station ℕ
station = record {
  receiver = new_rsp_receiver;
  buffer = empty_buffer (pos 0);
  handler = handler;
  rest = record {
    sender = sender;
    errors = record { err_flag = false; checking = false };
    world = 0;
  };
}

-- A library that accepts every command and counts the sends.
abbrev library : Library ℕ
library = record {
  send_command = λ cmd prompt s. (ret_okay, with_world (suc s.rest.world) s);
  confirm_command = λ b s. (ret_okay, s);
  check_ipc = λ s. s;
  send_logoff = λ s. s;
  cha_state = λ s. cha_idle;
  last_cmd_result = λ s. cmd_function_busy;
  prompt = λ s. none;
  sleep = λ z s. s;
  wait_result = λ s. (s.handler.result, s);
  cancel_imm = λ s. s;
  cancel_del = λ s. s;
  cancel_spont = λ s. s;
  disconnect = λ s. s;
  reconnect = λ s. s;
  connection_status = λ s. pos 4;
  es_type = λ s. codes "AXE";
  resp_ended = λ s. true;
  same_ignoring_case = λ a b. false;
  opens = λ f s. true;
}

nothing_came : IsKept (λ k. []) station
nothing_came = (
  (
    [],
    unfold split_lines text_of in refl,
    λ k.
        unfold text_from in
        elim k as (λ k. text_from k [] ++ held [] [] k ≡ []) [
          | imm ↦ refl
          | del ↦ refl
          | spont ↦ refl
        ],
  ),
  tt,
  tt,
  λ off. (refl, refl),
)

-- Delayed and spontaneous texts come before and behind the end of a command.
abbrev some_events : List Event
some_events =
    comes del (codes "D1\n") false
    ∷ (comes spont (codes "S1\n") true
        ∷ (comes imm (codes "EXECUTED\n") true
            ∷ (off ∷ (comes del (codes "D2\n") true ∷ (asked ∷ [])))))

happen-IsKept_example : IsKept (λ k. [] ++ all_came k some_events) (happen some_events station)
happen-IsKept_example =
    happen-IsKept (λ k. []) some_events station
      (
        (refl, (refl, (refl, tt))),
        (
          (refl, (refl, (refl, tt))),
          (
            (refl, (refl, (refl, (refl, (refl, (refl, (refl, (refl, (refl, tt))))))))),
            ((refl, (refl, (refl, tt))), tt),
          ),
        ),
      )
      nothing_came

quiet : (s s1 : Station ℕ) → s1.handler ≡ s.handler → s1.rest.sender ≡ s.rest.sender → IsAwake s s1
unfolding IsAwake
quiet s s1 h c =
    (λ e. ap (λ h. h.get_out) h ∙ e, λ e. inl (ap (λ c. is_waiting c.sender_state) c ∙ e))

gentle : IsGentle library
gentle = (
  λ cmd prompt s. quiet s _ refl refl,
  λ b s. quiet s s refl refl,
  λ s. quiet s s refl refl,
  λ z s. quiet s s refl refl,
  λ s. quiet s s refl refl,
  λ s. quiet s s refl refl,
  λ s. quiet s s refl refl,
  λ s. quiet s s refl refl,
  λ s. quiet s s refl refl,
)

happen-IsAwake_example : IsAwake station (
    Events.happen library 7
      (Events.of_cmd_sender ∷ (Events.of_user ∷ (Events.of_cmd_sender ∷ [])))
      station)
happen-IsAwake_example =
    Events.happen-IsAwake library 7
      (Events.of_cmd_sender ∷ (Events.of_user ∷ (Events.of_cmd_sender ∷ []))) station gentle

busy_answers-starts_waiting_example :
    let r = busy_answers library 2 (starts_waiting station) in
    let r1 = fun_busy_event library r in
    (r.rest.world ≡ rounds suc 2 0)
    × (r.handler ≡ handler)
    × (state_of r1 ≡ idle)
    × (r1.rest.world ≡ r.rest.world)
    × (r1.handler ≡ set_result (of_code funbusy) handler)
busy_answers-starts_waiting_example =
    busy_answers-starts_waiting library suc (λ z n. n)
      ((λ cmd prompt s. refl), (λ z s. refl), (λ s. refl)) 2 station refl

change_state-IsKept_example :
    IsKept (λ k. []) (change_state idle station) × HoldsNothing (change_state idle station)
change_state-IsKept_example = change_state-IsKept (λ k. []) station refl nothing_came

set_fun_busy_param-IsPatient_example :
    let r = set_fun_busy_param engine (of_long (pos 0)) (of_text (codes "x")) sender in
    IsPatient r.1 × IsTaken r sender
set_fun_busy_param-IsPatient_example =
    set_fun_busy_param-IsPatient engine (of_long (pos 0)) (of_text (codes "x")) sender
      (omega arith, omega arith, omega arith)

abbrev response : CmdRspBuf
response = append (codes "A1 B2\nEND\n") false (empty_buffer (pos 0))

starts : response.mark ≡ 0
unfolding append
starts = refl

fits : length response.store < word_size
unfolding append append_lines c_str
fits = omega arith

plain : ArePlain sender.keys
unfolding text_eq
plain = (refl, (refl, tt))

abbrev answered : Station ℕ
answered = record station { buffer = response }

accepted : is_ok (check_reply (of_code no_problem) answered).0.code ≡ true
unfolding check_reply scan_for_fail_strings scan_fail_loop is_ok m_scan scan_keys scan_from
    scan_lines first_match find_text c_str append append_lines text_eq from_mark
accepted = refl

check_reply-IsAccepted_example : IsAccepted (of_code no_problem) answered
check_reply-IsAccepted_example =
    check_reply-IsAccepted (of_code no_problem) answered starts fits plain refl accepted

abbrev words : List Text
words = codes "A1" ∷ (codes " END" ∷ [])

trimmed : trim (with_commas words) ≡ with_commas words
unfolding trim trim_leading trim_trailing trim_cons is_space
trimmed = refl

set_scan_str-with_commas_example :
    set_scan_str 2 (with_commas words ++ b'/' ∷ []) sender
    ≡ some (of_code no_problem, record sender { keys = sender.keys ++ map trim words })
set_scan_str-with_commas_example =
    set_scan_str-with_commas 2 words sender
      ((refl, (refl, tt)), ((refl, (refl, (refl, (refl, tt)))), λ e. cc)) trimmed (omega arith)
