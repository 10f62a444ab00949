-- ===== src/Tests/Waits.antt =====
-- The theorems on waiting, at a buffer to which a line comes in each second.
use operations_procedure_sup.Common.{
  ◌&&◌, true, false, ◌≡◌, refl, arith, List, [], ◌∷◌, some, codes, pos, minus_one,
}
use operations_procedure_sup.Tools.{Tools}
use operations_procedure_sup.Tools.Engine.{engine}
use operations_procedure_sup.ErrHandling.{OztResult, fresh, of_code, interrupted}
use operations_procedure_sup.Value.Convert.{of_text, of_long}
use operations_procedure_sup.Value.Convert.Numerals.{engine-ReadsNumerals}
use operations_procedure_sup.CmdRspBuf.{empty_buffer, append, find}
use operations_procedure_sup.CmdRspBuf.Search.{first_match}
use operations_procedure_sup.EventHandler.{EventHandler}
use operations_procedure_sup.RspCatcher.{
  Scene, Outside, new_rsp_catcher, waitfor, waitreply, wait_reply_check, is_undefined, forgets,
  change_state, both_found, wait_for,
}
use operations_procedure_sup.RspCatcher.Answers.{
  Event, response, time_over, user_interrupt, first_answer, happen, IsAnswered, happen-first_answer,
}
use operations_procedure_sup.RspCatcher.Waiting.{Waits, seconds, wait_for_ends}

abbrev t : Tools
t = engine

-- In each second a line comes.
abbrev lines_come : Outside Unit
lines_come = record {
  send_logoff = λ flag s. s;
  sleep = λ s. record s { buffer = append (codes "END\n") true s.buffer };
}

abbrev handler : EventHandler
handler = record {
  io_clients = [];
  timer_clients = [];
  tick_clients = [];
  chd_clients = [];
  get_out = false;
  result = fresh;
}

abbrev scene : Scene Unit
scene = record {
  catcher = new_rsp_catcher;
  buffer = empty_buffer (pos 0);
  handler = handler;
  errors = record { err_flag = false; checking = false };
  shown = [];
  rest = tt;
}

not_yet :
    (find (codes "END") minus_one scene.buffer && find (codes "") minus_one scene.buffer) ≡ false
unfolding find first_match
not_yet = refl

wait_for_ends_example :
    (r : OztResult × Scene Unit) × (wait_for t lines_come 9
        (of_text (codes "END"))
        (of_text [])
        false
        (of_long (pos 5))
        scene
      ≡ some r)
    × Waits lines_come.send_logoff lines_come.sleep
        (both_found t lines_come (of_text (codes "END")) (of_text []))
        (seconds 5)
        true
        (record (forgets scene) { catcher = change_state waitfor scene.catcher })
        r
wait_for_ends_example =
    wait_for_ends t engine-ReadsNumerals lines_come (of_text (codes "END")) (of_text []) 5 9 scene
      (omega arith) (omega arith) refl not_yet

-- The end of a reply is awaited, the buffer is read without an end, and the user is first.
abbrev for_reply : Scene Unit
for_reply = record scene { catcher = change_state waitreply scene.catcher }

abbrev some_events : List Event
some_events = response (empty_buffer (pos 0)) ∷ (user_interrupt ∷ (time_over ∷ []))

interrupted_first : first_answer for_reply.catcher some_events ≡ some (of_code interrupted)
unfolding wait_reply_check is_undefined
interrupted_first = refl

happen-first_answer_example :
    IsAnswered (first_answer for_reply.catcher some_events) for_reply (happen some_events for_reply)
happen-first_answer_example = happen-first_answer some_events for_reply refl
