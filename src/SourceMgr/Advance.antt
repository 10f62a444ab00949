-- ===== src/SourceMgr/Advance.antt =====
-- `OZT_SourceMgr::advance`: the loop over flows that ends at the next command to execute.
pub mod Laws
pub mod Includes
use operations_procedure_sup.Common.{
  ℕ, zero, suc, ◌+◌, ◌*◌, Bool, true, false, List, [], ◌∷◌, Option, none, some, Text, codes,
  if◌then◌else◌, pos, length,
}
use operations_procedure_sup.Tools.{Tools}
use operations_procedure_sup.ErrHandling.{
  OztResult, of_code, of_info, no_problem, iterated_on_same_var, program_terminated, pause, quit,
  stop, file_halted, internal_err, is_ok, is_eof, set_flag,
}
use operations_procedure_sup.Value.Convert.{of_text}
use operations_procedure_sup.Flow.{
  Flow, FlowCode, undefined_flow, normal, for_setup, next, goto_label_flow, gosub_label_flow,
  return_from_gosub_flow, include, end_of_file, pause_flow, quit_flow, stop_flow, restart,
  file_halted_flow, if_flow, else_flow, break_flow, endif_flow, switch_flow, case_flow,
  default_flow, endswitch_flow, flow_of, normal_skipping,
}
use operations_procedure_sup.SourceInfo.{SourceInfo}
use operations_procedure_sup.SourceInfo.Lines.{advance}
use operations_procedure_sup.SourceInfo.Lines.Position.{set_line, skip_else}
use operations_procedure_sup.SourceInfo.Branches.{
  if_else_setup, else_found, endif_found, switch_setup, case_found, default_found, endswitch_found,
}
use operations_procedure_sup.SourceInfo.Loops.{for_loop_break, for_loop_set_up, for_loop_next}
use operations_procedure_sup.SourceInfo.Labels.{goto_label, gosub_label, return_from_gosub}
use operations_procedure_sup.VarStore.{VarStore}
use operations_procedure_sup.SourceMgr.{System, SourceMgr, Active, to_active, of_active}
use operations_procedure_sup.SourceMgr.Files.{create_source, find_file_by_for_loop_idx}

-- One round of the loop: a `return`, or a `continue` with another flow.
pub data Round : Type 0 where
  returns : Active → OztResult → Round
  continues : Active → Flow → Round

-- The current source behind one of its operations; the result is returned.
unfoldable pub answer : Active → SourceInfo × OztResult → Round
answer a (s, r) = returns (record a { curr = s }) r

-- The same, but the end of the file is the flow END_OF_FILE.
unfoldable pub answer_or_eof : Active → SourceInfo × OztResult → Round
unfolding is_eof
answer_or_eof a (s, r) =
    if is_eof r.code
    then continues (record a { curr = s }) (flow_of end_of_file)
    else returns (record a { curr = s }) r

-- The same for the operations that write variables.
unfoldable pub answer_vars : Active → SourceInfo × VarStore × OztResult → Round
answer_vars a (s, vs, r) = answer_or_eof (record a { vars = vs }) (s, r)

-- Back to the file that included this one, if there is one.
unfoldable pub leave_file : Active → OztResult → Round
leave_file a r = elim a.stack [
  | [] ↦ returns a r
  | s ∷ ss ↦ continues (record a { curr = s; stack = ss }) normal_skipping
]

module _ (sys : System) where
  -- `case OZT_Flow::INCLUDE`
  unfoldable pub include_file : Text → Active → Round
  unfolding of_active is_eof
  include_file file_name a =
      let (made, result) = create_source sys file_name (of_active a) in
      elim made [
        | some s ↦ returns (record a { curr = s; stack = a.curr ∷ a.stack }) result
        | none ↦
            if is_eof result.code
            then continues a normal_skipping
            else if a.handler.checking
            then returns a result
            else continues (record a { handler = set_flag a.handler }) normal_skipping
      ]

  -- `case OZT_Flow::FOR_SETUP`
  unfoldable pub set_up_loop : Flow → Active → Round
  set_up_loop flow a = elim (find_file_by_for_loop_idx flow.info1 a.curr a.stack) [
    | c ∷ cs ↦ returns a (of_info iterated_on_same_var (c ∷ cs))
    | [] ↦ answer_vars a (
        for_loop_set_up sys.tools flow.info1 (of_text flow.info2) (of_text flow.info3) a.curr
          a.vars)
  ]

  -- The `switch` on the code of the flow.
  unfoldable pub round_of : FlowCode → Flow → Active → Round
  round_of normal flow a =
      answer_or_eof a
        (if flow.skip_else_flag then skip_else sys.tools a.curr else advance sys.tools a.curr)
  round_of for_setup flow a = set_up_loop flow a
  round_of next flow a = answer_vars a (for_loop_next sys.tools flow.info1 a.curr a.vars)
  round_of goto_label_flow flow a = answer a (goto_label sys.tools flow.info1 a.curr)
  round_of gosub_label_flow flow a =
      answer a (gosub_label sys.tools flow.info1 flow.skip_else_flag a.curr)
  round_of return_from_gosub_flow flow a = answer_or_eof a (return_from_gosub sys.tools a.curr)
  round_of include flow a = include_file flow.info1 a
  round_of end_of_file flow a = leave_file a (of_code program_terminated)
  round_of pause_flow flow a = returns a (of_code pause)
  round_of quit_flow flow a = returns a (of_code quit)
  round_of stop_flow flow a = returns a (of_code stop)
  round_of restart flow a =
      returns (record a { curr = (set_line (pos 0) true (record (a.curr) { flow_stack = [] })).0 })
        (of_code no_problem)
  round_of file_halted_flow flow a = leave_file a (of_code file_halted)
  round_of if_flow flow a = answer a (if_else_setup sys.tools (of_text flow.info1) a.curr)
  round_of else_flow flow a = answer a (else_found sys.tools a.curr)
  round_of endif_flow flow a = answer_or_eof a (endif_found sys.tools a.curr)
  round_of break_flow flow a = answer a (for_loop_break sys.tools a.curr)
  round_of switch_flow flow a = answer a (switch_setup sys.tools (of_text flow.info1) a.curr)
  round_of case_flow flow a = answer a (case_found sys.tools (of_text flow.info1) a.curr)
  round_of default_flow flow a = answer a (default_found sys.tools a.curr)
  round_of endswitch_flow flow a = answer_or_eof a (endswitch_found sys.tools a.curr)
  round_of undefined_flow flow a = returns a (of_info internal_err (codes "undefined flow"))

  abbrev pub round : Flow → Active → Round
  round flow a = round_of flow.code flow a

  -- The loop, on fuel.
  unfoldable pub advance_loop : ℕ → Flow → Active → Option (Active × OztResult)
  advance_loop zero flow a = none
  advance_loop (suc f) flow a = elim (round flow a) [
    | returns a' r ↦ some (a', r)
    | continues a' flow' ↦ advance_loop f flow' a'
  ]

  -- Two rounds for each file of the stack, and three.
  abbrev pub rounds : Active → ℕ
  rounds a = 2 * length a.stack + 3

  -- `advance`; `none` is a failed assertion.
  unfoldable pub advance_mgr : Flow → SourceMgr → Option (SourceMgr × OztResult)
  unfolding to_active of_active advance_loop
  advance_mgr flow m = elim (to_active m) [
    | none ↦ none
    | some a ↦ elim (advance_loop (rounds a) flow a) [
      | none ↦ none
      | some (a', r) ↦ some (of_active a', r)
    ]
  ]
