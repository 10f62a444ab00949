-- ===== src/SourceInfo/Branches.antt =====
-- @IF, @ELSE, @ENDIF, @SWITCH, @CASE, @DEFAULT and @ENDSWITCH, and the searches in the stack. A
-- frame is made by `new`, which throws when there is no memory; its result is never null.
pub mod Laws
use operations_procedure_sup.Common.{
  ℕ, zero, suc, ◌-◌, Bool, true, false, not, List, [], ◌∷◌, Option, none, some, Text, if◌then◌else◌,
  ℤ, pos, negsuc, minus_one, ◌-ℤ◌,
}
use operations_procedure_sup.Tools.{Tools}
use operations_procedure_sup.ErrHandling.{
  Code, OztResult, fresh, of_code, no_problem, no_matching_endif, else_without_if, endif_without_if,
  no_matching_endswitch, case_without_matching_switch, default_without_matching_switch,
  endswitch_without_matching_switch, is_ok,
}
use operations_procedure_sup.Value.Convert.{Value, to_boolean}
use operations_procedure_sup.SourceInfo.{
  SourceInfo, Frame, if_frame, switch_frame, gosub_frame, for_loop_frame, FlowFrameType, if_type,
  switch_type, frame_type, same_type, frame_eq,
}
use operations_procedure_sup.SourceInfo.Lines.{advance}
use operations_procedure_sup.SourceInfo.Blocks.{
  line_after, find_endif_statement, find_else_statement, find_endswitch_statement,
  find_matching_case_statement,
}

-- `findFlow`: the last frame of a type.
unfoldable pub find_flow : FlowFrameType → List Frame → Option Frame
unfolding frame_type same_type
find_flow ty [] = none
find_flow ty (f ∷ fs) = if same_type (frame_type f) ty then some f else find_flow ty fs

-- The rest of a stack behind the first frame of its vector that equals `f`, if there is one.
unfoldable pub remove_first : Frame → List Frame → Option (List Frame)
unfolding frame_eq
remove_first f [] = none
remove_first f (g ∷ gs) = elim (remove_first f gs) [
  | some gs' ↦ some (g ∷ gs')
  | none ↦ if frame_eq g f then some gs else none
]

-- `flowStack.remove(flow)`: the vector is searched from its first element, the bottom.
unfoldable pub remove_frame : Frame → List Frame → List Frame
unfolding remove_first
remove_frame f fs = elim (remove_first f fs) [ none ↦ fs | some gs ↦ gs ]

-- `flowStack.append`
abbrev pub push_frame : Frame → SourceInfo → SourceInfo
push_frame f s = record s { flow_stack = f ∷ s.flow_stack }

-- `getLineWithEndif`
unfoldable pub endif_line : Frame → ℤ
endif_line (if_frame _ _ e) = e
endif_line _ = minus_one

-- `getLineWithEndswitch`
unfoldable pub endswitch_line : Frame → ℤ
endswitch_line (switch_frame e) = e
endswitch_line _ = minus_one

-- A line number that a search answers, with -1 for none.
abbrev pub line_number : Option ℕ → ℤ
line_number none = minus_one
line_number (some n) = pos n

module _ (t : Tools) where
  -- The line from which `ifElseSetup` advances: @IF itself, @ELSE, or the line above @ENDIF.
  unfoldable pub branch_line : Bool → ℤ → Option ℕ → ℕ → ℤ
  branch_line true current line_with_else line_with_endif = current
  branch_line false current (some n) line_with_endif = pos n
  branch_line false current none line_with_endif = pos line_with_endif -ℤ pos 1

  -- `ifElseSetup`
  unfoldable pub if_else_setup : Value → SourceInfo → SourceInfo × OztResult
  unfolding is_ok branch_line
  if_else_setup condition s =
      let (condition_value, result) = to_boolean t condition fresh in
      if not (is_ok result.code)
      then (s, result)
      else let line_with_else = (find_else_statement t s.text (line_after s.curr_line)).0 in
        elim (find_endif_statement t s.text (line_after s.curr_line)) [
          | none ↦ (s, of_code no_matching_endif)
          | some e ↦
              let from = branch_line condition_value s.curr_line line_with_else e in
              let (s1, _) = advance t (record s { curr_line = from }) in
              (
                push_frame (if_frame s.curr_line (line_number line_with_else) (pos e)) s1,
                of_code no_problem,
              )
        ]

  -- `elseFound`
  unfoldable pub else_found : SourceInfo → SourceInfo × OztResult
  unfolding endif_line
  else_found s = elim (find_flow if_type s.flow_stack) [
    | none ↦ (s, of_code else_without_if)
    | some flow ↦ advance t (record s { curr_line = endif_line flow -ℤ pos 1 })
  ]

  -- `endifFound`
  unfoldable pub endif_found : SourceInfo → SourceInfo × OztResult
  endif_found s = elim (find_flow if_type s.flow_stack) [
    | none ↦ (s, of_code endif_without_if)
    | some flow ↦ advance t (record s { flow_stack = remove_frame flow s.flow_stack })
  ]

  -- The line from which `switchSetup` advances.
  unfoldable pub case_line : Option ℕ → ℕ → ℤ
  case_line none line_with_endswitch = pos line_with_endswitch -ℤ pos 1
  case_line (some n) line_with_endswitch = pos n

  -- `switchSetup`
  unfoldable pub switch_setup : Value → SourceInfo → SourceInfo × OztResult
  unfolding case_line
  switch_setup var_value s =
      let line_with_case =
        find_matching_case_statement t s.text (line_after s.curr_line) var_value in
      elim (find_endswitch_statement t s.text (line_after s.curr_line)) [
        | none ↦ (s, of_code no_matching_endswitch)
        | some e ↦
            let (s1, _) = advance t (record s { curr_line = case_line line_with_case e }) in
            (push_frame (switch_frame (pos e)) s1, of_code no_problem)
      ]

  -- What `caseFound` and `defaultFound` share: on behind the lines of the switch.
  unfoldable pub leave_switch : Code → SourceInfo → SourceInfo × OztResult
  unfolding endswitch_line
  leave_switch missing s = elim (find_flow switch_type s.flow_stack) [
    | none ↦ (s, of_code missing)
    | some flow ↦ advance t (record s { curr_line = endswitch_line flow -ℤ pos 1 })
  ]

  -- `caseFound`
  unfoldable pub case_found : Value → SourceInfo → SourceInfo × OztResult
  unfolding leave_switch
  case_found value s = leave_switch case_without_matching_switch s

  -- `defaultFound`
  unfoldable pub default_found : SourceInfo → SourceInfo × OztResult
  unfolding leave_switch
  default_found s = leave_switch default_without_matching_switch s

  -- `endswitchFound`
  unfoldable pub endswitch_found : SourceInfo → SourceInfo × OztResult
  endswitch_found s = elim (find_flow switch_type s.flow_stack) [
    | none ↦ (s, of_code endswitch_without_matching_switch)
    | some flow ↦ advance t (record s { flow_stack = remove_frame flow s.flow_stack })
  ]
