-- ===== src/SourceInfo/Labels.antt =====
-- Labels, and the commands that use them: @GOTO, @GOSUB and @RETURN. The table holds the number of
-- a label's line counted from 1, and its negative if the label is defined again.
pub mod Laws
pub mod Table
use operations_procedure_sup.Common.{
  ℕ, suc, ◌-◌, Bool, true, false, not, List, [], ◌∷◌, Option, none, some, Text, if◌then◌else◌, ℤ,
  pos, negsuc, ◌-ℤ◌, ltb_ℤ, take, drop,
}
use operations_procedure_sup.Tools.{Tools, Dict, find_value, insert_key_and_value}
use operations_procedure_sup.ErrHandling.{
  OztResult, of_code, of_info, no_problem, label_not_found, duplicate_labels, return_without_gosub,
  program_modified,
}
use operations_procedure_sup.Misc.{trim}
use operations_procedure_sup.SourceInfo.{
  SourceInfo, Frame, if_frame, switch_frame, gosub_frame, for_loop_frame, gosub_type, frame_type,
  same_type,
}
use operations_procedure_sup.SourceInfo.Patterns.{label_reg_exp, trim_reg_exp}
use operations_procedure_sup.SourceInfo.Comments.{strip_all_comment}
use operations_procedure_sup.SourceInfo.Lines.{advance}
use operations_procedure_sup.SourceInfo.Lines.Position.{set_line, skip_else}
use operations_procedure_sup.SourceInfo.Branches.{find_flow, push_frame}
use operations_procedure_sup.SourceInfo.Loops.{pop_frame}

abbrev is_gosub : Frame → Bool
is_gosub f = same_type (frame_type f) gosub_type

-- The frames above the last @GOSUB are removed.
unfoldable pub unwind_to_gosub : List Frame → List Frame
unfolding same_type frame_type
unwind_to_gosub [] = []
unwind_to_gosub (f ∷ fs) = let rest = unwind_to_gosub fs in if is_gosub f then f ∷ fs else rest

-- Whether to skip @ELSE commands on return.
unfoldable pub skips_else : Frame → Bool
skips_else (gosub_frame _ flag) = flag
skips_else _ = false

unfoldable pub gosub_line : Frame → ℤ
gosub_line (gosub_frame n _) = n
gosub_line _ = negsuc 0

-- The table behind a label that stands on line `lineno`.
unfoldable pub insert_label : Text → ℤ → Dict ℤ → Dict ℤ
unfolding find_value
insert_label label lineno tbl = elim (find_value label tbl) [
  | none ↦ insert_key_and_value label lineno tbl
  | some value ↦
      if ltb_ℤ (pos 0) value then insert_key_and_value label (pos 0 -ℤ value) tbl else tbl
]

module _ (t : Tools) where
  -- The label that a line defines.
  unfoldable pub label_of : Text → Option Text
  label_of line0 =
      let line = trim (strip_all_comment (t.to_upper line0)) in
      elim (t.index label_reg_exp line 0) [
        | none ↦ none
        | some (_, i) ↦ elim (t.index trim_reg_exp line (i - 1)) [
          | none ↦ some (drop (i - 1) line)
          | some (_, label_length) ↦ some (take label_length (drop (i - 1) line))
        ]
      ]

  -- `findAndInsertLabel`, which answers NO_PROBLEM on every path.
  unfoldable pub find_and_insert_label : Text → ℤ → Dict ℤ → Dict ℤ
  find_and_insert_label line lineno tbl = elim (label_of line) [
    | none ↦ tbl
    | some label ↦ insert_label label lineno tbl
  ]

  -- `labelExist`
  unfoldable pub label_exist : Text → SourceInfo → OztResult
  unfolding find_value
  label_exist label0 s =
      let label = t.to_upper label0 in
      elim (find_value label s.label_tbl) [
        | none ↦ of_info label_not_found label
        | some target_line ↦
            if ltb_ℤ target_line (pos 0) then of_info duplicate_labels label else of_code no_problem
      ]

  -- `lineLabel`, with the number that it stores, if any.
  unfoldable pub line_label : Text → SourceInfo → Option ℤ × OztResult
  unfolding find_value
  line_label label0 s =
      let label = t.to_upper label0 in
      elim (find_value label s.label_tbl) [
        | none ↦ (none, of_info label_not_found label)
        | some target_line ↦ (
          some target_line,
          if ltb_ℤ target_line (pos 0) then of_info duplicate_labels label else of_code no_problem,
        )
      ]

  -- `gotoLabel`
  unfoldable pub goto_label : Text → SourceInfo → SourceInfo × OztResult
  unfolding find_value
  goto_label label0 s =
      let label = t.to_upper label0 in
      elim (find_value label s.label_tbl) [
        | none ↦ (s, of_info label_not_found label)
        | some target_line ↦
            if ltb_ℤ target_line (pos 0)
            then (s, of_info duplicate_labels label)
            else (record s { curr_line = target_line -ℤ pos 1 }, of_code no_problem)
      ]

  -- `gosubLabel`: the frame is pushed first, and taken back if the jump fails.
  unfoldable pub gosub_label : Text → Bool → SourceInfo → SourceInfo × OztResult
  unfolding find_value
  gosub_label label0 skip_else_flag s =
      let label = t.to_upper label0 in
      let s1 = push_frame (gosub_frame s.curr_line skip_else_flag) s in
      let popped = record s1 { flow_stack = pop_frame s1.flow_stack } in
      elim (find_value label s.label_tbl) [
        | none ↦ (popped, of_info label_not_found label)
        | some target_line ↦
            if ltb_ℤ target_line (pos 0)
            then (popped, of_info duplicate_labels label)
            else (record s1 { curr_line = target_line -ℤ pos 1 }, of_code no_problem)
      ]

  -- Where execution goes on: at the command behind @GOSUB, or behind its @ELSE commands.
  unfoldable pub resume : Frame → SourceInfo → SourceInfo × OztResult
  unfolding skips_else gosub_line
  resume flow s =
      let (s1, moved) = set_line (gosub_line flow) true s in
      if not moved
      then (s1, of_code program_modified)
      else if skips_else flow
      then skip_else t s1
      else advance t s1

  -- `returnFromGosub`
  unfoldable pub return_from_gosub : SourceInfo → SourceInfo × OztResult
  return_from_gosub s = elim (find_flow gosub_type s.flow_stack) [
    | none ↦ (s, of_code return_without_gosub)
    | some flow ↦
        let (s1, result) = resume flow s in
        (record s1 { flow_stack = pop_frame (unwind_to_gosub s1.flow_stack) }, result)
  ]
