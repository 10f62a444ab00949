-- ===== src/SourceInfo/Loops.antt =====
-- @FOR, @NEXT and @BREAK. The variable store is shared with the rest of the session, so the
-- handlers take it and return it.
pub mod Laws
pub mod Counting
use operations_procedure_sup.Common.{
  Bool, true, false, not, ◌&&◌, ◌||◌, List, [], ◌∷◌, Option, none, some, Text, text_eq,
  if◌then◌else◌, ℤ, pos, minus_one, ℕ, pos_part,
}
use operations_procedure_sup.Tools.{Tools}
use operations_procedure_sup.ErrHandling.{
  OztResult, fresh, of_code, of_info, no_problem, no_matching_next, next_without_matching_for,
  var_undefined, program_modified, break_without_for, is_ok,
}
use operations_procedure_sup.Value.Convert.{Value, of_long, to_long}
use operations_procedure_sup.Value.Arith.{add}
use operations_procedure_sup.Value.Compare.{gt_value}
use operations_procedure_sup.VarStore
use operations_procedure_sup.VarStore.{VarStore}
use operations_procedure_sup.SourceInfo.{
  SourceInfo, Frame, for_loop_frame, for_loop_type, frame_type, same_type, frame_eq, if_frame,
  switch_frame, gosub_frame,
}
use operations_procedure_sup.SourceInfo.Lines.{advance}
use operations_procedure_sup.SourceInfo.Lines.Position.{set_line}
use operations_procedure_sup.SourceInfo.Blocks.{find_end_of_for_loop}
use operations_procedure_sup.SourceInfo.Branches.{find_flow, remove_frame, push_frame}

abbrev is_for : Frame → Bool
is_for f = same_type (frame_type f) for_loop_type

-- `forLoopIndexUsed`
unfoldable pub for_loop_index_used : Text → List Frame → Bool
unfolding text_eq
for_loop_index_used var_name [] = false
for_loop_index_used var_name (for_loop_frame x a b v ∷ fs) =
    text_eq x var_name || for_loop_index_used var_name fs
for_loop_index_used var_name (_ ∷ fs) = for_loop_index_used var_name fs

-- The frames above the last @FOR are removed.
unfoldable pub unwind_to_for : List Frame → List Frame
unfolding same_type frame_type
unwind_to_for [] = []
unwind_to_for (f ∷ fs) = let rest = unwind_to_for fs in if is_for f then f ∷ fs else rest

-- `lineWithNext`
unfoldable pub next_line : Frame → ℤ
next_line (for_loop_frame _ _ b _) = b
next_line _ = minus_one

abbrev pub pop_frame : List Frame → List Frame
pop_frame [] = []
pop_frame (_ ∷ fs) = fs

-- The last frame, taken apart if it belongs to a @FOR.
unfoldable pub top_for : List Frame → Option (Text × ℤ × Value)
top_for (for_loop_frame x a b v ∷ fs) = some (x, a, v)
top_for _ = none

module _ (t : Tools) where
  -- `forLoopBreak`. The source reads the line of @NEXT from the frame after it has deleted it.
  unfoldable pub for_loop_break : SourceInfo → SourceInfo × OztResult
  unfolding next_line
  for_loop_break s = elim (find_flow for_loop_type s.flow_stack) [
    | none ↦ (s, of_code break_without_for)
    | some flow ↦ advance t (record s {
      flow_stack = remove_frame flow (unwind_to_for s.flow_stack);
      curr_line = next_line flow;
    })
  ]

  -- `forLoopSetUp`
  unfoldable pub for_loop_set_up :
      Text → Value → Value → SourceInfo → VarStore → SourceInfo × VarStore × OztResult
  unfolding is_ok
  for_loop_set_up var_name0 first_value last_value s vs =
      let (_, result1) = to_long t first_value fresh in
      if not (is_ok result1.code)
      then (s, vs, result1)
      else let (_, result2) = to_long t last_value result1 in
        if not (is_ok result2.code)
        then (s, vs, result2)
        else let var_name = t.to_upper var_name0 in
          elim (find_end_of_for_loop t s.text (pos_part s.curr_line) var_name) [
            | none ↦ (s, vs, of_code no_matching_next)
            | some n ↦
                if gt_value t first_value last_value
                then (let (s1, result) = advance t (record s { curr_line = pos n }) in
                    (s1, vs, result))
                else let (s1, _) = advance t s in
                  (
                    push_frame (for_loop_frame var_name s1.curr_line (pos n) last_value) s1,
                    VarStore.put t var_name first_value vs,
                    of_code no_problem,
                  )
          ]

  -- The end of `forLoopNext`: on behind @NEXT, or back to the first line of the body.
  unfoldable pub loop_or_leave :
      Value → ℤ → Value → SourceInfo → VarStore → SourceInfo × VarStore × OztResult
  loop_or_leave content start_line last_value s vs =
      if gt_value t content last_value
      then (let (s1, result) = advance t (record s { flow_stack = pop_frame s.flow_stack }) in
          (s1, vs, result))
      else let (s1, moved) = set_line start_line true s in
        if moved
        then (s1, vs, of_code no_problem)
        else (record s1 { flow_stack = pop_frame s1.flow_stack }, vs, of_code program_modified)

  -- `forLoopNext`
  unfoldable pub for_loop_next : Text → SourceInfo → VarStore → SourceInfo × VarStore × OztResult
  unfolding top_for text_eq is_ok loop_or_leave
  for_loop_next var_name0 s vs =
      let var_name = t.to_upper var_name0 in
      let popped = record s { flow_stack = pop_frame s.flow_stack } in
      elim (top_for s.flow_stack) [
        | none ↦ (s, vs, of_code next_without_matching_for)
        | some (x, start_line, last_value) ↦
            if not (text_eq x var_name)
            then (popped, vs, of_code next_without_matching_for)
            else (elim (VarStore.get t var_name vs) [
              | none ↦ (popped, vs, of_info var_undefined var_name)
              | some content ↦
                  let (content', result) = add t content (of_long (pos 1)) fresh in
                  if not (is_ok result.code)
                  then (popped, vs, result)
                  else loop_or_leave content' start_line last_value s
                      (VarStore.put t var_name content' vs)
            ])
      ]
