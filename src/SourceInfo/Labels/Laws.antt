-- ===== src/SourceInfo/Labels/Laws.antt =====
-- @GOSUB and @RETURN: the commands between them may move and push frames as they like.
use operations_procedure_sup.Common.{
  ℕ, zero, suc, ◌<◌, Bool, true, false, ◌≡◌, refl, ap, sym, ◌∙◌, arith, List, [], ◌∷◌, ◌++◌, none,
  some, Text, if◌then◌else◌, length, ℤ, pos, ◌-ℤ◌, ltb_ℤ,
}
use operations_procedure_sup.Tools.{Tools, find_value}
use operations_procedure_sup.ErrHandling.{OztResult, of_code, no_problem, is_ok}
use operations_procedure_sup.SourceInfo.{
  SourceInfo, Frame, if_frame, switch_frame, gosub_frame, for_loop_frame, gosub_type, at, line_at,
  frame_type, same_type,
}
use operations_procedure_sup.SourceInfo.Lines.{
  is_commentary, advance, get_curr_cmd_text, skip_commentry_lines, settle, curr_cmd_length,
  curr_cmd,
}
use operations_procedure_sup.SourceInfo.Lines.Position.{skip_else, skip_else_loop}
use operations_procedure_sup.SourceInfo.Lines.Position.Laws.{set_line_here}
use operations_procedure_sup.SourceInfo.Branches.{find_flow, push_frame}
use operations_procedure_sup.SourceInfo.Loops.{pop_frame}
use operations_procedure_sup.SourceInfo.Labels.{
  unwind_to_gosub, skips_else, gosub_line, gosub_label, resume, return_from_gosub,
}

-- The source with another stack, and a result of a move with it.
abbrev pub with_stack : List Frame → SourceInfo → SourceInfo
with_stack fs s = record s { flow_stack = fs }

abbrev pub result_with_stack : List Frame → SourceInfo × OztResult → SourceInfo × OztResult
result_with_stack fs (s, r) = (with_stack fs s, r)

-- No @GOSUB is open among these frames.
abbrev pub NoGosub : List Frame → Type 0
NoGosub above = find_flow gosub_type above ≡ none

unwind-above :
    (above fs : List Frame) (n : ℤ) (flag : Bool)
    → NoGosub above
    → unwind_to_gosub (above ++ gosub_frame n flag ∷ fs) ≡ gosub_frame n flag ∷ fs
unfolding unwind_to_gosub find_flow frame_type same_type
unwind-above [] fs n flag h = refl
unwind-above (if_frame a b c ∷ above) fs n flag h = unwind-above above fs n flag h
unwind-above (switch_frame a ∷ above) fs n flag h = unwind-above above fs n flag h
unwind-above (for_loop_frame x a b c ∷ above) fs n flag h = unwind-above above fs n flag h
unwind-above (gosub_frame a b ∷ above) fs n flag h = cc h

find_flow-above :
    (above fs : List Frame) (n : ℤ) (flag : Bool)
    → NoGosub above
    → find_flow gosub_type (above ++ gosub_frame n flag ∷ fs) ≡ some (gosub_frame n flag)
unfolding find_flow frame_type same_type
find_flow-above [] fs n flag h = refl
find_flow-above (if_frame a b c ∷ above) fs n flag h = find_flow-above above fs n flag h
find_flow-above (switch_frame a ∷ above) fs n flag h = find_flow-above above fs n flag h
find_flow-above (for_loop_frame x a b c ∷ above) fs n flag h = find_flow-above above fs n flag h
find_flow-above (gosub_frame a b ∷ above) fs n flag h = cc h

not_negative : (n : ℕ) → ltb_ℤ (pos n) (pos 0) ≡ false
not_negative n = ground arith

module _ (t : Tools) where
  advance-with_stack :
      (fs : List Frame) (s : SourceInfo)
      → advance t (with_stack fs s) ≡ result_with_stack fs (advance t s)
  unfolding advance settle skip_commentry_lines curr_cmd_length curr_cmd
  advance-with_stack fs s = ground arith

  get_curr_cmd_text-with_stack :
      (fs : List Frame) (s : SourceInfo)
      → get_curr_cmd_text t true (with_stack fs s) ≡ (
        (get_curr_cmd_text t true s).0,
        with_stack fs (get_curr_cmd_text t true s).1,
        (get_curr_cmd_text t true s).2,
      )
  unfolding get_curr_cmd_text skip_commentry_lines curr_cmd
  get_curr_cmd_text-with_stack fs s = ground arith

  skip_else_loop-with_stack :
      (f : ℕ) (start : ℤ) (fs : List Frame) (s : SourceInfo)
      → skip_else_loop t f start (with_stack fs s)
        ≡ result_with_stack fs (skip_else_loop t f start s)
  unfolding skip_else_loop is_ok
  skip_else_loop-with_stack zero start fs s = refl
  skip_else_loop-with_stack (suc f) start fs s =
      let blk = get_curr_cmd_text t true (advance t s).0 in
      rw
        (
          advance-with_stack fs s,
          get_curr_cmd_text-with_stack fs (advance t s).0,
          skip_else_loop-with_stack f start fs blk.1,
        )
        (ground arith)

  skip_else-with_stack :
      (fs : List Frame) (s : SourceInfo)
      → skip_else t (with_stack fs s) ≡ result_with_stack fs (skip_else t s)
  unfolding skip_else
  skip_else-with_stack fs s = skip_else_loop-with_stack (suc (length s.text)) s.curr_line fs s

  -- Where @RETURN goes on, seen from the source in front of its @GOSUB.
  abbrev pub behind_gosub : Bool → SourceInfo → SourceInfo × OztResult
  behind_gosub flag s = if flag then skip_else t s else advance t s

  behind_gosub-with_stack :
      (flag : Bool) (fs : List Frame) (s : SourceInfo)
      → behind_gosub flag (with_stack fs s) ≡ result_with_stack fs (behind_gosub flag s)
  behind_gosub-with_stack true fs s = skip_else-with_stack fs s
  behind_gosub-with_stack false fs s = advance-with_stack fs s

  resume-at :
      (s : SourceInfo) (n : ℕ) (here : ℤ) (flag : Bool) (fs : List Frame)
      → n < length s.text
      → is_commentary (line_at s.text n) ≡ false
      → resume t (gosub_frame (pos n) flag) (with_stack fs (at s here))
        ≡ result_with_stack fs (behind_gosub flag (at s (pos n)))
  unfolding resume skips_else gosub_line
  resume-at s n here flag fs inside command =
      rw (set_line_here (with_stack fs (at s here)) n inside command)
        (behind_gosub-with_stack flag fs (at s (pos n)))

  gosub_label-defined :
      (s : SourceInfo) (target : ℕ) (label : Text) (flag : Bool)
      → find_value (t.to_upper label) s.label_tbl ≡ some (pos target)
      → gosub_label t label flag s ≡ (
        at (push_frame (gosub_frame s.curr_line flag) s) (pos target -ℤ pos 1),
        of_code no_problem,
      )
  unfolding gosub_label
  gosub_label-defined s target label flag defined =
      rw (defined, not_negative target, gosub_label) refl

  return_at :
      (s : SourceInfo) (n : ℕ) (here : ℤ) (flag : Bool) (above : List Frame)
      → n < length s.text
      → is_commentary (line_at s.text n) ≡ false
      → NoGosub above
      → return_from_gosub t
          (with_stack (above ++ gosub_frame (pos n) flag ∷ s.flow_stack) (at s here))
        ≡ behind_gosub flag (at s (pos n))
  unfolding return_from_gosub
  return_at s n here flag above inside command no_gosub =
      let all = above ++ gosub_frame (pos n) flag ∷ s.flow_stack in
      rw
        (
          find_flow-above above s.flow_stack (pos n) flag no_gosub,
          resume-at s n here flag all inside command,
          return_from_gosub,
        )
        (ap (λ fs. result_with_stack (pop_frame fs) (behind_gosub flag (at s (pos n))))
            (unwind-above above s.flow_stack (pos n) flag no_gosub)
          ∙ sym (behind_gosub-with_stack flag s.flow_stack (at s (pos n))))

  -- @GOSUB to a label that is defined once, and @RETURN from anywhere with any frames but @GOSUB
  -- ones opened in between: execution goes on as if the @GOSUB had been passed over, with the stack
  -- that there was then.
  pub return_from_gosub-gosub_label :
      (s : SourceInfo) (n target : ℕ) (label : Text) (flag : Bool) (above : List Frame) (here : ℤ)
      → n < length s.text
      → is_commentary (line_at s.text n) ≡ false
      → find_value (t.to_upper label) s.label_tbl ≡ some (pos target)
      → NoGosub above
      → let called = (gosub_label t label flag (at s (pos n))).0 in
        return_from_gosub t (with_stack (above ++ called.flow_stack) (at called here))
        ≡ behind_gosub flag (at s (pos n))
  return_from_gosub-gosub_label s n target label flag above here inside command defined no_gosub =
      rw (gosub_label-defined (at s (pos n)) target label flag defined)
        (return_at s n here flag above inside command no_gosub)
