-- ===== src/SourceInfo.antt =====
-- ops-enm-parser/src/main/cpp/parse/OZT_SourceInfo: one loaded command file, its position and the
-- stack of the constructs that are open. Line numbers count from 0, and -1 is "no line".
pub mod Patterns
pub mod Comments
pub mod Lines
pub mod Blocks
pub mod Branches
pub mod Loops
pub mod Labels
pub mod Load
use operations_procedure_sup.Common.{
  ℕ, suc, Bool, true, false, ◌&&◌, List, [], ◌∷◌, Option, none, some, Text, text_eq, ℤ, pos, negsuc,
  ltb, ◌==◌, eqb_ℤ, if◌then◌else◌, get_or, length, ◌≡◌,
}
use operations_procedure_sup.Tools.{Dict}
use operations_procedure_sup.ErrHandling.{OztResult}
use operations_procedure_sup.Value.Convert.{Value}

-- `FlowFrameType`
pub data FlowFrameType : Type 0 where
  gosub_type for_loop_type if_type switch_type : FlowFrameType

-- `OZT_FlowStackFrame` and its four classes.
pub data Frame : Type 0 where
  -- `OZT_IfStackFrame`: the lines of @IF, @ELSE and @ENDIF.
  if_frame : ℤ → ℤ → ℤ → Frame
  -- `OZT_SwitchStackFrame`: the line of @ENDSWITCH.
  switch_frame : ℤ → Frame
  -- `OZT_GosubStackFrame`: the line of @GOSUB, and whether to skip @ELSE commands on return.
  gosub_frame : ℤ → Bool → Frame
  -- `OZT_ForLoopStackFrame`: the variable, the first line of the body, the line of @NEXT and the
  -- last value.
  for_loop_frame : Text → ℤ → ℤ → Value → Frame

-- `type()`
unfoldable pub frame_type : Frame → FlowFrameType
frame_type (if_frame _ _ _) = if_type
frame_type (switch_frame _) = switch_type
frame_type (gosub_frame _ _) = gosub_type
frame_type (for_loop_frame _ _ _ _) = for_loop_type

unfoldable pub same_type : FlowFrameType → FlowFrameType → Bool
same_type gosub_type gosub_type = true
same_type for_loop_type for_loop_type = true
same_type if_type if_type = true
same_type switch_type switch_type = true
same_type _ _ = false

unfoldable pub same_flag : Bool → Bool → Bool
same_flag true b = b
same_flag false true = false
same_flag false false = true

-- `operator==` of the frames.
unfoldable pub frame_eq : Frame → Frame → Bool
unfolding same_flag text_eq
frame_eq (if_frame a b c) (if_frame a' b' c') = eqb_ℤ a a' && (eqb_ℤ b b' && eqb_ℤ c c')
frame_eq (switch_frame a) (switch_frame a') = eqb_ℤ a a'
frame_eq (gosub_frame a s) (gosub_frame a' s') = eqb_ℤ a a' && same_flag s s'
frame_eq (for_loop_frame x a b v) (for_loop_frame x' a' b' v') =
    text_eq x x' && (eqb_ℤ a a' && (eqb_ℤ b b' && text_eq v.chars v'.chars))
frame_eq _ _ = false

-- `OZT_SourceInfo`. The vector `flowStack` is kept with its last element first.
pub record SourceInfo : Type 0 where
  pub filename : Text
  pub text : List Text
  pub label_tbl : Dict ℤ
  pub flow_stack : List Frame
  pub curr_line : ℤ
  pub stat : OztResult
  pub is_manual_commands : Bool

-- `text[n]`. No line is read out of range by a source in a valid state; a reading out of range is
-- a bounds error of the vector, and the empty text here.
abbrev pub line_at : List Text → ℕ → Text
line_at lines n = get_or lines n []

-- `currLine < text.entries()`: compared as unsigned numbers, so false of -1.
abbrev pub below_entries : ℤ → List Text → Bool
below_entries (pos n) lines = ltb n (length lines)
below_entries (negsuc _) lines = false

-- The source with its position at a line.
abbrev pub at : SourceInfo → ℤ → SourceInfo
at s z = record s { curr_line = z }

pub at_lem : (s : SourceInfo) (z : ℤ) → s.curr_line ≡ z → s ≡ at s z
at_lem s z e = λ i. record s { curr_line = e i }
