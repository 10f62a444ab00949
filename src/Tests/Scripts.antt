-- ===== src/Tests/Scripts.antt =====
-- The theorems on the commands of a file at concrete scripts.
use operations_procedure_sup.Common.{
  ◌+◌, ◌<◌, ◌≤◌, true, false, ◌≡◌, refl, arith, List, [], ◌∷◌, some, Text, codes, text_eq, ℤ, pos,
  is_space,
}
use operations_procedure_sup.Tools.{Tools, find_value}
use operations_procedure_sup.Tools.Engine.{engine, engine_upper, engine_index, match_pieces}
use operations_procedure_sup.ErrHandling.{fresh, of_code, no_problem}
use operations_procedure_sup.Misc.{is_empty_line}
use operations_procedure_sup.Value.Convert.{of_text, of_long, to_long, to_boolean}
use operations_procedure_sup.Value.Convert.Numerals.{engine-ReadsNumerals}
use operations_procedure_sup.VarStore
use operations_procedure_sup.VarStore.{VarStore, empty_store}
use operations_procedure_sup.SourceInfo.{SourceInfo, if_frame, at}
use operations_procedure_sup.SourceInfo.Comments.{strip_all_comment}
use operations_procedure_sup.SourceInfo.Lines.{is_commentary, advance, curr_cmd_at, curr_cmd_length}
use operations_procedure_sup.SourceInfo.Lines.Laws.{Moves, advance-Moves, curr_cmd_at_bounds}
use operations_procedure_sup.SourceInfo.Loops.Counting.{
  Loop, IsLoop, Holds, Runs, IsLeft, Runs-count, loop_ends, loop_endless, one_run,
}
use operations_procedure_sup.SourceInfo.{frame_type, same_type}
use operations_procedure_sup.SourceInfo.Lines.Position.{skip_else}
use operations_procedure_sup.SourceInfo.Blocks.{find_endif_statement, find_else_statement}
use operations_procedure_sup.SourceInfo.Blocks.Laws.{
  IsPlain, Opens, Closes, Body, find_endif_statement-Body,
}
use operations_procedure_sup.SourceInfo.Branches.{find_flow, if_else_setup, push_frame, line_number}
use operations_procedure_sup.SourceInfo.Branches.Laws.{starts_behind, if_else_setup-Body}
use operations_procedure_sup.SourceInfo.Labels.{gosub_label, return_from_gosub}
use operations_procedure_sup.SourceInfo.Labels.Laws.{
  with_stack, NoGosub, return_from_gosub-gosub_label,
}

abbrev pub t : Tools
t = engine

abbrev pub script : List Text
script = codes "@FOR I = 1 TO 3" ∷ codes "@TYPE I" ∷ codes "! one" ∷ codes "@NEXT I" ∷ []

abbrev pub source_of : List Text → SourceInfo
source_of lines = record {
  filename = codes "a.ops";
  text = lines;
  label_tbl = (codes "SUB", pos 4) ∷ [];
  flow_stack = [];
  curr_line = pos 0;
  stat = fresh;
  is_manual_commands = false;
}

abbrev loop_to : ℤ → Loop
loop_to last = record {
  var_name = codes "i";
  start = 1;
  next = pos 3;
  last = last;
  below = [];
  source = source_of script;
}

type_is_command : is_commentary (codes "@TYPE I") ≡ false
unfolding is_commentary is_empty_line strip_all_comment is_space
type_is_command = refl

loop_to-IsLoop : IsLoop (loop_to (pos 3))
loop_to-IsLoop = record {
  in_text = omega arith;
  command = type_is_command;
  last_long = omega arith;
}

widest-IsLoop : IsLoop (loop_to (pos 2147483647))
widest-IsLoop = record { in_text = omega arith; command = type_is_command; last_long = omega arith }

abbrev pub one_in_i : VarStore
one_in_i = record { store = (codes "I", of_long (pos 1)) ∷ []; changes = [] }

one_in_i-Holds : (last : ℤ) → Holds t (loop_to last) one_in_i (pos 1)
unfolding VarStore.get find_value text_eq engine engine_upper
one_in_i-Holds last = refl

loop_ends_example : IsLeft t (loop_to (pos 3)) 3 one_in_i
loop_ends_example =
    loop_ends t engine-ReadsNumerals (loop_to (pos 3)) loop_to-IsLoop 2 1 one_in_i refl
      (omega arith) (one_in_i-Holds (pos 3))

three_rounds : Runs t (loop_to (pos 3)) 3 one_in_i
three_rounds = one_run t engine-ReadsNumerals (loop_to (pos 3)) loop_to-IsLoop 3 one_in_i (
    loop_ends t engine-ReadsNumerals (loop_to (pos 3)) loop_to-IsLoop 2 1 one_in_i refl
      (omega arith) (one_in_i-Holds (pos 3)))

-- The body of the loop from 1 to 3 runs three times.
Runs-count_example : 3 + 1 ≡ 3 + 1
Runs-count_example =
    Runs-count t engine-ReadsNumerals (loop_to (pos 3)) loop_to-IsLoop 3 1 3 one_in_i refl
      (omega arith) (omega arith) (one_in_i-Holds (pos 3)) three_rounds

loop_endless_example : ¬ Runs t (loop_to (pos 2147483647)) 5 one_in_i
loop_endless_example =
    loop_endless t engine-ReadsNumerals (loop_to (pos 2147483647)) widest-IsLoop 5 (pos 1) one_in_i
      (omega arith) (omega arith) (one_in_i-Holds (pos 2147483647))

advance-Moves_example :
    (0 < 0 + curr_cmd_length t (at (source_of script) (pos 0)))
    × Moves
        (source_of script)
        (0 + curr_cmd_length t (at (source_of script) (pos 0)))
        (advance t (source_of script))
advance-Moves_example = advance-Moves t (source_of script) 0 (omega arith)

curr_cmd_at_bounds_example :
    (1 ≤ (curr_cmd_at t script (pos 1)).1) × (1 + (curr_cmd_at t script (pos 1)).1 ≤ 4)
curr_cmd_at_bounds_example = curr_cmd_at_bounds t script 1 (omega arith)

-- A subroutine that is called from line 0 and returns from inside an @IF.
abbrev subroutine : List Text
subroutine =
    codes "@GOSUB SUB" ∷ codes "@TYPE 1" ∷ codes "@EXIT" ∷ codes "@LABEL SUB" ∷ codes "@RETURN" ∷ []

gosub_is_command : is_commentary (codes "@GOSUB SUB") ≡ false
unfolding is_commentary is_empty_line strip_all_comment is_space
gosub_is_command = refl

sub_is_defined :
    find_value (t.to_upper (codes "sub")) (source_of subroutine).label_tbl ≡ some (pos 4)
unfolding find_value text_eq engine engine_upper
sub_is_defined = refl

if_is_NoGosub : NoGosub (if_frame (pos 3) (pos 3) (pos 4) ∷ [])
unfolding find_flow frame_type same_type
if_is_NoGosub = refl

return_from_gosub-gosub_label_example :
    let called = (gosub_label t (codes "sub") true (at (source_of subroutine) (pos 0))).0 in
    return_from_gosub t
      (with_stack (if_frame (pos 3) (pos 3) (pos 4) ∷ called.flow_stack) (at called (pos 4)))
    ≡ skip_else t (source_of subroutine)
return_from_gosub-gosub_label_example =
    return_from_gosub-gosub_label t (source_of subroutine) 0 4 (codes "sub") true
      (if_frame (pos 3) (pos 3) (pos 4) ∷ []) (pos 4) (omega arith) gosub_is_command sub_is_defined
      if_is_NoGosub

-- Two nested blocks.
abbrev pub nested : List Text
nested =
    codes "@IF A THEN"
    ∷ codes "@IF B THEN"
    ∷ codes "@TYPE 1"
    ∷ codes "@ENDIF"
    ∷ codes "@TYPE 1"
    ∷ codes "@ENDIF"
    ∷ []

inner-Opens : Opens t (codes "@IF B THEN")
unfolding engine engine_index match_pieces strip_all_comment
inner-Opens = (refl, refl)

endif-Closes : Closes t (codes "@ENDIF")
unfolding engine engine_index match_pieces strip_all_comment
endif-Closes = (refl, refl)

type-IsPlain : IsPlain t (codes "@TYPE 1")
unfolding engine engine_index match_pieces strip_all_comment
type-IsPlain = (refl, refl)

nested-Body : Body t (codes "@IF B THEN" ∷ codes "@TYPE 1" ∷ codes "@ENDIF" ∷ codes "@TYPE 1" ∷ [])
nested-Body =
    Body.block (codes "@IF B THEN") (codes "@ENDIF") (codes "@TYPE 1" ∷ []) (codes "@TYPE 1" ∷ [])
      inner-Opens (Body.plain (codes "@TYPE 1") [] type-IsPlain Body.done) endif-Closes
      (Body.plain (codes "@TYPE 1") [] type-IsPlain Body.done)

find_endif_statement-Body_example : find_endif_statement t nested 1 ≡ some (1 + 4)
find_endif_statement-Body_example =
    find_endif_statement-Body t nested
      (codes "@IF B THEN" ∷ codes "@TYPE 1" ∷ codes "@ENDIF" ∷ codes "@TYPE 1" ∷ []) []
      (codes "@ENDIF") 1 refl nested-Body endif-Closes

true_is_true : to_boolean t (of_text (codes "1")) fresh ≡ (true, of_code no_problem)
unfolding to_boolean to_long engine engine_index match_pieces
true_is_true = refl

if_else_setup-Body_example :
    let els = (find_else_statement t nested 1).0 in
    if_else_setup t (of_text (codes "1")) (source_of nested) ≡ (
      push_frame
          (if_frame (pos 0) (line_number els) (pos (1 + 4)))
          (advance t (at (source_of nested) (starts_behind true 0 els (1 + 4)))).0,
      of_code no_problem,
    )
if_else_setup-Body_example =
    if_else_setup-Body t (source_of nested) 0 (of_text (codes "1")) true
      (codes "@IF B THEN" ∷ codes "@TYPE 1" ∷ codes "@ENDIF" ∷ codes "@TYPE 1" ∷ []) []
      (codes "@ENDIF") true_is_true refl nested-Body endif-Closes
