-- ===== src/Tests/Sources.antt =====
-- The theorems on labels and on the files of the source manager at concrete ones.
use operations_procedure_sup.Common.{
  true, false, ◌≡◌, refl, List, [], ◌∷◌, some, Text, codes, text_eq, pos,
}
use operations_procedure_sup.Tools.{find_value}
use operations_procedure_sup.Tools.Engine.{engine, engine_upper, engine_index, match_pieces}
use operations_procedure_sup.ErrHandling.{OztResult}
use operations_procedure_sup.Misc.{trim}
use operations_procedure_sup.SourceInfo.{SourceInfo}
use operations_procedure_sup.SourceInfo.Comments.{strip_all_comment}
use operations_procedure_sup.SourceInfo.Labels.{label_of}
use operations_procedure_sup.SourceInfo.Load.{FileRead, read_lines}
use operations_procedure_sup.SourceInfo.Load.Laws.{defines, none_defines, find_value-defined_once}
use operations_procedure_sup.Flow.{flow_of, end_of_file}
use operations_procedure_sup.SourceMgr.{System, SourceMgr, Active, is_active}
use operations_procedure_sup.SourceMgr.Advance.{advance_mgr, include_file}
use operations_procedure_sup.SourceMgr.Advance.Laws.{advance_mgr-total}
use operations_procedure_sup.SourceMgr.Advance.Includes.{
  AreDistinct, loaded_behind, include_file-AreDistinct,
}
use operations_procedure_sup.Tests.Scripts.{t, script, source_of, one_in_i, nested}

-- A file without more files below it, and a system that has no files.
abbrev bare_system : System
bare_system = record { tools = t; normalise_path = λ s. s; read_file = λ s. FileRead.refused s }

abbrev one_file : SourceMgr
one_file = record {
  curr_source = some (source_of script);
  source_stack = source_of nested ∷ [];
  varstore = one_in_i;
  err_handler = record { err_flag = false; checking = false };
}

one_file-is_active : is_active one_file ≡ true
unfolding is_active
one_file-is_active = refl

advance_mgr-total_example :
    (p : SourceMgr × OztResult) × (advance_mgr bare_system (flow_of end_of_file) one_file ≡ some p)
advance_mgr-total_example =
    advance_mgr-total bare_system (flow_of end_of_file) one_file one_file-is_active

-- A line that defines the label SUB.
abbrev label_line : Text
label_line = codes "@LABEL SUB"

sub_line : defines t (codes "SUB") label_line ≡ true
unfolding label_of engine engine_upper engine_index match_pieces strip_all_comment text_eq trim
sub_line = refl

type_line : none_defines t (codes "SUB") (codes "@TYPE 1" ∷ []) ≡ true
unfolding label_of engine engine_upper engine_index match_pieces strip_all_comment text_eq trim
type_line = refl

find_value-defined_once_example :
    find_value
      (codes "SUB")
      (read_lines t 0 (codes "@TYPE 1" ∷ (label_line ∷ (codes "@TYPE 1" ∷ []))) []).1
    ≡ some (pos 2)
find_value-defined_once_example =
    find_value-defined_once t (codes "SUB") label_line (codes "@TYPE 1" ∷ []) (codes "@TYPE 1" ∷ [])
      type_line sub_line type_line

-- A file in which two lines define SUB.
abbrev twice : List Text
twice = codes "@TYPE 1" ∷ (label_line ∷ (codes "@TYPE 1" ∷ (label_line ∷ [])))

abbrev with_labels : SourceInfo
with_labels = record (source_of twice) { label_tbl = (read_lines t 0 twice []).1 }

-- A system in which every file holds one command.
abbrev one_command : FileRead
one_command = FileRead.contents (codes "@TYPE 1" ∷ []) []

abbrev full_system : System
full_system = record { tools = t; normalise_path = λ s. s; read_file = λ s. one_command }

abbrev active : Active
active = record {
  curr = source_of script;
  stack = [];
  vars = one_in_i;
  handler = record { err_flag = false; checking = false };
}

include_file-AreDistinct_example :
    AreDistinct (loaded_behind (include_file full_system (codes "b.ops") active))
include_file-AreDistinct_example =
    include_file-AreDistinct full_system (codes "b.ops") active (tt, tt)
