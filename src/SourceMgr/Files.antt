-- ===== src/SourceMgr/Files.antt =====
-- The sources that are loaded: finding one, creating one, pushing and popping, and `setCurrPos`.
pub mod Laws
use operations_procedure_sup.Common.{
  Bool, false, not, ◌||◌, List, [], ◌∷◌, Option, none, some, Text, text_eq, if◌then◌else◌, ℤ, pos,
  ltb_ℤ,
}
use operations_procedure_sup.ErrHandling.{
  OztResult, fresh, of_code, no_problem, program_terminated, invalid_line_no, cyclic_include_err,
  file_not_loaded, is_ok,
}
use operations_procedure_sup.SourceInfo.{SourceInfo}
use operations_procedure_sup.SourceInfo.Lines.Position.{set_line}
use operations_procedure_sup.SourceInfo.Labels.{goto_label, line_label}
use operations_procedure_sup.SourceInfo.Load.{file_source}
use operations_procedure_sup.SourceInfo.Loops.{for_loop_index_used}
use operations_procedure_sup.SourceMgr.{System, SourceMgr}

-- A source of the stack with this name, and the sources below it; the last of the vector first.
unfoldable pub find_in_stack : Text → List SourceInfo → Option (SourceInfo × List SourceInfo)
unfolding text_eq
find_in_stack name [] = none
find_in_stack name (s ∷ ss) =
    if text_eq s.filename name then some (s, ss) else find_in_stack name ss

-- The current source and then the stack; with no current source the stack alone.
unfoldable pub all_sources : SourceMgr → List SourceInfo
all_sources m = elim m.curr_source [ none ↦ m.source_stack | some s ↦ s ∷ m.source_stack ]

-- `findByFilename`, with the sources below the one found.
unfoldable pub find_by_filename : Text → SourceMgr → Option (SourceInfo × List SourceInfo)
unfolding find_in_stack all_sources
find_by_filename name m = find_in_stack name (all_sources m)

-- `popFile`, on a stack that is not empty.
unfoldable pub pop_file : SourceMgr → SourceMgr
pop_file m = elim m.source_stack [
  | [] ↦ m
  | s ∷ ss ↦ record m { curr_source = some s; source_stack = ss }
]

-- `pushFile`
unfoldable pub push_file : SourceInfo → SourceMgr → SourceMgr
unfolding all_sources
push_file s m = record m { curr_source = some s; source_stack = all_sources m }

-- `clearAllSourceInfo`
unfoldable pub clear_all_source_info : SourceMgr → SourceMgr
clear_all_source_info m = record m { curr_source = none; source_stack = [] }

unfoldable pub any_index_used : Text → List SourceInfo → Bool
unfolding for_loop_index_used
any_index_used var_name [] = false
any_index_used var_name (s ∷ ss) =
    for_loop_index_used var_name s.flow_stack || any_index_used var_name ss

-- The search of `findFileByForLoopIdx` in the stack, from its first element, the bottom; an empty
-- name is the null string.
unfoldable pub stack_file_by_idx : Text → List SourceInfo → Text
unfolding for_loop_index_used any_index_used
stack_file_by_idx var_name [] = []
stack_file_by_idx var_name (s ∷ ss) =
    let rest = stack_file_by_idx var_name ss in
    if any_index_used var_name ss
    then rest
    else if for_loop_index_used var_name s.flow_stack
    then s.filename
    else []

-- `findFileByForLoopIdx`
unfoldable pub find_file_by_for_loop_idx : Text → SourceInfo → List SourceInfo → Text
unfolding for_loop_index_used stack_file_by_idx
find_file_by_for_loop_idx var_name curr stack =
    if for_loop_index_used var_name curr.flow_stack
    then curr.filename
    else stack_file_by_idx var_name stack

module _ (sys : System) where
  -- `createSource`: the new source if the result is NO_PROBLEM.
  unfoldable pub create_source : Text → SourceMgr → Option SourceInfo × OztResult
  unfolding is_ok
  create_source file_name m =
      let path_name = sys.normalise_path file_name in
      elim (find_by_filename path_name m) [
        | some _ ↦ (none, of_code cyclic_include_err)
        | none ↦
            let temp_source = file_source sys.tools path_name (sys.read_file path_name) in
            if not (is_ok temp_source.stat.code)
            then (none, temp_source.stat)
            else (some temp_source, temp_source.stat)
      ]

  -- The part of `setCurrPos` for a file that is not loaded.
  unfoldable pub load_at : Text → ℤ → Bool → SourceMgr → SourceMgr × OztResult
  unfolding clear_all_source_info push_file
  load_at path_name line skip_comments m =
      let (made, result) = create_source path_name m in
      elim made [
        | none ↦ (m, result)
        | some temp_source ↦
            let (s1, moved) = set_line line skip_comments temp_source in
            if not moved
            then (m, of_code invalid_line_no)
            else (push_file s1 (clear_all_source_info m), of_code no_problem)
      ]

  -- The store behind `setLine` on a loaded source that could not be moved: the source keeps its
  -- place, with the position that `setLine` left.
  unfoldable pub replace_source : Text → SourceInfo → List SourceInfo → List SourceInfo
  unfolding text_eq
  replace_source name s1 [] = []
  replace_source name s1 (s ∷ ss) =
      if text_eq s.filename name then s1 ∷ ss else s ∷ replace_source name s1 ss

  unfoldable pub with_sources : List SourceInfo → SourceMgr → SourceMgr
  with_sources [] m = m
  with_sources (s ∷ ss) m = elim m.curr_source [
    | none ↦ record m { source_stack = s ∷ ss }
    | some _ ↦ record m { curr_source = some s; source_stack = ss }
  ]

  -- `setCurrPos(filename, line, skip_comments)`. The files above the one found are popped.
  unfoldable pub set_curr_pos : Text → ℤ → Bool → SourceMgr → SourceMgr × OztResult
  unfolding replace_source with_sources all_sources
  set_curr_pos filename line skip_comments m =
      if ltb_ℤ line (pos 0)
      then (m, of_code program_terminated)
      else let path_name = sys.normalise_path filename in
        elim (find_by_filename path_name m) [
          | none ↦ load_at path_name line skip_comments m
          | some (temp_source, below) ↦
              let (s1, moved) = set_line line skip_comments temp_source in
              if not moved
              then (
                with_sources (replace_source path_name s1 (all_sources m)) m,
                of_code invalid_line_no,
              )
              else (record m { curr_source = some s1; source_stack = below }, of_code no_problem)
        ]

  -- `setCurrPos(filename, label, skip_comments)`
  unfoldable pub set_curr_pos_label : Text → Text → Bool → SourceMgr → SourceMgr × OztResult
  unfolding is_ok
  set_curr_pos_label filename label skip_comments m =
      let (m1, result) = set_curr_pos filename (pos 0) skip_comments m in
      if is_ok result.code
      then (elim m1.curr_source [
        | none ↦ (m1, result)
        | some s ↦
            let (s1, result1) = goto_label sys.tools label s in
            (record m1 { curr_source = some s1 }, result1)
      ])
      else (m1, result)

  -- `getLabelLine`
  unfoldable pub get_label_line : Text → SourceMgr → Option ℤ × OztResult
  get_label_line label m = elim m.curr_source [
    | none ↦ (none, record fresh { code = file_not_loaded })
    | some s ↦ line_label sys.tools label s
  ]
