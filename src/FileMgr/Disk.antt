-- ===== src/FileMgr/Disk.antt =====
-- The operations of OZT_FileMgr.C on files and directories.
use operations_procedure_sup.Common.{
  ℕ, suc, Bool, true, false, not, List, [], ◌∷◌, ◌++◌, Option, none, some, Text, text_eq,
  if◌then◌else◌, length, get_or, ℤ, pos, ltb_ℤ, minus_one, eqb_ℤ, ◌+ℤ◌, inl, inr, ◌==◌,
}
use operations_procedure_sup.Tools.{Tools, found}
use operations_procedure_sup.ErrHandling.{
  OztResult, fresh, of_code, of_info, no_problem, file_op_err, invalid_value, path_is_dir, failed,
}
use operations_procedure_sup.Value.Words.{wrap64}
use operations_procedure_sup.Value.Convert.{atol}
use operations_procedure_sup.SourceInfo.Load.{refused, contents}
use operations_procedure_sup.FileMgr.{
  Failure, FileSystem, FileMgr, is_null, answer, is_dir, line_number_pattern,
}

-- `last('/')`: the text behind the last slash, or all of it.
unfoldable pub behind_last_slash : Text → Text
behind_last_slash [] = []
behind_last_slash (c ∷ cs) = after_slash c cs (behind_last_slash cs)
  where
    has_slash : Text → Bool
    has_slash [] = false
    has_slash (c ∷ cs) = if c == b'/' then true else has_slash cs

    after_slash : ℕ → Text → Text → Text
    after_slash c cs rest = if has_slash cs then rest else if c == b'/' then cs else c ∷ cs

-- A path that ends with a slash; reading the last byte of an empty path is a bounds error.
abbrev pub with_slash : Text → Option Text
with_slash [] = none
with_slash (c ∷ cs) =
    some (if get_or (c ∷ cs) (length cs) 0 == b'/' then c ∷ cs else (c ∷ cs) ++ b'/' ∷ [])

-- The offset of a line, counted from 1, in a file that `readLine` reads as these lines; -1 when
-- there are not enough lines.
unfoldable pub line_offset : List Text → ℤ → ℤ → ℤ → ℤ
line_offset [] i line_nr offset = if ltb_ℤ i line_nr then minus_one else offset
line_offset (l ∷ ls) i line_nr offset =
    let rest = line_offset ls (i +ℤ pos 1) line_nr (wrap64 (offset +ℤ pos (suc (length l)))) in
    if ltb_ℤ i line_nr then rest else offset

-- How often `getFileLength` reads until the end of the file is met.
unfoldable pub reads_to_eof : Bool → List Text → ℕ
reads_to_eof meets [] = 1
reads_to_eof meets (l ∷ ls) = if meets then suc (length ls) else suc (suc (length ls))

module _ {W : Type 0} (fs : FileSystem W) where
  -- `getDir`
  unfoldable pub get_dir : FileMgr W → Option Text
  get_dir m = with_slash (fs.curr_dir m.world)

  -- The result of a call that may fail.
  abbrev pub outcome : Option Failure × W → FileMgr W → OztResult × FileMgr W
  outcome (none, w) m = answer (of_code no_problem) (record m { world = w })
  outcome (some failure, w) m = answer (of_info failed failure.message) (record m { world = w })

  -- The result of a call for which one error is no problem.
  abbrev pub outcome_but : (Failure → Bool) → Option Failure × W → FileMgr W → OztResult × FileMgr W
  outcome_but fine (none, w) m = answer (of_code no_problem) (record m { world = w })
  outcome_but fine (some failure, w) m =
      answer (if fine failure then of_code no_problem else of_info failed failure.message)
        (record m { world = w })

  -- `chDir`
  unfoldable pub ch_dir : Text → FileMgr W → OztResult × FileMgr W
  ch_dir dir m = outcome (fs.chdir (fs.normalise_path dir) m.world) m

  -- `rmFile`
  unfoldable pub rm_file : Text → FileMgr W → OztResult × FileMgr W
  rm_file name m =
      let full = fs.normalise_path name in
      let m1 =
        if text_eq m.stored_file_name full
        then record m {
          stored_file_name = [];
          stored_file = record m.stored_file { is_open = false };
        }
        else m in
      elim (fs.stat full m.world) [
        | inr true ↦ answer (of_code path_is_dir) m1
        | inr false ↦ outcome (fs.unlink full m.world) m1
        | inl failure ↦
            answer (if failure.enoent then of_code no_problem else of_info failed failure.message)
              m1
      ]

  -- `getFileLength`: the name is asked for as it is, and not normalised.
  unfoldable pub get_file_length : Text → FileMgr W → (ℕ × OztResult) × FileMgr W
  get_file_length name m =
      let (null_name, m1) = answer (of_code file_op_err) m in
      let (a_dir, m2) = answer (of_code path_is_dir) m in
      if is_null name
      then ((0, null_name), m1)
      else if is_dir fs name m
      then ((0, a_dir), m2)
      else elim (fs.read_file name m.world) [
        | refused reason ↦ let (r, m3) = answer (of_info file_op_err reason) m in ((0, r), m3)
        | contents ls left ↦
            let (r, m3) = answer (of_code no_problem) m in
            ((reads_to_eof (fs.meets_eof name m.world) ls, r), m3)
      ]

  -- `mkDir`
  unfoldable pub mk_dir : Text → FileMgr W → OztResult × FileMgr W
  mk_dir dir m =
      let full = fs.normalise_path dir in
      let made = outcome_but (λ failure. failure.eexist) (fs.mkdir full m.world) m in
      elim (fs.stat full m.world) [
        | inr false ↦ answer (of_code file_op_err) m
        | inr true ↦ made
        | inl failure ↦ made
      ]

  -- `rmDir`
  unfoldable pub rm_dir : Text → FileMgr W → OztResult × FileMgr W
  rm_dir dir m =
      outcome_but (λ failure. failure.enoent) (fs.rmdir (fs.normalise_path dir) m.world) m

  -- The new name in `reNameFile`: a file goes into a directory under its own name.
  unfoldable pub target_name : Text → Text → FileMgr W → Option Text
  unfolding behind_last_slash
  target_name old new m = elim (fs.stat old m.world) [
    | inr false ↦ elim (fs.stat new m.world) [
      | inr true ↦ elim (with_slash new) [
        | none ↦ none
        | some dir ↦ some (dir ++ behind_last_slash old)
      ]
      | _ ↦ some new
    ]
    | _ ↦ some new
  ]

  -- `reNameFile`
  unfoldable pub re_name_file : Text → Text → FileMgr W → Option (OztResult × FileMgr W)
  unfolding target_name
  re_name_file old_name new_name m =
      let old = fs.normalise_path old_name in
      elim (target_name old (fs.normalise_path new_name) m) [
        | none ↦ none
        | some new ↦
            let renamed = outcome (fs.rename old new m.world) m in
            elim (fs.access new m.world) [
              | none ↦ some renamed
              | some failure ↦
                  if failure.enoent
                  then some renamed
                  else some (answer (of_info failed failure.message) m)
            ]
      ]

  -- `getOffset`: 0 when the file cannot be opened.
  unfoldable pub get_offset : Text → ℤ → W → ℤ
  unfolding line_offset
  get_offset name line_nr w = elim (fs.read_file name w) [
    | refused reason ↦ pos 0
    | contents ls left ↦ line_offset ls (pos 1) line_nr (pos 0)
  ]

  -- The end of `writeLine`, with the file open: the rights of a new file, and the text.
  unfoldable pub write_out : Bool → Text → Text → FileMgr W → OztResult × FileMgr W
  write_out file_exists name text m =
      let write_text : FileMgr W → OztResult × FileMgr W = λ m1.
        let (wrong, w) = fs.write text m1.world in
        elim wrong [
          | none ↦ (of_code no_problem, record m1 { world = fs.close w })
          | some failure ↦
              answer (of_info failed failure.message) (record m1 { world = fs.close w })
        ] in
      let (wrong, w) = fs.chmod name m.world in
      let new_file : OztResult × FileMgr W = elim wrong [
        | none ↦ write_text (record m { world = w })
        | some failure ↦
            let (r, m1) = answer (of_info failed failure.message) (record m { world = w }) in
            (r, record m1 { world = fs.close m1.world })
      ] in
      if file_exists then write_text m else new_file

  -- The two ways in which `writeLine` opens the file.
  unfoldable pub write_at : Bool → Text → ℤ → Text → FileMgr W → OztResult × FileMgr W
  unfolding write_out
  write_at file_exists name offset text m =
      let (not_open, w) = fs.open_write name m.world in
      let (not_there, w1) = fs.lseek offset w in
      elim not_open [
        | some failure ↦ answer (of_info failed failure.message) (record m { world = w })
        | none ↦ elim not_there [
          | some failure ↦
              let (r, m1) = answer (of_info failed failure.message) (record m { world = w1 }) in
              (r, record m1 { world = fs.close m1.world })
          | none ↦ write_out file_exists name text (record m { world = w1 })
        ]
      ]

  unfoldable pub write_behind : Bool → Text → Text → FileMgr W → OztResult × FileMgr W
  unfolding write_out
  write_behind file_exists name text m =
      let (not_open, w) = fs.open_append name m.world in
      elim not_open [
        | some failure ↦ answer (of_info failed failure.message) (record m { world = w })
        | none ↦ write_out file_exists name text (record m { world = w })
      ]

  -- `writeLine`
  unfoldable pub write_line : Tools → Text → Text → Text → FileMgr W → OztResult × FileMgr W
  unfolding get_offset write_at write_behind
  write_line t file_name line_nr str m =
      let name = fs.normalise_path file_name in
      let text = str ++ 10 ∷ [] in
      let file_exists : Bool = elim (fs.stat name m.world) [
        | inl failure ↦ false
        | inr dir ↦ true
      ] in
      let invalid = answer (record fresh { code = invalid_value }) m in
      let offset = get_offset name (atol line_nr) m.world in
      if is_null line_nr
      then write_behind file_exists name text m
      else if not (found (t.index line_number_pattern line_nr 0))
      then invalid
      else if eqb_ℤ offset minus_one
      then invalid
      else write_at file_exists name offset text m
