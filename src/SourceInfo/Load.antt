-- ===== src/SourceInfo/Load.antt =====
-- Loading a command file, or the lines of a manual command entry: `load`, the constructors, and
-- `update`. What the stream gives is an input.
pub mod Laws
use operations_procedure_sup.Common.{
  ℕ, zero, suc, Bool, true, false, not, List, [], ◌∷◌, ◌++◌, Option, none, some, Text, ◌==◌,
  if◌then◌else◌, ℤ, pos, minus_one, length,
}
use operations_procedure_sup.Tools.{Tools, Dict}
use operations_procedure_sup.ErrHandling.{
  OztResult, fresh, of_code, of_info, no_problem, hit_eof, file_open_err, no_executable_code, is_ok,
}
use operations_procedure_sup.Misc.{trim}
use operations_procedure_sup.SourceInfo.{SourceInfo, below_entries}
use operations_procedure_sup.SourceInfo.Lines.{skip_commentry_lines}
use operations_procedure_sup.SourceInfo.Lines.Position.{adjust_curr_line}
use operations_procedure_sup.SourceInfo.Labels.{find_and_insert_label}

-- What the file system answers: the reason why the file cannot be opened, or the lines for which
-- `readLine` succeeds and the text that it leaves behind when it fails.
pub data FileRead : Type 0 where
  refused : Text → FileRead
  contents : List Text → Text → FileRead

-- `strip(RWCString::trailing, c)`, in front of the stripped rest.
unfoldable pub strip_trailing : ℕ → Text → Text
strip_trailing c [] = []
strip_trailing c (x ∷ xs) = elim (strip_trailing c xs) [
  | [] ↦ if x == c then [] else x ∷ []
  | y ∷ ys ↦ x ∷ y ∷ ys
]

-- The lines that `load(lines)` keeps.
unfoldable pub manual_lines : List Text → List Text
unfolding strip_trailing
manual_lines [] = []
manual_lines (l ∷ ls) = elim (strip_trailing b'\r' (strip_trailing b'\n' l)) [
  | [] ↦ manual_lines ls
  | c ∷ cs ↦ (c ∷ cs) ∷ manual_lines ls
]

-- A source before anything is loaded.
abbrev pub unloaded : Text → Bool → SourceInfo
unloaded name manual = record {
  filename = name;
  text = [];
  label_tbl = [];
  flow_stack = [];
  curr_line = minus_one;
  stat = fresh;
  is_manual_commands = manual;
}

-- `load(lines)`
unfoldable pub load_manual : List Text → SourceInfo → SourceInfo
unfolding manual_lines
load_manual lines s = record s { text = manual_lines lines; stat = of_code no_problem }

-- What both constructors do behind `load`: the position is the first line that is no commentary.
unfoldable pub to_first_line : SourceInfo → SourceInfo
unfolding is_ok
to_first_line s =
    if not (is_ok s.stat.code)
    then s
    else let s1 = skip_commentry_lines (record s { curr_line = pos 0 }) in
      if below_entries s1.curr_line s1.text
      then record s1 { stat = of_code no_problem }
      else record s1 { curr_line = minus_one; stat = of_code hit_eof }

-- `OZT_SourceInfo(theVarStore, lines)`
unfoldable pub manual_source : List Text → SourceInfo
unfolding load_manual to_first_line
manual_source lines = to_first_line (load_manual lines (unloaded [] true))

module _ (t : Tools) where
  -- The reading loop of `load`: each line is trimmed, and its label is entered under the number
  -- of the line counted from 1. `n` counts the lines before.
  unfoldable pub read_lines : ℕ → List Text → Dict ℤ → List Text × Dict ℤ
  read_lines n [] tbl = ([], tbl)
  read_lines n (l ∷ ls) tbl =
      let line = trim l in
      let (rest, tbl') = read_lines (suc n) ls (find_and_insert_label t line (pos (suc n)) tbl) in
      (line ∷ rest, tbl')

  -- The text behind the last newline is a line too, unless it is empty; it is not trimmed.
  unfoldable pub with_last : List Text × Dict ℤ → Text → List Text × Dict ℤ
  with_last (lines, tbl) [] = (lines, tbl)
  with_last (lines, tbl) (c ∷ cs) =
      (lines ++ (c ∷ cs) ∷ [], find_and_insert_label t (c ∷ cs) (pos (suc (length lines))) tbl)

  -- `load()`
  unfoldable pub load : FileRead → SourceInfo → SourceInfo
  unfolding read_lines with_last
  load (refused why) s = record s { stat = of_info file_open_err why }
  load (contents lines last) s =
      let (text, tbl) = with_last (read_lines 0 lines []) last in
      record s { text = text; label_tbl = tbl; stat = of_code no_problem }

  -- `OZT_SourceInfo(fileName, theVarStore)`
  unfoldable pub file_source : Text → FileRead → SourceInfo
  unfolding load to_first_line
  file_source name file = to_first_line (load file (unloaded name false))

  -- `update`
  unfoldable pub update : FileRead → SourceInfo → SourceInfo × OztResult
  unfolding load is_ok
  update file s0 =
      let s = load file s0 in
      if not (is_ok s.stat.code)
      then (s, s.stat)
      else let (s1, found_line) = adjust_curr_line s in
        if found_line then (s1, s1.stat) else (
          record s1 { stat = of_info no_executable_code s1.filename },
          of_info no_executable_code s1.filename,
        )
