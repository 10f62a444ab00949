-- ===== src/Tests/Files.antt =====
-- The theorem on reading a file at a concrete one.
use operations_procedure_sup.Common.{
  ℕ, suc, true, false, ◌≡◌, refl, [], ◌∷◌, none, Text, codes, map, Bool-cases, inl, inr,
}
use operations_procedure_sup.Tools.Engine.{engine, scan_from, match_pieces, in_class}
use operations_procedure_sup.ErrHandling.{of_code, no_problem, hit_eof, filtered}
use operations_procedure_sup.SourceInfo.Load.{contents}
use operations_procedure_sup.FileMgr.{
  FileSystem, FileMgr, new_file_mgr, line_ends, open_read_file, read_line,
}
use operations_procedure_sup.FileMgr.Pieces.{is_end, first_end, FindsLineEnds, fine}
use operations_procedure_sup.FileMgr.Reading.{read_times, read_times-open_read_file}

scan_line_ends : (s : Text) (i : ℕ) → scan_from line_ends.pieces false i s ≡ first_end i s
unfolding scan_from match_pieces in_class
scan_line_ends [] i = refl
scan_line_ends (c ∷ cs) i = elim (Bool-cases (is_end c)) [
  | inl e ↦ rw (scan_from, e) refl
  | inr e ↦ rw (scan_from, e) (scan_line_ends cs (suc i))
]

engine-FindsLineEnds : FindsLineEnds engine
unfolding engine
engine-FindsLineEnds s = scan_line_ends s 0

-- One file, "a.txt", of two lines with a form feed in the first.
abbrev disk : FileSystem (Unit {0})
disk = record {
  normalise_path = λ p. p;
  curr_dir = λ w. [];
  stat = λ p w. inr false;
  access = λ p w. none;
  chdir = λ p w. (none, w);
  mkdir = λ p w. (none, w);
  rmdir = λ p w. (none, w);
  unlink = λ p w. (none, w);
  rename = λ p q w. (none, w);
  read_file = λ p w. contents (codes "one\u{c}two" ∷ (codes "three" ∷ [])) [];
  meets_eof = λ p w. true;
  open_write = λ p w. (none, w);
  open_append = λ p w. (none, w);
  lseek = λ n w. (none, w);
  chmod = λ p w. (none, w);
  write = λ p w. (none, w);
  close = λ w. w;
}

abbrev fresh_mgr : FileMgr (Unit {0})
fresh_mgr = new_file_mgr (record { err_flag = false; checking = true }) tt

read_times-open_read_file_example :
    let (r, m1) = open_read_file disk (codes "a.txt") fresh_mgr in
    let (answers, m2) = read_times engine disk 3 m1 in
    (r ≡ of_code no_problem)
    × (answers ≡ map fine (codes "one" ∷ (codes "two" ∷ (codes "three" ∷ []))))
    × ((read_line engine disk m2).0 ≡ ([], (filtered (of_code hit_eof) fresh_mgr.err_handler).0))
read_times-open_read_file_example =
    read_times-open_read_file engine disk (codes "a.txt") fresh_mgr
      (codes "one\u{c}two" ∷ (codes "three" ∷ [])) engine-FindsLineEnds refl refl refl refl refl
