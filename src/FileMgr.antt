-- ===== src/FileMgr.antt =====
-- ops-enm-parser/src/main/cpp/parse/OZT_FileMgr.C: the file that a script reads line by line, and
-- the files and directories that it makes, writes, renames and removes. What the file system
-- answers is a parameter.
pub mod Pieces
pub mod Reading
pub mod Disk
use operations_procedure_sup.Common.{
  ℕ, suc, Bool, true, false, not, ◌||◌, List, [], ◌∷◌, ◌++◌, Option, none, some, Text,
  if◌then◌else◌, take, drop, ℤ, pos, ltb_ℤ, leb_ℤ, ◌⊎◌, inl, inr,
}
use operations_procedure_sup.Tools.{Tools, Pattern, CharClass, one, optional, plus, found}
use operations_procedure_sup.ErrHandling.{
  OztResult, ErrHandler, fresh, of_code, of_info, filtered, no_problem, hit_eof, file_op_err,
  invalid_value, path_is_dir, failed,
}
use operations_procedure_sup.Value.Convert.{atol}
use operations_procedure_sup.SourceInfo.Load.{FileRead, refused, contents}

-- A failed system call: the two errors that the program asks for, and `strerror(errno)`.
pub record Failure : Type 0 where
  pub enoent : Bool
  pub eexist : Bool
  pub message : Text

-- The file system. A call answers its failure, if it fails.
pub record FileSystem (W : Type 0) : Type 0 where
  pub normalise_path : Text → Text
  pub curr_dir : W → Text
  -- `stat`: whether the path is a directory.
  pub stat : Text → W → Failure ⊎ Bool
  -- `access` for writing
  pub access : Text → W → Option Failure
  pub chdir : Text → W → Option Failure × W
  pub mkdir : Text → W → Option Failure × W
  pub rmdir : Text → W → Option Failure × W
  pub unlink : Text → W → Option Failure × W
  pub rename : Text → Text → W → Option Failure × W
  -- What opening the file and reading it to its end gives.
  pub read_file : Text → W → FileRead
  -- Whether the end of the file is met already while its last line is read.
  pub meets_eof : Text → W → Bool
  -- `open` for writing, and for appending, with the rights to create it.
  pub open_write : Text → W → Option Failure × W
  pub open_append : Text → W → Option Failure × W
  pub lseek : ℤ → W → Option Failure × W
  pub chmod : Text → W → Option Failure × W
  pub write : Text → W → Option Failure × W
  pub close : W → W

-- The input stream: the lines to come, the text that a failed read leaves behind, and whether the
-- end is met with the last line.
pub record Stream : Type 0 where
  pub is_open : Bool
  pub lines : List Text
  pub left_over : Text
  pub meets_end : Bool
  pub eof : Bool

-- The stream behind a line that was read.
abbrev pub behind_line : List Text → Stream → Stream
behind_line [] s = record s { lines = []; eof = s.meets_end || s.eof }
behind_line (l ∷ ls) s = record s { lines = l ∷ ls }

-- `OZT_FileMgr`, with the error handler that `filtered` uses and the world of the file system.
pub record FileMgr (W : Type 0) : Type 0 where
  pub stored_file : Stream
  pub stored_file_name : Text
  pub last_line_index : ℕ
  pub last_read_line : Text
  pub last_read_result : OztResult
  pub err_handler : ErrHandler
  pub world : W

-- `OZT_FileMgr()`
abbrev pub new_file_mgr : {W : Type 0} → ErrHandler → W → FileMgr W
new_file_mgr h w = record {
  stored_file = record {
    is_open = false;
    lines = [];
    left_over = [];
    meets_end = false;
    eof = false;
  };
  stored_file_name = [];
  last_line_index = 0;
  last_read_line = [];
  last_read_result = fresh;
  err_handler = h;
  world = w;
}

-- `isNull`
abbrev pub is_null : Text → Bool
is_null [] = true
is_null (c ∷ cs) = false

-- `[\f\n\v]`
abbrev pub line_ends : Pattern
line_ends = record {
  from_start = false;
  pieces = one (record { ranges = (10, 12) ∷ []; negated = false }) ∷ [];
  to_end = false;
}

-- `^[+]?[0-9]+$`
abbrev pub line_number_pattern : Pattern
line_number_pattern = record {
  from_start = true;
  pieces =
      optional (record { ranges = (b'+', b'+') ∷ []; negated = false })
      ∷ plus (record { ranges = (b'0', b'9') ∷ []; negated = false })
      ∷ [];
  to_end = true;
}

module _ {W : Type 0} where
  -- `filtered`
  abbrev pub answer : OztResult → FileMgr W → OztResult × FileMgr W
  answer r m = let (r1, h1) = filtered r m.err_handler in (r1, record m { err_handler = h1 })

  -- `storedFile.close()` and `storedFileName = RWCString()`
  abbrev pub closed : FileMgr W → FileMgr W
  closed m = record m {
    stored_file = record m.stored_file { is_open = false };
    stored_file_name = [];
  }

  -- `closeReadFile`
  unfoldable pub close_read_file : FileMgr W → OztResult × FileMgr W
  close_read_file m = (
    of_code no_problem,
    if is_null m.stored_file_name then record m { stored_file_name = [] } else closed m,
  )

  -- `storedFile.open`, when no file is open.
  unfoldable pub open_stored : FileSystem W → Text → FileMgr W → OztResult × FileMgr W
  open_stored fs name m = elim (fs.read_file name m.world) [
    | refused reason ↦ answer (of_info failed reason) m
    | contents ls left ↦ answer (of_code no_problem) (record m {
      stored_file = record {
        is_open = true;
        lines = ls;
        left_over = left;
        meets_end = fs.meets_eof name m.world;
        eof = false;
      };
      stored_file_name = name;
    })
  ]

  -- Whether `stat` finds a directory.
  abbrev pub is_dir : FileSystem W → Text → FileMgr W → Bool
  is_dir fs name m = elim (fs.stat name m.world) [ inl failure ↦ false | inr dir ↦ dir ]

  -- `openReadFile`
  unfoldable pub open_read_file : FileSystem W → Text → FileMgr W → OztResult × FileMgr W
  unfolding open_stored close_read_file
  open_read_file fs name m =
      let m1 = record m {
        last_read_line = [];
        last_line_index = 0;
        last_read_result = of_code no_problem;
      } in
      let full = fs.normalise_path name in
      let m2 = if is_null m1.stored_file_name then m1 else closed m1 in
      if is_null name
      then (of_code file_op_err, (close_read_file m1).1)
      else if is_dir fs full m1
      then answer (of_code path_is_dir) m1
      else if m2.stored_file.is_open
      then answer (of_code no_problem) m2
      else open_stored fs full m2

  -- A read that fails.
  abbrev pub failed_read : FileMgr W → FileMgr W
  failed_read m =
      if m.stored_file.is_open
      then record m {
        last_read_line = m.stored_file.left_over;
        stored_file = record m.stored_file { left_over = []; eof = true };
      }
      else record m { last_read_line = [] }

  -- The loop of `read`, along the lines to come.
  unfoldable pub read_loop : ℤ → List Text → FileMgr W → Bool × FileMgr W
  read_loop linenr [] m =
      if ltb_ℤ (pos m.last_line_index) linenr then (false, failed_read m) else (true, m)
  read_loop linenr (l ∷ ls) m =
      let rest = read_loop linenr ls (record m {
        last_read_line = l;
        stored_file = behind_line ls m.stored_file;
        last_line_index = suc m.last_line_index;
      }) in
      if ltb_ℤ (pos m.last_line_index) linenr then rest else (true, m)

  -- The file from its start, which `read` asks for when the line is behind it.
  unfoldable pub reopened : FileSystem W → FileMgr W → FileMgr W
  unfolding close_read_file open_read_file
  reopened fs m =
      let m1 = (open_read_file fs m.stored_file_name (close_read_file m).1).1 in
      record m1 { last_line_index = 0 }

  -- `read`
  unfoldable pub read : FileSystem W → ℤ → FileMgr W → Bool × FileMgr W
  unfolding read_loop reopened
  read fs linenr m =
      let m1 = if leb_ℤ linenr (pos m.last_line_index) then reopened fs m else m in
      read_loop linenr (if m1.stored_file.is_open then m1.stored_file.lines else []) m1

  -- The new line that both `readLine` take when nothing is left of the last one.
  unfoldable pub next_line : FileSystem W → ℤ → FileMgr W → FileMgr W
  unfolding read
  next_line fs linenr m =
      let (success, m1) = read fs linenr m in
      if success
      then record m1 {
        last_read_line = m1.last_read_line ++ 10 ∷ [];
        last_read_result = of_code no_problem;
      }
      else record m1 {
        last_read_result = of_code (if m1.stored_file.eof then hit_eof else file_op_err);
      }

  -- The end of both `readLine`: the text in front of a line end is the line.
  unfoldable pub split_line : Tools → FileMgr W → (Text × OztResult) × FileMgr W
  split_line t m = elim (t.index line_ends m.last_read_line 0) [
    | some (k, n) ↦
        let (r, m1) =
          answer (of_code no_problem)
            (record m { last_read_line = drop (suc k) m.last_read_line }) in
        ((take k m.last_read_line, r), m1)
    | none ↦
        let (r, m1) = answer m.last_read_result (record m { last_read_line = [] }) in
        ((m.last_read_line, r), m1)
  ]

  -- `readLine(line)`
  unfoldable pub read_line : Tools → FileSystem W → FileMgr W → (Text × OztResult) × FileMgr W
  unfolding next_line split_line
  read_line t fs m =
      split_line t
        (if is_null m.last_read_line then next_line fs (pos (suc m.last_line_index)) m else m)

  -- `readLine(line, lineNr)`; the text of `line` before the call is kept on an invalid number.
  unfoldable pub read_line_at :
      Tools → FileSystem W → Text → Text → FileMgr W → (Text × OztResult) × FileMgr W
  unfolding next_line split_line
  read_line_at t fs line_nr line m =
      if not (found (t.index line_number_pattern line_nr 0))
      then ((line, record fresh { code = invalid_value }), m)
      else split_line t (if is_null m.last_read_line then next_line fs (atol line_nr) m else m)
